-- ===== src/DurableObjects/Granting.antt =====
-- That a check of admission in src/durable-objects.ts grants nothing that GitHub's answer does not.
use jsrproxy.Common.{
  ℕ, ◌<◌, ◌≡◌, refl, sym, ap, ◌∙◌, ◌⊎◌, inl, inr, true, false, not, ◌&&◌, Bool-cases, Option, some,
  Option-cases, Text, codes, ◌==◌, nat_eq, text_eq, ok, >>=-eq-ok, List, [], ◌∷◌, In, here, there,
  any, text_beq-eq,
}
use jsrproxy.Common.Http.{Request, Response, json_of}
use jsrproxy.Common.Json.{Json, field, as_string}
use jsrproxy.Auth.{GitHubDecision, GitHubResult, decision, unavailable, classify_github_response}
use jsrproxy.Config.{ProxyConfig, parse_config}
use jsrproxy.DurableObjects.Admission.{
  unexpired, unavailable_response, decision_response, admission_pat, is_trusted, admitted,
  check_admission,
}
use jsrproxy.DurableObjects.Decided.{
  decision_response_inj, status-ne, answer_inj, unexpired-some, IsAccepted, decision-IsAccepted,
}

any-In :
    (login : Text) (users : List Text) → any (λ user. user == login) users ≡ true → In login users
unfolding any
any-In login [] h = absurd (cc)
any-In login (user ∷ users) h = elim (Bool-cases (user == login)) [
  | inl same ↦ rw (← text_beq-eq user login same) here
  | inr different ↦ there (any-In login users (rw different at h))
]

is_trusted-In :
    (users : List Text) (github : Response)
    → is_trusted users github ≡ true
    → (login : Text) × (as_string (field (json_of github) (codes "login")) ≡ some login)
      × In login users
unfolding is_trusted
is_trusted-In users github h =
    elim (Option-cases (as_string (field (json_of github) (codes "login")))) [
      | inl e ↦ let untrusted = rw (e, is_trusted) at h in absurd (cc)
      | inr (login, e) ↦ (login, e, any-In login users (rw (e, is_trusted) at h))
    ]

module _ (parse : Text → Option Json) (config : Option Text) (fetch : Text → Text → Option Response)
    (now classified_at : ℕ) (storage later : Option GitHubDecision) (request : Request) where
  -- GitHub accepted the credential of the request, for a user that the configuration trusts.
  pub record IsAdmitted (d : GitHubDecision) : Type 0 where
    pub pat : Text
    pub sent : admission_pat request ≡ some pat
    pub github : Response
    pub fetched : fetch (codes "https://api.github.com/user") pat ≡ some github
    pub accepted : IsAccepted github classified_at d
    pub parsed : ProxyConfig
    pub configured : parse_config parse config ≡ ok parsed
    pub login : Text
    pub logged_in : as_string (field (json_of github) (codes "login")) ≡ some login
    pub trusted : In login parsed.trusted_github_users

  admitted-IsAdmitted :
      (result : GitHubResult) (pat : Text) (github : Response) (d : GitHubDecision)
      (after : Option GitHubDecision)
      → classify_github_response github classified_at ≡ result
      → admission_pat request ≡ some pat
      → fetch (codes "https://api.github.com/user") pat ≡ some github
      → admitted parse config later result github ≡ ok (decision_response d, after)
      → d.granted ≡ true
      → IsAdmitted d
  unfolding admitted
  admitted-IsAdmitted (unavailable r) pat github d after c sent fetched h granted =
      absurd (status-ne (unavailable_response r) d refl (answer_inj h))
  admitted-IsAdmitted (decision e) pat github d after c sent fetched h granted =
      elim (Bool-cases e.granted) [
        | inr refuses ↦
            let answered = rw (refuses, admitted) at h in
            let denied : GitHubDecision = record { granted = false; expires_at = e.expires_at } in
            let same : denied ≡ d = decision_response_inj denied d (answer_inj answered) in
            absurd (cc (ap (λ x. x.granted) same))
        | inl grants ↦
            let answered = rw (grants, admitted) at h in
            let (parsed, configured, rest) = >>=-eq-ok (parse_config parse config) _ answered in
            let decided : GitHubDecision = record {
              granted = is_trusted parsed.trusted_github_users github;
              expires_at = e.expires_at;
            } in
            let same : decided ≡ d = decision_response_inj decided d (answer_inj rest) in
            let accepted = decision-IsAccepted github classified_at e c grants in
            let (login, logged_in, trusted) =
              is_trusted-In parsed.trusted_github_users github
                (ap (λ x. x.granted) same ∙ granted) in
            record {
              pat = pat;
              sent = sent;
              github = github;
              fetched = fetched;
              accepted = record {
                accepted_from = accepted.accepted_from;
                accepted_to = accepted.accepted_to;
                expires = sym (ap (λ x. x.expires_at) same) ∙ accepted.expires;
              };
              parsed = parsed;
              configured = configured;
              login = login;
              logged_in = logged_in;
              trusted = trusted;
            }
      ]

  -- Whatever the storage holds and GitHub answers: a check that grants repeats a stored decision
  -- that has not expired, or GitHub accepted the credential of the request with a status from 200 to
  -- 299, for a user that the configuration trusts, and the decision holds for a minute.
  pub check_admission-granted :
      (d : GitHubDecision) (after : Option GitHubDecision)
      → check_admission parse config fetch now classified_at storage later request
        ≡ ok (decision_response d, after)
      → d.granted ≡ true
      → ((storage ≡ some d) × (now < d.expires_at)) ⊎ IsAdmitted d
  unfolding check_admission
  check_admission-granted d after h granted =
      elim (Bool-cases
        (not ((request.method == codes "POST") && (request.url.pathname == codes "/check")))) [
          | inl e ↦
              let refused = rw (e, check_admission) at h in
              absurd (status-ne _ d refl (answer_inj refused))
          | inr e ↦ elim (Option-cases (admission_pat request)) [
            | inl p ↦
                let refused = rw (e, p, check_admission) at h in
                absurd (status-ne _ d refl (answer_inj refused))
            | inr (pat, p) ↦ elim (Option-cases (unexpired storage now)) [
              | inr (cached, u) ↦
                  let answered = rw (e, p, u, check_admission) at h in
                  let same : cached ≡ d = decision_response_inj cached d (answer_inj answered) in
                  inl (unexpired-some storage now d (u ∙ ap some same))
              | inl u ↦ elim (Option-cases (fetch (codes "https://api.github.com/user") pat)) [
                | inl f ↦ let thrown = rw (e, p, u, f, check_admission) at h in absurd (cc)
                | inr (github, f) ↦ inr (
                    admitted-IsAdmitted (classify_github_response github classified_at) pat github d
                      after refl p f (rw (e, p, u, f, check_admission) at h) granted)
              ]
            ]
          ]
        ]
