-- ===== src/DurableObjects/Authorizing.antt =====
-- That `#authorize` of src/durable-objects.ts grants nothing that GitHub's answer does not.
use jsrproxy.Common.{
  ℕ, ◌<◌, ◌≡◌, refl, sym, ap, ◌∙◌, ◌⊎◌, inl, inr, true, Bool-cases, Option, some, Option-cases,
  Text, codes, ◌==◌, nat_eq, text_eq, text_beq-eq, ok,
}
use mathlib.Core.Bool.{false≢true}
use jsrproxy.Common.Http.{Request, Response, json_of}
use jsrproxy.Common.Json.{field, as_string}
use jsrproxy.Common.Map.{get}
use jsrproxy.Auth.{GitHubDecision, GitHubResult, decision, unavailable, classify_github_response}
use jsrproxy.DurableObjects.Admission.{
  unexpired, unavailable_response, decision_response, AuthorizationRequest, parse_authorization,
  repository_key, repository_url, named_decision, authorized, authorize,
}
use jsrproxy.DurableObjects.Storage.{Storage}
use jsrproxy.DurableObjects.Decided.{
  decision_response_inj, status-ne, answer_inj, unexpired-some, IsAccepted, decision-IsAccepted,
}

named_decision-granted :
    (to_lower_case : Text → Text) (e : GitHubDecision) (repository : Text) (github : Response)
    → (named_decision to_lower_case e repository github).granted ≡ true
    → (e.granted ≡ true)
      × ((name : Text) × (as_string (field (json_of github) (codes "name")) ≡ some name)
          × (to_lower_case name ≡ repository))
unfolding named_decision
named_decision-granted to_lower_case e repository github h = elim (Bool-cases e.granted) [
  | inr refuses ↦ let refused = rw (refuses, named_decision) at h in absurd (false≢true refused)
  | inl grants ↦ elim (Option-cases (as_string (field (json_of github) (codes "name")))) [
    | inl missing ↦
        let refused = rw (grants, missing, named_decision) at h in absurd (false≢true refused)
    | inr (name, found) ↦ elim (Bool-cases (to_lower_case name == repository)) [
      | inl same ↦ (grants, (name, found, text_beq-eq _ _ same))
      | inr different ↦
          let refused = rw (grants, found, different, named_decision) at h in
          absurd (false≢true refused)
    ]
  ]
]

named_decision-expires :
    (to_lower_case : Text → Text) (e : GitHubDecision) (repository : Text) (github : Response)
    → (named_decision to_lower_case e repository github).expires_at ≡ e.expires_at
unfolding named_decision
named_decision-expires to_lower_case e repository github = elim (Bool-cases e.granted) [
  | inr refuses ↦ rw (refuses, named_decision) refl
  | inl grants ↦ elim (Option-cases (as_string (field (json_of github) (codes "name")))) [
    | inl missing ↦ rw (grants, missing, named_decision) refl
    | inr (name, found) ↦ elim (Bool-cases (to_lower_case name == repository)) [
      | inl same ↦ rw (grants, found, same, named_decision) refl
      | inr different ↦ rw (grants, found, different, named_decision) refl
    ]
  ]
]

module _ (to_lower_case : Text → Text) (encode : Text → Option Text)
    (fetch : Text → Text → Option Response) (now classified_at : ℕ) (storage later : Storage)
    (request : Request) (input : AuthorizationRequest)
    (parsed : parse_authorization request.json ≡ some input) where
  -- GitHub showed the repository to the credential of the request, under the name of the request.
  pub record IsAuthorized (d : GitHubDecision) : Type 0 where
    pub url : Text
    pub at_url : repository_url to_lower_case encode input ≡ some url
    pub github : Response
    pub fetched : fetch url input.pat ≡ some github
    pub accepted : IsAccepted github classified_at d
    pub name : Text
    pub found : as_string (field (json_of github) (codes "name")) ≡ some name
    pub same_name : to_lower_case name ≡ input.repository

  authorized-IsAuthorized :
      (result : GitHubResult) (url : Text) (github : Response) (d : GitHubDecision)
      → classify_github_response github classified_at ≡ result
      → repository_url to_lower_case encode input ≡ some url
      → fetch url input.pat ≡ some github
      → (authorized to_lower_case later result input github).0 ≡ decision_response d
      → d.granted ≡ true
      → IsAuthorized d
  unfolding authorized
  authorized-IsAuthorized (unavailable r) url github d c at_url fetched h granted =
      absurd (status-ne (unavailable_response r) d refl h)
  authorized-IsAuthorized (decision e) url github d c at_url fetched h granted =
      let decided = named_decision to_lower_case e input.repository github in
      let same : decided ≡ d = decision_response_inj decided d h in
      let (grants, (name, found, same_name)) =
        named_decision-granted to_lower_case e input.repository github
          (ap (λ x. x.granted) same ∙ granted) in
      let accepted = decision-IsAccepted github classified_at e c grants in
      record {
        url = url;
        at_url = at_url;
        github = github;
        fetched = fetched;
        accepted = record {
          accepted_from = accepted.accepted_from;
          accepted_to = accepted.accepted_to;
          expires =
              sym (ap (λ x. x.expires_at) same)
              ∙ named_decision-expires to_lower_case e input.repository github
              ∙ accepted.expires;
        };
        name = name;
        found = found;
        same_name = same_name;
      }

  -- Whatever the storage holds and GitHub answers: an authorization that grants repeats a decision
  -- stored for the same fingerprint that has not expired, or GitHub showed the repository of the
  -- request to its credential with a status from 200 to 299 and a name whose lower case is that of
  -- the request, and the decision holds for a minute.
  pub authorize-granted :
      (d : GitHubDecision) (after : Storage)
      → authorize to_lower_case encode fetch now classified_at storage later request
        ≡ ok (decision_response d, after)
      → d.granted ≡ true
      → ((get storage.cache (repository_key input.fingerprint) ≡ some d) × (now < d.expires_at))
        ⊎ IsAuthorized d
  unfolding authorize
  authorize-granted d after h granted =
      elim (Option-cases (unexpired (get storage.cache (repository_key input.fingerprint)) now)) [
        | inr (cached, u) ↦
            let answered = rw (parsed, u, authorize) at h in
            let same : cached ≡ d = decision_response_inj cached d (answer_inj answered) in
            inl (unexpired-some _ now d (u ∙ ap some same))
        | inl u ↦ elim (Option-cases (repository_url to_lower_case encode input)) [
          | inl e ↦ let thrown = rw (parsed, u, e, authorize) at h in absurd (cc)
          | inr (url, e) ↦ elim (Option-cases (fetch url input.pat)) [
            | inl f ↦ let thrown = rw (parsed, u, e, f, authorize) at h in absurd (cc)
            | inr (github, f) ↦
                let answered = rw (parsed, u, e, f, authorize) at h in
                inr (
                  authorized-IsAuthorized (classify_github_response github classified_at) url github
                    d refl e f (ap_first answered) granted)
          ]
        ]
      ]
    where
      ap_first :
          {r : Response × Storage}
          → ok r ≡ ok (decision_response d, after)
          → r.0 ≡ decision_response d
      ap_first e = cc
