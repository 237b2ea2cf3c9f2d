-- ===== src/DurableObjects/Decided.antt =====
-- The decisions that the responses of src/durable-objects.ts carry.
use jsrproxy.Common.{
  ℕ, ◌+◌, ◌≤◌, ◌<◌, ◌≡◌, refl, sym, ap, subst, ◌∙◌, ◌⊎◌, inl, inr, Bool, true, false, not, ◌&&◌,
  Bool-cases, Option, none, some, Option-cases, List, [], ◌∷◌, Text, codes, ◌==◌, nat_eq, text_eq,
  text_beq-eq, arith, ltb, if◌then◌else◌, Result, ok, err, >>=-eq-ok, ◌>>=◌,
}
use mathlib.Core.Bool.{false≢true}
use jsrproxy.Common.Http.{Response}
use jsrproxy.Common.Json.{Json, field, as_string}
use jsrproxy.Auth.{GitHubDecision, decision, classify_github_response}
use jsrproxy.Auth.Decisions.{classify_github_response_iff}
use jsrproxy.DurableObjects.Admission.{unexpired, decision_response}

pub decision_response_inj :
    (d e : GitHubDecision) → decision_response d ≡ decision_response e → d ≡ e
unfolding jsrproxy.Common.Json.of_entries
decision_response_inj d e h = cc

-- A response with another status than 200 is no decision.
pub status-ne :
    (r : Response) (d : GitHubDecision) → (r.status == 200) ≡ false → ¬ r ≡ decision_response d
status-ne r d other h = false≢true (sym other ∙ ap (λ x. x.status == 200) h)

pub answer_inj :
    {A : Type 0} {r s : Response} {a b : A}
    → ◌≡◌ {A = Result (Response × A)} (ok (r, a)) (ok (s, b))
    → r ≡ s
answer_inj h = cc

pub unexpired-some :
    (o : Option GitHubDecision) (now : ℕ) (d : GitHubDecision)
    → unexpired o now ≡ some d
    → (o ≡ some d) × (now < d.expires_at)
unfolding unexpired
unexpired-some none now d h = cc
unexpired-some (some c) now d h = elim (Bool-cases (ltb now c.expires_at)) [
  | inl e ↦
      let same : c ≡ d = cc (rw (e, unexpired) at h) in
      (ap some same, subst (λ x. now < x.expires_at) same (ground arith))
  | inr e ↦ let nothing = rw (e, unexpired) at h in absurd (cc)
]

-- What a decision that grants rests on.
pub record IsAccepted (github : Response) (classified_at : ℕ) (d : GitHubDecision) : Type 0 where
  pub accepted_from : 200 ≤ github.status
  pub accepted_to : github.status ≤ 299
  pub expires : d.expires_at ≡ classified_at + 60_000

pub decision-IsAccepted :
    (github : Response) (classified_at : ℕ) (d : GitHubDecision)
    → classify_github_response github classified_at ≡ decision d
    → d.granted ≡ true
    → IsAccepted github classified_at d
decision-IsAccepted github classified_at d h granted =
    let (expires, either) = (classify_github_response_iff github classified_at d).0 h in
    elim either [
      | inl (grants, low, high) ↦ record {
        accepted_from = low;
        accepted_to = high;
        expires = expires;
      }
      | inr (refuses, _) ↦ absurd (cc)
    ]
