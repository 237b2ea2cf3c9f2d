-- ===== src/DurableObjects/Admission.antt =====
-- The decisions that src/durable-objects.ts asks GitHub for: `AdmissionDurableObjectV2`, whose
-- storage is one record, and `#authorize` of `PackageDurableObjectV2`. GitHub's answer to a request
-- for a URL with a credential is a parameter, `none` where making or sending the request rejects. A
-- handler may be overtaken by others while it waits: `later` is the storage when GitHub has answered.
use jsrproxy.Common.{
  ℕ, ◌+◌, ◌/◌, Bool, false, not, ◌&&◌, Option, none, some, List, [], ◌∷◌, ◌++◌, Text, codes, ltb,
  any, ◌==◌, nat_eq, text_eq, if◌then◌else◌, Result, ok, err, ◌>>=◌, fetch_failed, bad_uri,
}
use jsrproxy.Common.Decimal.{decimal}
use jsrproxy.Common.Http.{Request, Response, text_response, json_response, json_of}
use jsrproxy.Common.Json.{Json, field, as_string}
use jsrproxy.Common.Map.{Map, get, set}
use jsrproxy.Common.Scanning.{◌>>=◌ as ◌>>=?◌}
use jsrproxy.Auth.{GitHubDecision, GitHubResult, decision, unavailable, classify_github_response}
use jsrproxy.Config.{parse_config}
use jsrproxy.DurableObjects.Printing.{decision_json, unavailable_json}
use jsrproxy.DurableObjects.Storage.{Storage}

-- `cached && cached.expiresAt > Date.now()`
unfoldable pub unexpired : Option GitHubDecision → ℕ → Option GitHubDecision
unexpired none now = none
unexpired (some cached) now = if ltb now cached.expires_at then some cached else none

-- `String(Math.ceil(retryAfterSeconds))`, unless that is 0 or missing.
abbrev pub retry_headers : Option ℕ → Map Text Text
retry_headers none = []
retry_headers (some ms) =
    if ms == 0 then [] else (codes "retry-after", decimal ((ms + 999) / 1_000)) ∷ []

abbrev pub unavailable_response : Option ℕ → Response
unavailable_response retry_after =
    json_response 503 (retry_headers retry_after) (unavailable_json retry_after)

abbrev pub decision_response : GitHubDecision → Response
decision_response d = json_response 200 [] (decision_json d)

abbrev text_is : Option Text → Text → Bool
text_is none expected = false
text_is (some s) expected = s == expected

-- `body.pat`, if the request is a check with one.
unfoldable pub admission_pat : Request → Option Text
admission_pat request = elim (as_string (field request.json (codes "pat"))) [
  | none ↦ none
  | some pat ↦ if pat == [] then none else some pat
]

-- `user.login` is a trusted user.
unfoldable pub is_trusted : List Text → Response → Bool
is_trusted users github = elim (as_string (field (json_of github) (codes "login"))) [
  | none ↦ false
  | some login ↦ any (λ user. user == login) users
]

module _ (parse : Text → Option Json) (config : Option Text) where
  -- The end of the check, once GitHub has answered.
  unfoldable pub admitted :
      Option GitHubDecision → GitHubResult → Response → Result (Response × Option GitHubDecision)
  admitted later (unavailable retry_after) github = ok (unavailable_response retry_after, later)
  admitted later (decision d) github =
      if d.granted
      then (parse_config parse config >>= λ parsed.
          let decided : GitHubDecision = record {
            granted = is_trusted parsed.trusted_github_users github;
            expires_at = d.expires_at;
          } in
          ok (decision_response decided, some decided))
      else ok (decision_response d, some d)

  -- `fetch` of the admission object.
  unfoldable pub check_admission :
      (Text → Text → Option Response)
      → (now classified_at : ℕ) → (storage later : Option GitHubDecision) → Request
      → Result (Response × Option GitHubDecision)
  check_admission fetch now classified_at storage later request =
      if not ((request.method == codes "POST") && (request.url.pathname == codes "/check"))
      then ok (text_response 404 [] (codes "not found"), storage)
      else elim (admission_pat request) [
        | none ↦ ok (text_response 400 [] (codes "invalid admission request"), storage)
        | some pat ↦ elim (unexpired storage now) [
          | some cached ↦ ok (decision_response cached, storage)
          | none ↦ elim (fetch (codes "https://api.github.com/user") pat) [
            | none ↦ err fetch_failed
            | some github ↦ admitted later (classify_github_response github classified_at) github
          ]
        ]
      ]

pub record AuthorizationRequest : Type 0 where
  pub fingerprint : Text
  pub owner : Text
  pub repository : Text
  pub pat : Text

unfoldable pub parse_authorization : Option Json → Option AuthorizationRequest
parse_authorization body = as_string (field body (codes "fingerprint")) >>=? λ fingerprint.
    as_string (field body (codes "owner")) >>=? λ owner.
    as_string (field body (codes "repository")) >>=? λ repository.
    as_string (field body (codes "pat")) >>=? λ pat.
    some (record { fingerprint = fingerprint; owner = owner; repository = repository; pat = pat })

abbrev pub repository_key : Text → Text
repository_key fingerprint = codes "repository:" ++ fingerprint

module _ (to_lower_case : Text → Text) where
  -- The decision, refused where GitHub's repository has another name.
  unfoldable pub named_decision : GitHubDecision → Text → Response → GitHubDecision
  named_decision d repository github =
      if d.granted
      then elim (as_string (field (json_of github) (codes "name"))) [
        | none ↦ record { granted = false; expires_at = d.expires_at }
        | some name ↦
            if to_lower_case name == repository
            then d
            else record { granted = false; expires_at = d.expires_at }
      ]
      else d

  -- The end of `#authorize`, once GitHub has answered.
  unfoldable pub authorized :
      Storage → GitHubResult → AuthorizationRequest → Response → Response × Storage
  authorized later (unavailable retry_after) input github =
      (unavailable_response retry_after, later)
  authorized later (decision d) input github =
      let decided = named_decision d input.repository github in
      (
        decision_response decided,
        record later { cache = set later.cache (repository_key input.fingerprint) decided },
      )

  -- `encodeURIComponent` is `encode`, with `none` where it throws.
  abbrev pub repository_url : (Text → Option Text) → AuthorizationRequest → Option Text
  repository_url encode input = encode input.owner >>=? λ owner.
      encode input.repository >>=? λ repository.
      some (codes "https://api.github.com/repos/" ++ (owner ++ b'/' ∷ repository))

  -- `#authorize`
  unfoldable pub authorize :
      (Text → Option Text)
      → (Text → Text → Option Response)
      → (now classified_at : ℕ) → (storage later : Storage) → Request
      → Result (Response × Storage)
  authorize encode fetch now classified_at storage later request =
      elim (parse_authorization request.json) [
        | none ↦ ok (text_response 400 [] (codes "invalid authorization request"), storage)
        | some input ↦ elim (unexpired (get storage.cache (repository_key input.fingerprint)) now) [
          | some cached ↦ ok (decision_response cached, storage)
          | none ↦ elim (repository_url encode input) [
            | none ↦ err bad_uri
            | some url ↦ elim (fetch url input.pat) [
              | none ↦ err fetch_failed
              | some github ↦
                  ok (authorized later (classify_github_response github classified_at) input github)
            ]
          ]
        ]
      ]
