-- ===== src/DurableObjects/Parsing.antt =====
-- What src/durable-objects.ts reads of the JSON that it is sent.
use jsrproxy.Common.{
  ℕ, leb, length, Bool, true, false, not, ◌&&◌, ◌||◌, Option, none, some, List, [], ◌∷◌, Text,
  codes, ◌==◌, text_eq, any, if◌then◌else◌,
}
use jsrproxy.Common.Json.{Json, field, as_string, as_array, as_safe, is_object}
use jsrproxy.Common.Map.{Map, has, set}
use jsrproxy.Common.Scanning.{guard, ◌>>=◌, ◌>>◌}
use jsrproxy.Auth.{is_space}
use jsrproxy.Branches.{CommitTip, BranchDiscovery}
use jsrproxy.PackageRegistry.Records.{PackageName, TombstoneDiagnostic}

unfoldable pub parse_package_name : Option Json → Option PackageName
parse_package_name value = do
  guard (is_object value)
  scope ← as_string (field value (codes "scope"))
  name ← as_string (field value (codes "name"))
  some (record { scope = scope; name = name })

-- One round of the loop of `parseDiscovery`.
unfoldable pub parse_branch : Json → Map Text CommitTip → Option (Map Text CommitTip)
parse_branch branch tips = do
  guard (is_object (some branch))
  name ← as_string (field (some branch) (codes "name"))
  sha ← as_string (field (some branch) (codes "sha"))
  committed_at ← as_safe (field (some branch) (codes "committedAt"))
  guard (not (has tips name))
  some (set tips name (record { sha = sha; committed_at = committed_at }))

unfoldable pub parse_branches : List Json → Map Text CommitTip → Option (Map Text CommitTip)
parse_branches [] tips = some tips
parse_branches (branch ∷ branches) tips = do
  read ← parse_branch branch tips
  parse_branches branches read

unfoldable pub parse_discovery : Option Json → Option BranchDiscovery
parse_discovery value = do
  guard (is_object value)
  default_branch ← as_string (field value (codes "defaultBranch"))
  branches ← as_array (field value (codes "branches"))
  tips ← parse_branches branches []
  some (record { default_branch = default_branch; branches = tips })

unfoldable pub parse_diagnostic : Option Json → Option TombstoneDiagnostic
parse_diagnostic value = do
  guard (is_object value)
  id ← as_string (field value (codes "id"))
  failure_class ← as_string (field value (codes "failureClass"))
  message ← as_string (field value (codes "message"))
  some (record { id = id; failure_class = failure_class; message = message })

abbrev is_some : Option Text → Bool
is_some none = false
is_some (some s) = true

unfoldable pub valid_materialized_artifact : Json → Bool
valid_materialized_artifact value =
    is_object (some value)
    && is_some (as_string (field (some value) (codes "key")))
    && is_some (as_string (field (some value) (codes "sha256")))
    && is_some (as_string (field (some value) (codes "body")))

abbrev is_nonempty : List Json → Bool
is_nonempty [] = false
is_nonempty (v ∷ vs) = true

-- How a job ends, with the artifacts to upload.
pub data Outcome : Type 0 where
  ready_outcome : List Json → Outcome
  yanked_outcome : TombstoneDiagnostic → List Json → Outcome

abbrev pub uploads_of : Outcome → List Json
uploads_of (ready_outcome uploads) = uploads
uploads_of (yanked_outcome diagnostic uploads) = uploads

-- The two ends of `parseMaterializationOutcome`.
abbrev outcome_of : Text → Option TombstoneDiagnostic → List Json → Option Outcome
outcome_of state diagnostic uploads =
    if state == codes "ready" then some (ready_outcome uploads) else elim diagnostic [
      | none ↦ none
      | some d ↦ if state == codes "yanked" then some (yanked_outcome d uploads) else none
    ]

unfoldable pub parse_materialization_outcome : Option Json → Option Outcome
unfolding valid_materialized_artifact
parse_materialization_outcome value = do
  guard (is_object value)
  uploads ← as_array (field value (codes "uploads"))
  guard (
      is_nonempty uploads && not (any (λ upload. not (valid_materialized_artifact upload)) uploads))
  state ← as_string (field value (codes "state"))
  outcome_of state (parse_diagnostic (field value (codes "diagnostic"))) uploads

unfoldable pub trim_start : Text → Text
trim_start [] = []
trim_start (c ∷ s) = let rest = trim_start s in if is_space c then rest else c ∷ s

unfoldable pub trim_end : Text → Text
trim_end [] = []
trim_end (c ∷ s) = let rest = trim_end s in if is_space c && (rest == []) then [] else c ∷ rest

-- `reason.trim()`
unfoldable pub trim : Text → Text
unfolding trim_start trim_end
trim s = trim_end (trim_start s)

pub record RecoveryRequest : Type 0 where
  pub version : Text
  pub reason : Text
  pub recovered_at : ℕ

-- The body of a recovery, if it is valid; the reason is given as it was sent.
unfoldable pub parse_recovery : Option Json → Option RecoveryRequest
unfolding trim
parse_recovery body = do
  version ← as_string (field body (codes "version"))
  reason ← as_string (field body (codes "reason"))
  guard (not (trim reason == []) && leb (length reason) 1_000)
  recovered_at ← as_safe (field body (codes "recoveredAt"))
  some (record { version = version; reason = reason; recovered_at = recovered_at })

-- A text that is not empty.
abbrev nonempty : Option Json → Option Text
nonempty value = do s ← as_string value; guard (not (s == [])); some s

pub record MaterializationRequest : Type 0 where
  pub owner : Text
  pub repository : Text
  pub pat : Text
  pub status_url : Text

unfoldable pub parse_materialization : Option Json → Option MaterializationRequest
parse_materialization body = do
  owner ← nonempty (field body (codes "owner"))
  repository ← nonempty (field body (codes "repository"))
  pat ← nonempty (field body (codes "pat"))
  status_url ← nonempty (field body (codes "statusUrl"))
  some (record { owner = owner; repository = repository; pat = pat; status_url = status_url })

-- `body.version` and `body.state === "ready"`, where that is "ready" or "yanked".
unfoldable pub parse_completion : Option Json → Option (Text × Bool)
parse_completion body = do
  version ← as_string (field body (codes "version"))
  state ← as_string (field body (codes "state"))
  guard ((state == codes "ready") || (state == codes "yanked"))
  some (version, state == codes "ready")
