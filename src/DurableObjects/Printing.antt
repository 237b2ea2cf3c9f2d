-- ===== src/DurableObjects/Printing.antt =====
-- The JSON of the responses of src/durable-objects.ts, and the texts of its errors.
use jsrproxy.Common.{
  ℕ, ◌/◌, ◌%◌, Option, none, some, List, [], ◌∷◌, ◌++◌, Text, codes, map, ◌==◌, nat_eq,
  if◌then◌else◌, Error, invalid_major, empty_commit_sha, invalid_commit_timestamp,
  missing_assignment, no_existing_assignment, invalid_attempt, invalid_assignment_version,
  duplicate_assignment, default_branch_missing, duplicate_version, cannot_recover, unknown_version,
  not_leased, cannot_transition, invalid_json, invalid_scope, unknown_scope_type, invalid_owner,
  invalid_trusted_users, property_of_null, fetch_failed, bad_uri, call_rejected, identity_mismatch,
  not_initialized, sqlite_required,
}
use jsrproxy.Common.Json.{Json, bool, num, str, arr, obj, whole, other, of_list, of_entries}
use jsrproxy.Auth.{GitHubDecision}
use jsrproxy.PackageRegistry.Records.{
  PackageName, TombstoneDiagnostic, MaterializationJob, RecoveryAudit, MetaVersion, PackageMeta,
  state_text,
}

abbrev pub object : List (Text × Json) → Json
object members = obj (of_entries members)

abbrev pub array : List Json → Json
array values = arr (of_list values)

-- A member that is left out if its value is `undefined`.
abbrev pub optional : Text → Option Json → List (Text × Json)
optional name none = []
optional name (some value) = (name, value) ∷ []

abbrev pub decision_json : GitHubDecision → Json
decision_json decision = object (
    (codes "granted", bool decision.granted)
    ∷ (codes "expiresAt", num (whole decision.expires_at))
    ∷ [])

-- A number of milliseconds as seconds.
abbrev pub seconds_json : ℕ → Json
seconds_json ms = if ms % 1_000 == 0 then num (whole (ms / 1_000)) else num other

abbrev pub seconds_member : Option ℕ → Option Json
seconds_member none = none
seconds_member (some ms) = some (seconds_json ms)

-- A result of the kind "unavailable".
abbrev pub unavailable_json : Option ℕ → Json
unavailable_json retry_after = object (
    (codes "kind", str (codes "unavailable"))
    ∷ optional (codes "retryAfterSeconds") (seconds_member retry_after))

abbrev pub diagnostic_json : TombstoneDiagnostic → Json
diagnostic_json diagnostic = object (
    (codes "id", str diagnostic.id)
    ∷ (codes "failureClass", str diagnostic.failure_class)
    ∷ (codes "message", str diagnostic.message)
    ∷ [])

abbrev pub diagnostic_member : Option TombstoneDiagnostic → Option Json
diagnostic_member none = none
diagnostic_member (some diagnostic) = some (diagnostic_json diagnostic)

abbrev pub number_member : Option ℕ → Option Json
number_member none = none
number_member (some n) = some (num (whole n))

abbrev pub job_json : MaterializationJob → Json
job_json job = object (
    (codes "branch", str job.branch)
    ∷ (codes "commitSha", str job.commit_sha)
    ∷ (codes "major", num (whole job.major))
    ∷ (codes "version", str job.version)
    ∷ (codes "state", str (state_text job.state))
    ∷ (optional (codes "leasedAt") (number_member job.leased_at)
        ++ optional (codes "diagnostic") (diagnostic_member job.diagnostic)))

abbrev pub jobs_json : List MaterializationJob → Json
jobs_json jobs = array (map (λ job. job_json job) jobs)

abbrev pub recovery_json : RecoveryAudit → Json
recovery_json recovery = object (
    (codes "originalVersion", str recovery.original_version)
    ∷ (codes "replacementVersion", str recovery.replacement_version)
    ∷ (codes "reason", str recovery.reason)
    ∷ (codes "recoveredAt", num (whole recovery.recovered_at))
    ∷ [])

abbrev pub recoveries_json : List RecoveryAudit → Json
recoveries_json recoveries = array (map (λ recovery. recovery_json recovery) recoveries)

abbrev pub version_member : Text × MetaVersion → Text × Json
version_member (version, listed) = (version, object ((codes "yanked", bool listed.yanked) ∷ []))

abbrev pub meta_json : PackageMeta → Json
meta_json meta = object (
    (codes "scope", str meta.scope)
    ∷ (codes "name", str meta.name)
    ∷ (codes "versions", object (map (λ entry. version_member entry) meta.versions))
    ∷ [])

abbrev pub package_json : PackageName → Json
package_json name = object ((codes "scope", str name.scope) ∷ (codes "name", str name.name) ∷ [])

-- `error.message`. The engine's own errors have the text `native`.
unfoldable pub message : Text → Error → Text
message native invalid_major = codes "major must be a non-negative safe integer"
message native empty_commit_sha = codes "commit SHA must not be empty"
message native invalid_commit_timestamp =
    codes "commit timestamp must be a non-negative whole Unix second"
message native no_existing_assignment =
    codes "cannot recover a commit without an existing assignment"
message native invalid_attempt = codes "assignment attempt must be a non-negative safe integer"
message native (invalid_assignment_version version) =
    codes "assignment has an invalid version: " ++ version
message native (duplicate_assignment version) = codes "duplicate assignment: " ++ version
message native (default_branch_missing branch) =
    codes "default branch " ++ (branch ++ codes " was not returned by GitHub")
message native (duplicate_version version) = codes "duplicate version: " ++ version
message native (cannot_recover version) =
    codes "version " ++ (version ++ codes " cannot be recovered")
message native (unknown_version version) = codes "unknown version: " ++ version
message native (not_leased version) = codes "version " ++ (version ++ codes " is not leased")
message native (cannot_transition version state) =
    codes "version " ++ (version ++ (codes " cannot transition from " ++ state))
message native invalid_json = codes "JSRPROXY_CONFIG must contain valid JSON"
message native (invalid_scope scope) = codes "invalid configured scope: " ++ scope
message native (unknown_scope_type scope) =
    codes "scope @" ++ (scope ++ codes " must have type github")
message native (invalid_owner scope) =
    codes "scope @" ++ (scope ++ codes " has an invalid GitHub owner")
message native invalid_trusted_users =
    codes "trusted_github_users must be an array of non-empty strings"
message native identity_mismatch = codes "package identity does not match Durable Object state"
message native not_initialized = codes "package state has not been initialized"
message native sqlite_required = codes "package Durable Object requires SQLite storage"
message native missing_assignment = native
message native property_of_null = native
message native fetch_failed = native
message native bad_uri = native
message native call_rejected = native
