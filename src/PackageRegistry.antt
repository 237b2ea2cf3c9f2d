-- ===== src/PackageRegistry.antt =====
-- src/package-registry.ts: the state machine of one synthetic package. A method that throws leaves
-- its registry to be dropped: each caller has it from storage anew and saves it only on return.
pub mod Records
pub mod Consistency
pub mod Refresh
pub mod RefreshLoop
pub mod Refreshing
pub mod Changes
pub mod Methods
pub mod Leases
pub mod Recovery
pub mod History
pub mod Meta
pub mod Exclusion
pub mod RoundTrip
pub mod Stored
mod Examples
use jsrproxy.Common.{
  ℕ, ◌+◌, Bool, true, false, not, ◌&&◌, ◌||◌, Option, none, some, List, [], ◌∷◌, ◌++◌, Text, map,
  Result, ok, err, Error, duplicate_version, cannot_recover, unknown_version, not_leased,
  cannot_transition, leb, ltb, if◌then◌else◌, ◌==◌, sort_by, filter, head?, or_throw, require,
  ◌>>=◌, ◌>>◌, text_eq, nat_eq,
}
use jsrproxy.Common.Map.{Map, get, has, set, values}
use jsrproxy.Branches.{
  CommitTip, BranchDiscovery, BranchState, SelectedBranch, BranchSelection, select_branches,
}
use jsrproxy.VersionAllocator.{
  VersionAssignment, VersionAllocator, new_allocator, allocate, recover,
  snapshot as allocator_snapshot, from_snapshot as allocator_from_snapshot,
}
use Records.{
  PackageName, TombstoneDiagnostic, State, pending, leased, ready, yanked, MaterializationJob,
  RecoveryAudit, VersionRecord, PackageRegistrySnapshot, MetaVersion, PackageMeta, PackageRegistry,
  materialization_lease_timeout_ms, is_pending, is_leased, is_ready, is_yanked, state_text,
}

-- `new PackageRegistry(name)`
abbrev pub new_registry : PackageName → PackageRegistry
new_registry name = record {
  allocator = new_allocator;
  versions = [];
  recoveries = [];
  name = name;
  branches = record { highest_observed_release_major = none };
}

-- `copyJob`: the fields of the job, without the assignment.
abbrev pub copy_job : VersionRecord → MaterializationJob
copy_job version_record = version_record.job

-- The record of a new assignment, as `refresh` and `recoverVersion` make it.
abbrev pub pending_record : VersionAssignment → Text → Text → ℕ → VersionRecord
pending_record assignment branch commit_sha major = record {
  job = record {
    branch = branch;
    commit_sha = commit_sha;
    major = major;
    version = assignment.version;
    state = pending;
    leased_at = none;
    diagnostic = none;
  };
  assignment = assignment;
}

abbrev pub Refreshed : Type 0
Refreshed = PackageRegistry × List MaterializationJob

-- One round of the loop of `refresh`, when the branch has its assignment.
unfoldable pub enter : SelectedBranch → VersionAssignment → VersionAllocator → Refreshed → Refreshed
enter branch assignment allocator (registry, created) =
    elim (get registry.versions assignment.version) [
      | some existing ↦ (record registry { allocator = allocator }, created)
      | none ↦
          let version_record =
            pending_record assignment branch.branch branch.tip.sha branch.major in
          (
            record registry {
              allocator = allocator;
              versions = set registry.versions version_record.version version_record;
            },
            created ++ copy_job version_record ∷ [],
          )
    ]

unfoldable pub refresh_branches : List SelectedBranch → Refreshed → Result Refreshed
refresh_branches [] refreshed = ok refreshed
refresh_branches (branch ∷ rest) refreshed = do
  (assignment, allocator) ←
      allocate refreshed.0.allocator branch.major branch.tip.sha branch.tip.committed_at
  refresh_branches rest (enter branch assignment allocator refreshed)

unfoldable pub refresh : PackageRegistry → BranchDiscovery → Result Refreshed
refresh registry discovery = do
  selection ← select_branches discovery registry.branches
  refresh_branches selection.branches (record registry { branches = selection.state }, [])

unfoldable pub recover_version :
    PackageRegistry → Text → Text → ℕ → Result (PackageRegistry × MaterializationJob)
recover_version registry version reason recovered_at = do
  version_record ← or_throw (get registry.versions version) (cannot_recover version)
  require (is_ready version_record.state || is_yanked version_record.state) (cannot_recover version)
  (assignment, allocator) ←
      recover registry.allocator version_record.major version_record.commit_sha
        version_record.assignment.sequence
  let replacement =
      pending_record assignment version_record.branch version_record.commit_sha version_record.major
  ok (
    record registry {
      allocator = allocator;
      versions = set registry.versions replacement.version replacement;
      recoveries =
          registry.recoveries
          ++ record {
            original_version = version;
            replacement_version = replacement.version;
            reason = reason;
            recovered_at = recovered_at;
          }
            ∷ [];
    },
    copy_job replacement,
  )

-- `#requirePending`
unfoldable pub require_pending : PackageRegistry → Text → Result VersionRecord
require_pending registry version = do
  version_record ← or_throw (get registry.versions version) (unknown_version version)
  require (is_pending version_record.state || is_leased version_record.state)
      (cannot_transition version (state_text version_record.state))
  ok version_record

-- A write to the fields of the record that the map holds under `version`.
abbrev pub write : PackageRegistry → Text → VersionRecord → PackageRegistry
write registry version version_record = record registry {
  versions = set registry.versions version version_record;
}

abbrev pub with_state : VersionRecord → State → Option ℕ → VersionRecord
with_state version_record state leased_at = record version_record {
  job = record version_record.job { state = state; leased_at = leased_at };
}

unfoldable pub mark_ready : PackageRegistry → Text → Result PackageRegistry
unfolding require_pending
mark_ready registry version = do
  version_record ← require_pending registry version
  ok (write registry version (with_state version_record ready none))

abbrev pub with_diagnostic : VersionRecord → TombstoneDiagnostic → VersionRecord
with_diagnostic version_record diagnostic = record version_record {
  job = record version_record.job { diagnostic = some diagnostic };
}

unfoldable pub mark_yanked : PackageRegistry → Text → TombstoneDiagnostic → Result PackageRegistry
unfolding require_pending
mark_yanked registry version diagnostic = do
  version_record ← require_pending registry version
  ok (write registry version (with_diagnostic (with_state version_record yanked none) diagnostic))

-- A job that may be leased: pending, or leased for as long as the timeout.
unfoldable pub is_available : ℕ → VersionRecord → Bool
is_available now candidate =
    is_pending candidate.state
    || (is_leased candidate.state && elim candidate.leased_at [
      | none ↦ true
      | some leased_at ↦ leb (leased_at + materialization_lease_timeout_ms) now
    ])

-- `le` is `left.localeCompare(right) <= 0`.
unfoldable pub next_job : (Text → Text → Bool) → PackageRegistry → ℕ → Option VersionRecord
unfolding is_available
next_job le registry now = head? (
    sort_by (λ left right. le left.version right.version)
      (filter (is_available now) (values registry.versions)))

unfoldable pub lease_next :
    (Text → Text → Bool) → PackageRegistry → ℕ → PackageRegistry × Option MaterializationJob
lease_next le registry now = elim (next_job le registry now) [
  | none ↦ (registry, none)
  | some version_record ↦
      let taken = with_state version_record leased (some now) in
      (write registry version_record.version taken, some (copy_job taken))
]

unfoldable pub release_lease : PackageRegistry → Text → Result PackageRegistry
release_lease registry version = do
  version_record ← or_throw (get registry.versions version) (unknown_version version)
  require (is_leased version_record.state) (not_leased version)
  ok (write registry version (with_state version_record pending none))

-- The loop of `meta` over the records.
unfoldable pub meta_versions : List VersionRecord → Map Text MetaVersion → Map Text MetaVersion
meta_versions [] versions = versions
meta_versions (version_record ∷ rest) versions = meta_versions rest (
    if is_ready version_record.state || is_yanked version_record.state
    then set versions version_record.version (record { yanked = is_yanked version_record.state })
    else versions)

unfoldable pub meta : PackageRegistry → PackageMeta
meta registry = record {
  scope = registry.name.scope;
  name = registry.name.name;
  versions = meta_versions (values registry.versions) [];
}

unfoldable pub jobs : PackageRegistry → List MaterializationJob
jobs registry = map copy_job (values registry.versions)

unfoldable pub restore_versions :
    List VersionRecord → Map Text VersionRecord → Result (Map Text VersionRecord)
restore_versions [] versions = ok versions
restore_versions (version ∷ rest) versions = do
  require (not (has versions version.version)) (duplicate_version version.version)
  restore_versions rest (set versions version.version version)

unfoldable pub from_snapshot : PackageRegistrySnapshot → Result PackageRegistry
from_snapshot stored = do
  allocator ← allocator_from_snapshot stored.allocator
  versions ← restore_versions stored.versions []
  ok (record {
    allocator = allocator;
    versions = versions;
    recoveries = elim stored.recoveries [ none ↦ [] | some recoveries ↦ recoveries ];
    name = stored.name;
    branches = stored.branches;
  })

unfoldable pub snapshot : (Text → Text → Bool) → PackageRegistry → PackageRegistrySnapshot
snapshot le registry = record {
  name = registry.name;
  branches = registry.branches;
  allocator = allocator_snapshot le registry.allocator;
  versions = values registry.versions;
  recoveries = some registry.recoveries;
}
