-- ===== src/PackageRegistry/Records.antt =====
-- The records of src/package-registry.ts.
use jsrproxy.Common.{ℕ, Bool, true, false, Option, List, Text, codes}
use jsrproxy.Common.Map.{Map}
use jsrproxy.Branches.{BranchState}
use jsrproxy.VersionAllocator.{VersionAssignment, VersionAllocatorSnapshot, VersionAllocator}

pub record PackageName : Type 0 where
  pub scope : Text
  pub name : Text

pub record TombstoneDiagnostic : Type 0 where
  pub id : Text
  pub failure_class : Text
  pub message : Text

pub data State : Type 0 where
  pending leased ready yanked : State

-- The state as a string of the source.
abbrev pub state_text : State → Text
state_text pending = codes "pending"
state_text leased = codes "leased"
state_text ready = codes "ready"
state_text yanked = codes "yanked"

pub record MaterializationJob : Type 0 where
  pub branch : Text
  pub commit_sha : Text
  pub major : ℕ
  pub version : Text
  pub state : State
  pub leased_at : Option ℕ
  pub diagnostic : Option TombstoneDiagnostic

pub record RecoveryAudit : Type 0 where
  pub original_version : Text
  pub replacement_version : Text
  pub reason : Text
  pub recovered_at : ℕ

-- A job and the assignment that it is for; `VersionSnapshot` has the same fields.
pub record VersionRecord : Type 0 where
  pub job : MaterializationJob
  pub open job use *
  pub assignment : VersionAssignment

pub record PackageRegistrySnapshot : Type 0 where
  pub name : PackageName
  pub branches : BranchState
  pub allocator : VersionAllocatorSnapshot
  pub versions : List VersionRecord
  pub recoveries : Option (List RecoveryAudit)

pub record MetaVersion : Type 0 where
  pub yanked : Bool

pub record PackageMeta : Type 0 where
  pub scope : Text
  pub name : Text
  pub versions : Map Text MetaVersion

pub record PackageRegistry : Type 0 where
  pub allocator : VersionAllocator
  pub versions : Map Text VersionRecord
  pub recoveries : List RecoveryAudit
  pub name : PackageName
  pub branches : BranchState

abbrev pub materialization_lease_timeout_ms : ℕ
materialization_lease_timeout_ms = 120_000

-- `state === "pending"` and so on.
abbrev pub is_pending : State → Bool
is_pending pending = true
is_pending _ = false

abbrev pub is_leased : State → Bool
is_leased leased = true
is_leased _ = false

abbrev pub is_ready : State → Bool
is_ready ready = true
is_ready _ = false

abbrev pub is_yanked : State → Bool
is_yanked yanked = true
is_yanked _ = false
