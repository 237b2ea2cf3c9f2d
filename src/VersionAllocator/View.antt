-- ===== src/VersionAllocator/View.antt =====
-- The allocations of each major of src/version-allocator.ts, entered or not, and what the operations
-- do to them.
use jsrproxy.Common.{
  ℕ, ◌≤◌, ◌≡◌, ◌≢◌, ◌↔◌, none, some, [], Text, arith, if◌then◌else◌, max_safe_integer, text_eq,
  nat_eq, ◌==◌, text_beq_iff, ok,
}
use jsrproxy.Common.Map.{get, set, get-set}
use jsrproxy.VersionAllocator.{
  MajorAllocations, VersionAllocator, no_allocations, new_allocator, validate_inputs, for_major,
  appended, append,
}
use jsrproxy.VersionAllocator.Ledger.{IsLedger, no_allocations-IsLedger}

unfoldable pub allocations_of : VersionAllocator → ℕ → MajorAllocations
allocations_of allocator major = elim (get allocator.majors major) [
  | some allocations ↦ allocations
  | none ↦ no_allocations
]

pub for_major_found :
    (allocator : VersionAllocator) (major : ℕ)
    → (for_major allocator major).0 ≡ allocations_of allocator major
unfolding for_major allocations_of
for_major_found allocator major = ground arith

pub allocations_of-set :
    (allocator : VersionAllocator) (major other : ℕ) (written : MajorAllocations)
    → allocations_of (record { majors = set allocator.majors major written }) other
      ≡ (if major == other then written else allocations_of allocator other)
unfolding allocations_of
allocations_of-set allocator major other written =
    ground (arith, get-set allocator.majors major other written)

pub for_major_entered :
    (allocator : VersionAllocator) (major other : ℕ)
    → allocations_of (for_major allocator major).1 other ≡ allocations_of allocator other
unfolding for_major allocations_of
for_major_entered allocator major other =
    ground (arith, get-set allocator.majors major other no_allocations)

pub allocations_of-append :
    (allocator : VersionAllocator) (allocations : MajorAllocations) (major : ℕ) (commit_sha : Text)
    (committed_at attempt other : ℕ)
    → allocations_of (append allocator allocations major commit_sha committed_at attempt).1 other
      ≡ (if major == other
          then (appended allocations major commit_sha committed_at attempt).1
          else allocations_of allocator other)
unfolding append
allocations_of-append allocator allocations major commit_sha committed_at attempt other =
    allocations_of-set allocator major other
      (appended allocations major commit_sha committed_at attempt).1

-- Every major has a ledger.
pub record IsValid (allocator : VersionAllocator) : Type 0 where
  pub ledger : (major : ℕ) → IsLedger major (allocations_of allocator major)

pub new_allocator-IsValid : IsValid new_allocator
unfolding allocations_of get
new_allocator-IsValid = record { ledger = λ major. no_allocations-IsLedger major }

-- The inputs that `validateInputs` accepts.
pub record AreInputs (major : ℕ) (commit_sha : Text) (committed_at : ℕ) : Type 0 where
  pub major_safe : major ≤ max_safe_integer
  pub sha_nonempty : commit_sha ≢ []
  pub committed_at_safe : committed_at ≤ max_safe_integer

pub validate_inputs_iff :
    (major : ℕ) (commit_sha : Text) (committed_at : ℕ)
    → (validate_inputs major commit_sha committed_at ≡ ok tt)
      ↔ AreInputs major commit_sha committed_at
unfolding validate_inputs
validate_inputs_iff major commit_sha committed_at = (
  λ h. record {
    major_safe = ground arith;
    sha_nonempty = λ e. ground (arith, text_beq_iff commit_sha []);
    committed_at_safe = ground arith;
  },
  λ h.
      ground (arith, h.major_safe, h.committed_at_safe, h.sha_nonempty, text_beq_iff commit_sha []),
)
