-- ===== src/VersionAllocator.antt =====
-- src/version-allocator.ts: which version a commit has under a major.
pub mod Keys
pub mod Ledger
pub mod Append
pub mod View
pub mod Calls
pub mod Assignments
pub mod Laws
pub mod Entries
pub mod Total
pub mod Rises
pub mod Runs
pub mod Keyed
pub mod Restore
pub mod Restored
pub mod Attained
pub mod RoundTrip
mod Examples
use jsrproxy.Common.{
  ℕ, zero, suc, ◌+◌, Bool, true, false, not, ◌&&◌, Option, none, some, List, [], ◌∷◌, ◌++◌, Text,
  codes, Result, ok, err, Error, invalid_major, empty_commit_sha, invalid_commit_timestamp,
  missing_assignment, no_existing_assignment, invalid_attempt, invalid_assignment_version,
  duplicate_assignment, leb, ltb, if◌then◌else◌, ◌==◌, sort_by, or_throw, require, ◌>>=◌, ◌>>◌,
  max_safe_integer, max, text_eq, nat_eq, flat_map,
}
use jsrproxy.Common.Decimal.{decimal}
use jsrproxy.Common.Map.{Map, get, has, set, values}

pub record VersionAssignment : Type 0 where
  pub major : ℕ
  pub sequence : ℕ
  pub attempt : ℕ
  pub commit_sha : Text
  pub version : Text

pub record VersionAllocatorSnapshot : Type 0 where
  pub assignments : List VersionAssignment

-- `high_water` is `none` for the -1 of a major with no assignment.
pub record MajorAllocations : Type 0 where
  pub high_water : Option ℕ
  pub assignments : Map Text VersionAssignment
  pub current_attempts : Map Text ℕ

pub record VersionAllocator : Type 0 where
  pub majors : Map ℕ MajorAllocations

abbrev pub no_allocations : MajorAllocations
no_allocations = record { high_water = none; assignments = []; current_attempts = [] }

abbrev pub new_allocator : VersionAllocator
new_allocator = record { majors = [] }

-- `${commitSha}\u0000${attempt}`
unfoldable pub key : Text → ℕ → Text
key commit_sha attempt = commit_sha ++ 0 ∷ decimal attempt

-- `${major}.1.${sequence}`
unfoldable pub version_text : ℕ → ℕ → Text
version_text major sequence = decimal major ++ (codes ".1." ++ decimal sequence)

-- The numbers are whole and not negative, so of each test the upper bound is left.
unfoldable pub validate_inputs : ℕ → Text → ℕ → Result (Unit {0})
validate_inputs major commit_sha committed_at = do
  require (leb major max_safe_integer) invalid_major
  require (not (commit_sha == [])) empty_commit_sha
  require (leb committed_at max_safe_integer) invalid_commit_timestamp

-- `#forMajor`: the allocations of a major, which are entered if they are missing.
unfoldable pub for_major : VersionAllocator → ℕ → MajorAllocations × VersionAllocator
for_major allocator major = elim (get allocator.majors major) [
  | some allocations ↦ (allocations, allocator)
  | none ↦ (no_allocations, record { majors = set allocator.majors major no_allocations })
]

-- `n + 1` on the doubles from 0 to 2 ^ 53, where the sum at the end is rounded back.
unfoldable pub add_one : ℕ → ℕ
add_one n = if leb n max_safe_integer then n + 1 else n

-- `highWater + 1`
unfoldable pub after_high_water : Option ℕ → ℕ
unfolding add_one
after_high_water none = 0
after_high_water (some high_water) = add_one high_water

-- The allocations object that `#append` leaves, and the assignment that it returns.
unfoldable pub appended : MajorAllocations → ℕ → Text → ℕ → ℕ → VersionAssignment × MajorAllocations
unfolding after_high_water
appended allocations major commit_sha committed_at attempt =
    let sequence = max committed_at (after_high_water allocations.high_water) in
    let assignment : VersionAssignment = record {
      major = major;
      sequence = sequence;
      attempt = attempt;
      commit_sha = commit_sha;
      version = version_text major sequence;
    } in
    (
      assignment,
      record {
        high_water = some sequence;
        assignments = set allocations.assignments (key commit_sha attempt) assignment;
        current_attempts = set allocations.current_attempts commit_sha attempt;
      },
    )

-- `#append`, which writes to the allocations object that `#majors` holds.
unfoldable pub append :
    VersionAllocator → MajorAllocations → ℕ → Text → ℕ → ℕ → VersionAssignment × VersionAllocator
append allocator allocations major commit_sha committed_at attempt =
    let (assignment, written) = appended allocations major commit_sha committed_at attempt in
    (assignment, record { majors = set allocator.majors major written })

unfoldable pub allocate :
    VersionAllocator → ℕ → Text → ℕ → Result (VersionAssignment × VersionAllocator)
allocate allocator major commit_sha committed_at = do
  validate_inputs major commit_sha committed_at
  let (allocations, entered) = for_major allocator major
  elim (get allocations.current_attempts commit_sha) [
    | some attempt ↦ do
      assignment ←
          or_throw (get allocations.assignments (key commit_sha attempt)) missing_assignment
      ok (assignment, entered)
    | none ↦ ok (append entered allocations major commit_sha committed_at 0)
  ]

unfoldable pub recover :
    VersionAllocator → ℕ → Text → ℕ → Result (VersionAssignment × VersionAllocator)
recover allocator major commit_sha committed_at = do
  validate_inputs major commit_sha committed_at
  let (allocations, entered) = for_major allocator major
  current ← or_throw (get allocations.current_attempts commit_sha) no_existing_assignment
  ok (append entered allocations major commit_sha committed_at (current + 1))

-- `le` is `left.localeCompare(right) <= 0`.
unfoldable pub snapshot : (Text → Text → Bool) → VersionAllocator → VersionAllocatorSnapshot
snapshot le allocator = record {
  assignments =
      sort_by (λ left right. le left.version right.version)
        (flat_map (λ allocations. values allocations.assignments) (values allocator.majors));
}

-- The allocations object after one round of the loop of `fromSnapshot`.
unfoldable pub restored : MajorAllocations → VersionAssignment → MajorAllocations
restored allocations assignment = record {
  high_water = some (elim allocations.high_water [
    | none ↦ assignment.sequence
    | some high_water ↦ max high_water assignment.sequence
  ]);
  assignments =
      set allocations.assignments (key assignment.commit_sha assignment.attempt) assignment;
  current_attempts = elim (get allocations.current_attempts assignment.commit_sha) [
    | none ↦ set allocations.current_attempts assignment.commit_sha assignment.attempt
    | some current_attempt ↦
        if ltb current_attempt assignment.attempt
        then set allocations.current_attempts assignment.commit_sha assignment.attempt
        else allocations.current_attempts
  ];
}

unfoldable pub restore : VersionAllocator → VersionAssignment → Result VersionAllocator
unfolding restored
restore allocator assignment = do
  validate_inputs assignment.major assignment.commit_sha assignment.sequence
  require (leb assignment.attempt max_safe_integer) invalid_attempt
  require (assignment.version == version_text assignment.major assignment.sequence)
      (invalid_assignment_version assignment.version)
  let (allocations, entered) = for_major allocator assignment.major
  require (not (has allocations.assignments (key assignment.commit_sha assignment.attempt)))
      (duplicate_assignment assignment.version)
  ok (record { majors = set entered.majors assignment.major (restored allocations assignment) })

unfoldable pub restore_all : VersionAllocator → List VersionAssignment → Result VersionAllocator
restore_all allocator [] = ok allocator
restore_all allocator (assignment ∷ rest) = do
  next ← restore allocator assignment
  restore_all next rest

unfoldable pub from_snapshot : VersionAllocatorSnapshot → Result VersionAllocator
from_snapshot stored = restore_all new_allocator stored.assignments
