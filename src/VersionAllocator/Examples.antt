-- ===== src/VersionAllocator/Examples.antt =====
-- The laws of src/version-allocator.ts at an allocator that has assigned one commit.
use jsrproxy.Common.{
  ℕ, ◌+◌, ◌≤◌, ◌<◌, ◌≡◌, ◌≢◌, ◌⊎◌, refl, inr, arith, Option, none, some, List, [], ◌∷◌, ◌++◌, Text,
  codes, Result, ok, err, max_safe_integer, no_existing_assignment, length, text_eq, nat_eq,
}
use jsrproxy.Common.Decimal.{decimal}
use jsrproxy.Common.Map.{get, set}
use jsrproxy.VersionAllocator.{
  VersionAssignment, VersionAllocator, new_allocator, key, version_text, validate_inputs, for_major,
  after_high_water, appended, append, allocate, recover,
}
use jsrproxy.VersionAllocator.Keys.{key_inj, version_text_inj}
use jsrproxy.VersionAllocator.View.{allocations_of, IsValid, new_allocator-IsValid, AreInputs}
use jsrproxy.VersionAllocator.Assignments.{current_of, assignment_of}
use jsrproxy.VersionAllocator.Laws.{
  Overwrites, allocate-IsValid, allocate-assignment_of, recover-assignment_of, allocate-fresh,
  recover-fresh,
}
use jsrproxy.VersionAllocator.Total.{allocate_assigned, allocate_total, recover_total}
use jsrproxy.VersionAllocator.Runs.{Call, allocates, recovers, IsSound, run, run-IsValid}

key_inj_example : (codes "ab" ≡ codes "ab") × (◌≡◌ {A = ℕ} 3 3)
key_inj_example = key_inj (codes "ab") (codes "ab") 3 3 refl

version_text_inj_example : (◌≡◌ {A = ℕ} 2 2) × (◌≡◌ {A = ℕ} 100 100)
version_text_inj_example = version_text_inj 2 2 100 100 refl

abbrev one : VersionAssignment
one = record {
  major = 2;
  sequence = 100;
  attempt = 0;
  commit_sha = codes "ab";
  version = codes "2.1.100";
}

abbrev allocator_one : VersionAllocator
allocator_one = record {
  majors =
      (
        2,
        record {
          high_water = some 100;
          assignments = (codes "ab" ++ 0 ∷ codes "0", one) ∷ [];
          current_attempts = (codes "ab", 0) ∷ [];
        },
      )
      ∷ [];
}

allocated_one : allocate new_allocator 2 (codes "ab") 100 ≡ ok (one, allocator_one)
unfolding allocate validate_inputs for_major append appended after_high_water key version_text
    decimal get set jsrproxy.Common.text_beq
allocated_one = refl

allocator_one-IsValid : IsValid allocator_one
allocator_one-IsValid =
    allocate-IsValid new_allocator 2 (codes "ab") 100 one allocator_one new_allocator-IsValid
      allocated_one (omega arith)

AreInputs-50 : AreInputs 2 (codes "ab") 50
AreInputs-50 = record {
  major_safe = omega arith;
  sha_nonempty = λ e. cc;
  committed_at_safe = omega arith;
}

one-assigned : assignment_of allocator_one 2 (codes "ab") ≡ some one
unfolding assignment_of current_of allocations_of get key decimal jsrproxy.Common.text_beq
one-assigned = refl

allocate_assigned_example : allocate allocator_one 2 (codes "ab") 50 ≡ ok (one, allocator_one)
allocate_assigned_example =
    allocate_assigned allocator_one 2 (codes "ab") 50 one AreInputs-50 one-assigned

allocate_total_example :
    (result : VersionAssignment × VersionAllocator) × (allocate allocator_one 2 (codes "ab") 50
      ≡ ok result)
allocate_total_example =
    allocate_total allocator_one 2 (codes "ab") 50 allocator_one-IsValid AreInputs-50

recover_total_example :
    ((assignment_of allocator_one 2 (codes "ab") ≡ none)
      × (recover allocator_one 2 (codes "ab") 50 ≡ err no_existing_assignment))
    ⊎ ((old : VersionAssignment) × (result : VersionAssignment × VersionAllocator) × (assignment_of
            allocator_one 2
            (codes "ab")
          ≡ some old)
        × (recover allocator_one 2 (codes "ab") 50 ≡ ok result))
recover_total_example =
    recover_total allocator_one 2 (codes "ab") 50 allocator_one-IsValid AreInputs-50

-- The commit of `one` again, after a recovery.
abbrev two : VersionAssignment
two = record {
  major = 2;
  sequence = 101;
  attempt = 1;
  commit_sha = codes "ab";
  version = codes "2.1.101";
}

abbrev allocator_two : VersionAllocator
allocator_two = record {
  majors =
      (
        2,
        record {
          high_water = some 101;
          assignments =
              (codes "ab" ++ 0 ∷ codes "0", one) ∷ (codes "ab" ++ 0 ∷ codes "1", two) ∷ [];
          current_attempts = (codes "ab", 1) ∷ [];
        },
      )
      ∷ [];
}

recovered_two : recover allocator_one 2 (codes "ab") 100 ≡ ok (two, allocator_two)
unfolding recover validate_inputs for_major append appended after_high_water key version_text
    decimal get set jsrproxy.Common.text_beq
recovered_two = refl

-- Another commit of the same major, with an older timestamp.
abbrev other : VersionAssignment
other = record {
  major = 2;
  sequence = 101;
  attempt = 0;
  commit_sha = codes "cd";
  version = codes "2.1.101";
}

abbrev allocator_other : VersionAllocator
allocator_other = record {
  majors =
      (
        2,
        record {
          high_water = some 101;
          assignments =
              (codes "ab" ++ 0 ∷ codes "0", one) ∷ (codes "cd" ++ 0 ∷ codes "0", other) ∷ [];
          current_attempts = (codes "ab", 0) ∷ (codes "cd", 0) ∷ [];
        },
      )
      ∷ [];
}

allocated_other : allocate allocator_one 2 (codes "cd") 40 ≡ ok (other, allocator_other)
unfolding allocate validate_inputs for_major append appended after_high_water key version_text
    decimal get set jsrproxy.Common.text_beq
allocated_other = refl

other-unassigned : assignment_of allocator_one 2 (codes "cd") ≡ none
unfolding assignment_of current_of allocations_of get key decimal jsrproxy.Common.text_beq
other-unassigned = refl

one-held : get (allocations_of allocator_one 2).assignments (codes "ab" ++ 0 ∷ codes "0") ≡ some one
unfolding allocations_of get jsrproxy.Common.text_beq
one-held = refl

allocate-assignment_of_example :
    Overwrites allocator_one 2 (codes "cd") other allocator_other
    × ((assignment_of allocator_one 2 (codes "cd") ≡ none)
        ⊎ (assignment_of allocator_one 2 (codes "cd") ≡ some other))
allocate-assignment_of_example =
    allocate-assignment_of allocator_one 2 (codes "cd") 40 other allocator_other
      allocator_one-IsValid allocated_other

recover-assignment_of_example :
    Overwrites allocator_one 2 (codes "ab") two allocator_two
    × ((old : VersionAssignment) × (assignment_of allocator_one 2 (codes "ab") ≡ some old)
        × (old.sequence < 101))
recover-assignment_of_example =
    recover-assignment_of allocator_one 2 (codes "ab") 100 two allocator_two allocator_one-IsValid
      recovered_two

allocate-fresh_example : (codes "2.1.100" ≢ codes "2.1.101") × (40 ≤ 101)
allocate-fresh_example =
    allocate-fresh allocator_one 2 (codes "cd") 40 other allocator_other allocator_one-IsValid
      allocated_other other-unassigned 2 (codes "ab" ++ 0 ∷ codes "0") one one-held

recover-fresh_example : (codes "2.1.100" ≢ codes "2.1.101") × (100 ≤ 101)
recover-fresh_example =
    recover-fresh allocator_one 2 (codes "ab") 100 two allocator_two allocator_one-IsValid
      recovered_two 2 (codes "ab" ++ 0 ∷ codes "0") one one-held

abbrev calls : List Call
calls = allocates 2 (codes "ab") 100 ∷ recovers 2 (codes "ab") 100 ∷ []

run-IsValid_example : IsSound (100 + length calls) (run new_allocator calls)
run-IsValid_example = run-IsValid 100 calls (omega arith, (omega arith, tt)) (omega arith)
