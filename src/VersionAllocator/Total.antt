-- ===== src/VersionAllocator/Total.antt =====
-- When `allocate` and `recover` of src/version-allocator.ts return, and that a commit keeps its version.
use jsrproxy.Common.{
  ℕ, ◌+◌, ◌≡◌, refl, ◌∙◌, ◌⊎◌, inl, inr, none, some, Text, arith, text_eq, nat_eq, Option-cases, ok,
  err, no_existing_assignment,
}
use jsrproxy.Common.Map.{get}
use jsrproxy.VersionAllocator.{
  VersionAssignment, MajorAllocations, VersionAllocator, key, for_major, append, allocate, recover,
}
use jsrproxy.VersionAllocator.View.{
  allocations_of, IsValid, AreInputs, validate_inputs_iff, for_major_found,
}
use jsrproxy.VersionAllocator.Assignments.{current_of, current_of-some, assignment_of}

for_major_present :
    (allocator : VersionAllocator) (major : ℕ) (commit_sha : Text) (n : ℕ)
    → get (allocations_of allocator major).current_attempts commit_sha ≡ some n
    → for_major allocator major ≡ (allocations_of allocator major, allocator)
unfolding for_major allocations_of get
for_major_present allocator major commit_sha n h =
    elim (Option-cases (get allocator.majors major)) [
      | inl e ↦ ground (arith, e, h)
      | inr (al, e) ↦ rw (e, for_major, allocations_of) refl
    ]

pub current_of-inv :
    (allocations : MajorAllocations) (commit_sha : Text) (assignment : VersionAssignment)
    → current_of allocations commit_sha ≡ some assignment
    → (n : ℕ) × (get allocations.current_attempts commit_sha ≡ some n)
      × (get allocations.assignments (key commit_sha n) ≡ some assignment)
unfolding current_of
current_of-inv allocations commit_sha assignment h =
    elim (Option-cases (get allocations.current_attempts commit_sha)) [
      | inl e ↦ ground (arith, e, h)
      | inr (n, e) ↦ (n, e, ground (arith, e, h))
    ]

current_of-none :
    (allocations : MajorAllocations) (commit_sha : Text)
    → get allocations.current_attempts commit_sha ≡ none
    → current_of allocations commit_sha ≡ none
unfolding current_of
current_of-none allocations commit_sha e = ground (arith, e)

-- A commit that is assigned under a major keeps that assignment, whatever timestamp it comes with,
-- and the call writes nothing.
pub allocate_assigned :
    (allocator : VersionAllocator) (major : ℕ) (commit_sha : Text) (committed_at : ℕ)
    (assignment : VersionAssignment)
    → AreInputs major commit_sha committed_at
    → assignment_of allocator major commit_sha ≡ some assignment
    → allocate allocator major commit_sha committed_at ≡ ok (assignment, allocator)
unfolding allocate assignment_of
allocate_assigned allocator major commit_sha committed_at assignment inputs h =
    let (n, at_n, found) =
      current_of-inv (allocations_of allocator major) commit_sha assignment h in
    let present = for_major_present allocator major commit_sha n at_n in
    let at_n' : get (for_major allocator major).0.current_attempts commit_sha ≡ some n =
      rw present at_n in
    let found' : get (for_major allocator major).0.assignments (key commit_sha n)
        ≡ some assignment =
      rw present found in
    rw ((validate_inputs_iff major commit_sha committed_at).1 inputs, at_n', found', present)

-- On valid ledgers and inputs that `validateInputs` accepts, `allocate` returns: the assignment
-- behind its `!` is never missing.
pub allocate_total :
    (allocator : VersionAllocator) (major : ℕ) (commit_sha : Text) (committed_at : ℕ)
    → IsValid allocator
    → AreInputs major commit_sha committed_at
    → (result : VersionAssignment × VersionAllocator) × (allocate allocator major commit_sha
          committed_at
        ≡ ok result)
unfolding allocate
allocate_total allocator major commit_sha committed_at valid inputs =
    let accepted = (validate_inputs_iff major commit_sha committed_at).1 inputs in
    let same = for_major_found allocator major in
    elim (Option-cases (get (for_major allocator major).0.current_attempts commit_sha)) [
      | inl e ↦ (
        append (for_major allocator major).1 (for_major allocator major).0 major commit_sha
            committed_at 0,
        rw (accepted, e),
      )
      | inr (n, e) ↦
          let current = (valid.ledger major).currents commit_sha n (rw same at e) in
          let found : get (for_major allocator major).0.assignments (key commit_sha n)
              ≡ some current.assignment =
            rw same current.found in
          ((current.assignment, (for_major allocator major).1), rw (accepted, e, found))
    ]

-- On valid ledgers and inputs that `validateInputs` accepts, `recover` throws exactly if the
-- commit is not assigned: then that there is no existing assignment.
pub recover_total :
    (allocator : VersionAllocator) (major : ℕ) (commit_sha : Text) (committed_at : ℕ)
    → IsValid allocator
    → AreInputs major commit_sha committed_at
    → ((assignment_of allocator major commit_sha ≡ none)
        × (recover allocator major commit_sha committed_at ≡ err no_existing_assignment))
      ⊎ ((old : VersionAssignment) × (result : VersionAssignment × VersionAllocator)
          × (assignment_of allocator major commit_sha ≡ some old)
          × (recover allocator major commit_sha committed_at ≡ ok result))
unfolding recover assignment_of
recover_total allocator major commit_sha committed_at valid inputs =
    let accepted = (validate_inputs_iff major commit_sha committed_at).1 inputs in
    let same = for_major_found allocator major in
    elim (Option-cases (get (for_major allocator major).0.current_attempts commit_sha)) [
      | inl e ↦ inl (
        current_of-none (allocations_of allocator major) commit_sha (rw same at e),
        rw (accepted, e),
      )
      | inr (n, e) ↦
          let at_n = rw same at e in
          let current = (valid.ledger major).currents commit_sha n at_n in
          inr (
            current.assignment,
            append (for_major allocator major).1 (for_major allocator major).0 major commit_sha
                committed_at (n + 1),
            current_of-some (allocations_of allocator major) commit_sha n at_n ∙ current.found,
            rw (accepted, e),
          )
    ]

-- An assigned commit's assignment is held under some key.
pub assignment_of-Holds :
    (allocator : VersionAllocator) (major : ℕ) (commit_sha : Text) (a : VersionAssignment)
    → assignment_of allocator major commit_sha ≡ some a
    → (k : Text) × (get (allocations_of allocator major).assignments k ≡ some a)
unfolding assignment_of
assignment_of-Holds allocator major commit_sha a h =
    let (n, _, found) = current_of-inv (allocations_of allocator major) commit_sha a h in
    (key commit_sha n, found)
