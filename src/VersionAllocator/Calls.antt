-- ===== src/VersionAllocator/Calls.antt =====
-- What `allocate` and `recover` of src/version-allocator.ts did when they returned.
use jsrproxy.Common.{
  ℕ, ◌+◌, ◌≡◌, sym, ap, subst, ◌∙◌, ◌⊎◌, inl, inr, none, some, Text, if◌then◌else◌, text_eq, nat_eq,
  ◌==◌, >>=-eq-ok, Option-cases, ok,
}
use jsrproxy.Common.Map.{get}
use jsrproxy.VersionAllocator.{
  VersionAssignment, MajorAllocations, VersionAllocator, key, validate_inputs, for_major, appended,
  append, allocate, recover,
}
use jsrproxy.VersionAllocator.View.{
  allocations_of, for_major_found, for_major_entered, allocations_of-append,
}

-- An operation that assigns: it leaves `allocator'` with `assignment` appended as `attempt`.
pub record Appends (allocator : VersionAllocator) (major : ℕ) (commit_sha : Text)
    (committed_at attempt : ℕ) (assignment : VersionAssignment) (allocator' : VersionAllocator)
    : Type 0 where
  pub assigned :
      assignment
      ≡ (appended (allocations_of allocator major) major commit_sha committed_at attempt).0
  pub written :
      (other : ℕ)
      → allocations_of allocator' other ≡ (
          if major == other
          then (appended (allocations_of allocator major) major commit_sha committed_at attempt).1
          else allocations_of allocator other)

append-Appends :
    (allocator : VersionAllocator) (major : ℕ) (commit_sha : Text) (committed_at attempt : ℕ)
    → let called =
        append
          (for_major allocator major).1
          (for_major allocator major).0
          major
          commit_sha
          committed_at
          attempt in
      Appends allocator major commit_sha committed_at attempt called.0 called.1
unfolding append
append-Appends allocator major commit_sha committed_at attempt = record {
  assigned = rw (for_major_found allocator major);
  written = λ other. rw (
    allocations_of-append (for_major allocator major).1 (for_major allocator major).0 major
        commit_sha committed_at attempt other,
    for_major_found allocator major,
    for_major_entered allocator major other,
  );
}

-- A call of `allocate` that finds the commit assigned: nothing is written but an empty entry.
pub record Finds (allocator : VersionAllocator) (major : ℕ) (commit_sha : Text)
    (assignment : VersionAssignment) (allocator' : VersionAllocator) : Type 0 where
  pub attempt : ℕ
  pub current : get (allocations_of allocator major).current_attempts commit_sha ≡ some attempt
  pub found :
      get (allocations_of allocator major).assignments (key commit_sha attempt) ≡ some assignment
  pub unchanged : (other : ℕ) → allocations_of allocator' other ≡ allocations_of allocator other

abbrev found_in : VersionAllocator → ℕ → MajorAllocations
found_in allocator major = (for_major allocator major).0

abbrev entered_in : VersionAllocator → ℕ → VersionAllocator
entered_in allocator major = (for_major allocator major).1

module _ (allocator : VersionAllocator) (major : ℕ) (commit_sha : Text) (committed_at : ℕ)
    (assignment : VersionAssignment) (allocator' : VersionAllocator) where
  of_append :
      (attempt : ℕ)
      → append
          (entered_in allocator major)
          (found_in allocator major)
          major
          commit_sha
          committed_at
          attempt
        ≡ (assignment, allocator')
      → Appends allocator major commit_sha committed_at attempt assignment allocator'
  of_append attempt same =
      subst (λ r. Appends allocator major commit_sha committed_at attempt r.0 r.1) same
        (append-Appends allocator major commit_sha committed_at attempt)

  of_found :
      (attempt : ℕ)
      → get (found_in allocator major).current_attempts commit_sha ≡ some attempt
      → get (found_in allocator major).assignments (key commit_sha attempt) ≡ some assignment
      → entered_in allocator major ≡ allocator'
      → Finds allocator major commit_sha assignment allocator'
  of_found attempt at_attempt at_key same = record {
    attempt = attempt;
    current = rw (for_major_found allocator major) at at_attempt;
    found = rw (for_major_found allocator major) at at_key;
    unchanged = λ other.
        ap (λ a. allocations_of a other) (sym same) ∙ for_major_entered allocator major other;
  }

  -- A call of `allocate` that returns found the commit assigned or assigned it.
  pub allocate_cases :
      allocate allocator major commit_sha committed_at ≡ ok (assignment, allocator')
      → Finds allocator major commit_sha assignment allocator'
        ⊎ ((get (allocations_of allocator major).current_attempts commit_sha ≡ none)
            × Appends allocator major commit_sha committed_at 0 assignment allocator')
  unfolding allocate
  allocate_cases h =
      let (_, valid, rest) = >>=-eq-ok (validate_inputs major commit_sha committed_at) _ h in
      elim (Option-cases (get (found_in allocator major).current_attempts commit_sha)) [
        | inl e ↦
            let called = rw e at rest in
            inr (rw (for_major_found allocator major) at e, of_append 0 (cc))
        | inr (n, e) ↦
            let called = rw e at rest in
            elim (Option-cases (get (found_in allocator major).assignments (key commit_sha n))) [
              | inl missing ↦ let thrown = rw missing at called in absurd (cc)
              | inr (a, f) ↦
                  let returned = rw f at called in
                  let first : a ≡ assignment = cc in inl (of_found n e (f ∙ ap some first) (cc))
            ]
      ]

  -- A call of `recover` that returns assigned the attempt after the current one.
  pub recover_cases :
      recover allocator major commit_sha committed_at ≡ ok (assignment, allocator')
      → (current : ℕ) × (get (allocations_of allocator major).current_attempts commit_sha
          ≡ some current)
        × Appends allocator major commit_sha committed_at (current + 1) assignment allocator'
  unfolding recover
  recover_cases h =
      let (_, valid, rest) = >>=-eq-ok (validate_inputs major commit_sha committed_at) _ h in
      elim (Option-cases (get (found_in allocator major).current_attempts commit_sha)) [
        | inl e ↦ let thrown = rw e at rest in absurd (cc)
        | inr (n, e) ↦
            let called = rw e at rest in
            (n, rw (for_major_found allocator major) at e, of_append (n + 1) (cc))
      ]

-- A new assignment is for the commit, the major and the attempt that it was asked for.
pub Appends-fields :
    (allocator : VersionAllocator) (major : ℕ) (commit_sha : Text) (committed_at attempt : ℕ)
    (assignment : VersionAssignment) (allocator' : VersionAllocator)
    → Appends allocator major commit_sha committed_at attempt assignment allocator'
    → (assignment.commit_sha ≡ commit_sha)
      × (assignment.attempt ≡ attempt)
      × (assignment.major ≡ major)
unfolding appended
Appends-fields allocator major commit_sha committed_at attempt assignment allocator' appends = (
  ap (λ a. a.commit_sha) appends.assigned,
  ap (λ a. a.attempt) appends.assigned,
  ap (λ a. a.major) appends.assigned,
)
