-- ===== src/VersionAllocator/Keyed.antt =====
-- The maps of src/version-allocator.ts have distinct keys, whatever is called.
use jsrproxy.Common.{
  ℕ, ◌+◌, ◌≡◌, subst, inl, inr, some, Text, text_eq, nat_eq, >>=-eq-ok, Option-cases, ok,
}
use jsrproxy.Common.Map.{get, set, get-set_cases, IsMap, IsMap-set}
use jsrproxy.VersionAllocator.{
  VersionAssignment, MajorAllocations, VersionAllocator, new_allocator, no_allocations, key,
  validate_inputs, for_major, appended, append, allocate, recover,
}

pub record IsKeyed (allocator : VersionAllocator) : Type 0 where
  pub majors : IsMap allocator.majors
  pub assignments :
      (major : ℕ) (allocations : MajorAllocations)
      → get allocator.majors major ≡ some allocations
      → IsMap allocations.assignments

pub new_allocator-IsKeyed : IsKeyed new_allocator
unfolding get
new_allocator-IsKeyed = record { majors = tt; assignments = λ major allocations e. cc }

pub set-IsKeyed :
    (allocator : VersionAllocator) (major : ℕ) (written : MajorAllocations)
    → IsKeyed allocator
    → IsMap written.assignments
    → IsKeyed (record { majors = set allocator.majors major written })
set-IsKeyed allocator major written keyed distinct = record {
  majors = IsMap-set allocator.majors major written keyed.majors;
  assignments = λ m al e. elim (get-set_cases allocator.majors major m written e) [
    | inl (at_major, same) ↦ rw same distinct
    | inr (elsewhere, old) ↦ keyed.assignments m al old
  ];
}

pub for_major-IsKeyed :
    (allocator : VersionAllocator) (major : ℕ)
    → IsKeyed allocator
    → IsMap (for_major allocator major).0.assignments × IsKeyed (for_major allocator major).1
unfolding for_major
for_major-IsKeyed allocator major keyed = elim (Option-cases (get allocator.majors major)) [
  | inl e ↦ rw (e, for_major) (tt, set-IsKeyed allocator major no_allocations keyed tt)
  | inr (al, e) ↦ rw (e, for_major) (keyed.assignments major al e, keyed)
]

append-IsKeyed :
    (allocator : VersionAllocator) (allocations : MajorAllocations) (major : ℕ) (commit_sha : Text)
    (committed_at attempt : ℕ)
    → IsKeyed allocator
    → IsMap allocations.assignments
    → IsKeyed (append allocator allocations major commit_sha committed_at attempt).1
unfolding append appended
append-IsKeyed allocator allocations major commit_sha committed_at attempt keyed distinct =
    set-IsKeyed allocator major _ keyed
      (IsMap-set allocations.assignments (key commit_sha attempt) _ distinct)

module _ (allocator : VersionAllocator) (major : ℕ) (commit_sha : Text) (committed_at : ℕ)
    (assignment : VersionAssignment) (allocator' : VersionAllocator)
    (keyed : IsKeyed allocator) where
  called-IsKeyed :
      (attempt : ℕ)
      → append
          (for_major allocator major).1
          (for_major allocator major).0
          major
          commit_sha
          committed_at
          attempt
        ≡ (assignment, allocator')
      → IsKeyed allocator'
  called-IsKeyed attempt same =
      let (distinct, entered) = for_major-IsKeyed allocator major keyed in
      subst (λ r. IsKeyed r.1) same
        (append-IsKeyed (for_major allocator major).1 (for_major allocator major).0 major commit_sha
          committed_at attempt entered distinct)

  pub allocate-IsKeyed :
      allocate allocator major commit_sha committed_at ≡ ok (assignment, allocator')
      → IsKeyed allocator'
  unfolding allocate
  allocate-IsKeyed h =
      let (_, valid, rest) = >>=-eq-ok (validate_inputs major commit_sha committed_at) _ h in
      elim (Option-cases (get (for_major allocator major).0.current_attempts commit_sha)) [
        | inl e ↦ let called = rw e at rest in called-IsKeyed 0 (cc)
        | inr (n, e) ↦
            let called = rw e at rest in
            elim (Option-cases (get (for_major allocator major).0.assignments (key commit_sha n))) [
              | inl missing ↦ let thrown = rw missing at called in absurd (cc)
              | inr (a, f) ↦
                  let returned = rw f at called in
                  let same : (for_major allocator major).1 ≡ allocator' = cc in
                  subst IsKeyed same (for_major-IsKeyed allocator major keyed).1
            ]
      ]

  pub recover-IsKeyed :
      recover allocator major commit_sha committed_at ≡ ok (assignment, allocator')
      → IsKeyed allocator'
  unfolding recover
  recover-IsKeyed h =
      let (_, valid, rest) = >>=-eq-ok (validate_inputs major commit_sha committed_at) _ h in
      elim (Option-cases (get (for_major allocator major).0.current_attempts commit_sha)) [
        | inl e ↦ let thrown = rw e at rest in absurd (cc)
        | inr (n, e) ↦ let called = rw e at rest in called-IsKeyed (n + 1) (cc)
      ]
