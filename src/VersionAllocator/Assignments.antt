-- ===== src/VersionAllocator/Assignments.antt =====
-- The allocator of src/version-allocator.ts as a map from majors and commits to assignments.
use mathlib.Core.Bool.{false≢true}
use jsrproxy.Common.{
  ℕ, ◌≤◌, ◌≡◌, refl, sym, subst, ◌∙◌, inl, inr, false, ◌&&◌, Option, none, some, Text, arith,
  if◌then◌else◌, max_safe_integer, text_eq, nat_eq, ◌==◌, text_beq_iff, text_beq-eq, nat_beq_iff,
  Bool-cases, Option-cases,
}
use jsrproxy.Common.Map.{Map, get, set, get-set, get-set_self}
use jsrproxy.VersionAllocator.{VersionAssignment, MajorAllocations, VersionAllocator, key, appended}
use jsrproxy.VersionAllocator.Ledger.{IsLedger, IsNext}
use jsrproxy.VersionAllocator.Append.{appended-IsLedger}
use jsrproxy.VersionAllocator.Keys.{key_inj}
use jsrproxy.VersionAllocator.View.{allocations_of, IsValid}
use jsrproxy.VersionAllocator.Calls.{Appends}

-- The current assignment in the allocations of a major.
unfoldable pub current_of : MajorAllocations → Text → Option VersionAssignment
current_of allocations commit_sha = elim (get allocations.current_attempts commit_sha) [
  | none ↦ none
  | some attempt ↦ get allocations.assignments (key commit_sha attempt)
]

-- The current assignment of a commit under a major: what a client of the allocator sees.
unfoldable pub assignment_of : VersionAllocator → ℕ → Text → Option VersionAssignment
assignment_of allocator major commit_sha = current_of (allocations_of allocator major) commit_sha

pub current_of-some :
    (allocations : MajorAllocations) (commit_sha : Text) (attempt : ℕ)
    → get allocations.current_attempts commit_sha ≡ some attempt
    → current_of allocations commit_sha ≡ get allocations.assignments (key commit_sha attempt)
unfolding current_of
current_of-some allocations commit_sha attempt e = ground (arith, e)

-- A write under the key of another commit does not show.
get-set-key :
    (assignments : Map Text VersionAssignment) (s t : Text) (m n : ℕ) (a : VersionAssignment)
    → (s == t) ≡ false
    → get (set assignments (key s m) a) (key t n) ≡ get assignments (key t n)
get-set-key assignments s t m n a differ = elim (Bool-cases (key s m == key t n)) [
  | inl same ↦
      let names = (key_inj s t m n (text_beq-eq (key s m) (key t n) same)).0 in
      absurd (false≢true (sym differ ∙ (text_beq_iff s t).1 names))
  | inr other ↦ rw (get-set, other) refl
]

current_of-kept :
    (allocations : MajorAllocations) (major : ℕ) (commit_sha : Text) (committed_at attempt : ℕ)
    (other : Text)
    → (commit_sha == other) ≡ false
    → current_of (appended allocations major commit_sha committed_at attempt).1 other
      ≡ current_of allocations other
unfolding current_of appended
current_of-kept allocations major commit_sha committed_at attempt other differ =
    let a = (appended allocations major commit_sha committed_at attempt).0 in
    let kept = get-set allocations.current_attempts commit_sha other attempt in
    elim (Option-cases (get allocations.current_attempts other)) [
      | inl e ↦ ground (arith, kept, differ, e)
      | inr (n, e) ↦ ground (
        arith,
        kept,
        differ,
        e,
        get-set-key allocations.assignments commit_sha other attempt n a differ,
      )
    ]

current_of-appended :
    (allocations : MajorAllocations) (major : ℕ) (commit_sha : Text) (committed_at attempt : ℕ)
    (other : Text)
    → current_of (appended allocations major commit_sha committed_at attempt).1 other ≡ (
        if commit_sha == other
        then some (appended allocations major commit_sha committed_at attempt).0
        else current_of allocations other)
unfolding appended
current_of-appended allocations major commit_sha committed_at attempt other =
    elim (Bool-cases (commit_sha == other)) [
      | inl same ↦ rw same (
          subst (λ o. current_of written o ≡ some assignment) (text_beq-eq commit_sha other same)
            at_new)
      | inr differ ↦ rw differ (at_old differ)
    ]
  where
    assignment : VersionAssignment
    assignment = (appended allocations major commit_sha committed_at attempt).0

    written : MajorAllocations
    written = (appended allocations major commit_sha committed_at attempt).1

    at_new : current_of written commit_sha ≡ some assignment
    at_new =
        current_of-some written commit_sha attempt
          (get-set_self allocations.current_attempts commit_sha attempt)
        ∙ get-set_self allocations.assignments (key commit_sha attempt) assignment

    at_old : (commit_sha == other) ≡ false → current_of written other ≡ current_of allocations other
    at_old differ = current_of-kept allocations major commit_sha committed_at attempt other differ

module _ (allocator : VersionAllocator) (major : ℕ) (commit_sha : Text) (committed_at attempt : ℕ)
    (assignment : VersionAssignment) (allocator' : VersionAllocator) (valid : IsValid allocator)
    (appends : Appends allocator major commit_sha committed_at attempt assignment allocator')
    (next : IsNext (allocations_of allocator major) commit_sha attempt) where
  pub Appends-IsValid : assignment.sequence ≤ max_safe_integer → IsValid allocator'
  Appends-IsValid fits = record {
    ledger = λ other.
        subst (IsLedger other) (sym (appends.written other)) (elim (Bool-cases (major == other)) [
          | inl same ↦ rw same (
              subst
                (λ m.
                  IsLedger m
                    (appended (allocations_of allocator major) major commit_sha committed_at
                      attempt).1)
                ((nat_beq_iff major other).0 same)
                (appended-IsLedger major (allocations_of allocator major) commit_sha committed_at
                  attempt (valid.ledger major) next (rw appends.assigned at fits)))
          | inr different ↦ rw different (valid.ledger other)
        ]);
  }

  pub Appends-assignment_of :
      (other_major : ℕ) (other_sha : Text)
      → assignment_of allocator' other_major other_sha ≡ (
          if (major == other_major) && (commit_sha == other_sha)
          then some assignment
          else assignment_of allocator other_major other_sha)
  unfolding assignment_of
  Appends-assignment_of other_major other_sha =
      rw (appends.written other_major) (elim (Bool-cases (major == other_major)) [
        | inl same ↦
            rw (same, appends.assigned)
              (subst
                (λ m.
                  current_of
                    (appended (allocations_of allocator major) major commit_sha committed_at
                      attempt).1
                    other_sha
                  ≡ (if commit_sha == other_sha
                      then some
                          (appended (allocations_of allocator major) major commit_sha committed_at
                            attempt).0
                      else current_of (allocations_of allocator m) other_sha))
                ((nat_beq_iff major other_major).0 same)
                (current_of-appended (allocations_of allocator major) major commit_sha committed_at
                  attempt other_sha))
        | inr different ↦ rw different refl
      ])
