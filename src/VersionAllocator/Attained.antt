-- ===== src/VersionAllocator/Attained.antt =====
-- The high-water marks of src/version-allocator.ts are sequence numbers of assignments.
use jsrproxy.Common.{
  ℕ, ◌≤◌, ◌+◌, ◌≡◌, refl, sym, ap, subst, ◌∙◌, inl, inr, Option, none, some, Text, arith, max, ltb,
  max_safe_integer, text_eq, nat_eq, ◌==◌, Bool-cases, ok,
}
use jsrproxy.Common.Map.{get, get-set_self}
use jsrproxy.VersionAllocator.{
  VersionAssignment, MajorAllocations, VersionAllocator, new_allocator, no_allocations, key,
  appended, restored, allocate, recover,
}
use jsrproxy.VersionAllocator.View.{allocations_of}
use jsrproxy.VersionAllocator.Calls.{Appends, allocate_cases, recover_cases}
use jsrproxy.VersionAllocator.Entries.{Holds}
use jsrproxy.VersionAllocator.Ledger.{IsSafe}
use jsrproxy.VersionAllocator.Rises.{IsAllSafe}
use jsrproxy.VersionAllocator.Restore.{Restores}
use jsrproxy.VersionAllocator.Restored.{kept-restored, found-restored}

-- An assignment whose sequence number is `high`.
pub record Attains (allocations : MajorAllocations) (high : ℕ) : Type 0 where
  pub at_key : Text
  pub assignment : VersionAssignment
  pub found : get allocations.assignments at_key ≡ some assignment
  pub sequence_eq : assignment.sequence ≡ high

abbrev pub IsAttained : MajorAllocations → Type 0
IsAttained allocations = (high : ℕ) → allocations.high_water ≡ some high → Attains allocations high

abbrev pub IsAllAttained : VersionAllocator → Type 0
IsAllAttained allocator = (m : ℕ) → IsAttained (allocations_of allocator m)

pub no_allocations-IsAttained : IsAttained no_allocations
no_allocations-IsAttained high e = cc

pub new_allocator-IsAllAttained : IsAllAttained new_allocator
unfolding allocations_of get
new_allocator-IsAllAttained m = no_allocations-IsAttained

appended-IsAttained :
    (al : MajorAllocations) (major : ℕ) (commit_sha : Text) (committed_at attempt : ℕ)
    → IsAttained (appended al major commit_sha committed_at attempt).1
unfolding appended
appended-IsAttained al major commit_sha committed_at attempt high e = record {
  at_key = key commit_sha attempt;
  assignment = (appended al major commit_sha committed_at attempt).0;
  found = get-set_self al.assignments (key commit_sha attempt) _;
  sequence_eq = cc;
}

module _ (allocator : VersionAllocator) (major : ℕ) (commit_sha : Text) (committed_at : ℕ)
    (assignment : VersionAssignment) (allocator' : VersionAllocator)
    (attained : IsAllAttained allocator) where
  Appends-IsAllAttained :
      (attempt : ℕ)
      → Appends allocator major commit_sha committed_at attempt assignment allocator'
      → IsAllAttained allocator'
  Appends-IsAllAttained attempt appends m =
      subst IsAttained (sym (appends.written m)) (elim (Bool-cases (major == m)) [
        | inl same ↦ rw same (
            appended-IsAttained (allocations_of allocator major) major commit_sha committed_at
              attempt)
        | inr different ↦ rw different (attained m)
      ])

  pub allocate-IsAllAttained :
      allocate allocator major commit_sha committed_at ≡ ok (assignment, allocator')
      → IsAllAttained allocator'
  allocate-IsAllAttained h =
      elim (allocate_cases allocator major commit_sha committed_at assignment allocator' h) [
        | inl finds ↦ λ m. subst IsAttained (sym (finds.unchanged m)) (attained m)
        | inr (_, appends) ↦ Appends-IsAllAttained 0 appends
      ]

  pub recover-IsAllAttained :
      recover allocator major commit_sha committed_at ≡ ok (assignment, allocator')
      → IsAllAttained allocator'
  recover-IsAllAttained h =
      let (n, _, appends) =
        recover_cases allocator major commit_sha committed_at assignment allocator' h in
      Appends-IsAllAttained (n + 1) appends

module _ (al : MajorAllocations) (a : VersionAssignment)
    (absent : get al.assignments (key a.commit_sha a.attempt) ≡ none) where
  own-Attains : Attains (restored al a) a.sequence
  own-Attains = record {
    at_key = key a.commit_sha a.attempt;
    assignment = a;
    found = found-restored al a absent;
    sequence_eq = refl;
  }

  old-Attains : (high : ℕ) → Attains al high → Attains (restored al a) high
  old-Attains high attains = record {
    at_key = attains.at_key;
    assignment = attains.assignment;
    found = kept-restored al a absent attains.at_key attains.assignment attains.found;
    sequence_eq = attains.sequence_eq;
  }

  restored-IsAttained :
      (o : Option ℕ) → al.high_water ≡ o → IsAttained al → IsAttained (restored al a)
  unfolding restored
  restored-IsAttained none o_eq attained high e =
      let own : some a.sequence ≡ some high = rw (o_eq, restored) at e in
      let same : a.sequence ≡ high = cc in subst (Attains (restored al a)) same own-Attains
  restored-IsAttained (some h) o_eq attained high e =
      let either : some (max h a.sequence) ≡ some high = rw (o_eq, restored) at e in
      let same : max h a.sequence ≡ high = cc in
      elim (Bool-cases (ltb h a.sequence)) [
        | inl less ↦
            let own : a.sequence ≡ high = ground arith in
            subst (Attains (restored al a)) own own-Attains
        | inr not_less ↦
            let old : h ≡ high = ground arith in
            old-Attains high (attained high (o_eq ∙ ap some old))
      ]

pub Restores-IsAllAttained :
    (allocator : VersionAllocator) (a : VersionAssignment) (next : VersionAllocator)
    → Restores allocator a next
    → IsAllAttained allocator
    → IsAllAttained next
Restores-IsAllAttained allocator a next round attained m =
    subst IsAttained (sym (round.written m)) (elim (Bool-cases (a.major == m)) [
      | inl same ↦ rw same (
          restored-IsAttained (allocations_of allocator a.major) a round.absent
            (allocations_of allocator a.major).high_water refl (attained a.major))
      | inr different ↦ rw different (attained m)
    ])

-- Marks that are sequence numbers are safe if all sequence numbers are.
pub IsAllAttained-IsAllSafe :
    (allocator : VersionAllocator)
    → IsAllAttained allocator
    → ((m : ℕ) (k : Text) (a : VersionAssignment)
        → Holds allocator m k a
        → a.sequence ≤ max_safe_integer)
    → IsAllSafe allocator
IsAllAttained-IsAllSafe allocator attained safe m =
    safe_mark (allocations_of allocator m).high_water refl
  where
    safe_mark : (o : Option ℕ) → (allocations_of allocator m).high_water ≡ o → IsSafe o
    safe_mark none e = tt
    safe_mark (some high) e =
        let attains = attained m high e in
        subst (λ n. n ≤ max_safe_integer) attains.sequence_eq
          (safe m attains.at_key attains.assignment attains.found)
