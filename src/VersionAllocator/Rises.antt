-- ===== src/VersionAllocator/Rises.antt =====
-- The high-water marks of src/version-allocator.ts only rise, and an assigned commit stays assigned.
use jsrproxy.Common.{
  ℕ, ◌+◌, ◌≤◌, ◌≡◌, refl, sym, ap, subst, ◌∙◌, inl, inr, ◌&&◌, Option, none, some, Text, arith,
  if◌then◌else◌, max_safe_integer, text_eq, nat_eq, ◌==◌, text_beq_iff, >>=-eq-ok, nat_beq_iff,
  Bool-cases, ok,
}
use jsrproxy.VersionAllocator.{
  VersionAssignment, MajorAllocations, VersionAllocator, key, validate_inputs, appended, allocate,
  recover,
}
use jsrproxy.VersionAllocator.View.{allocations_of, IsValid, AreInputs, validate_inputs_iff}
use jsrproxy.VersionAllocator.Calls.{Appends, allocate_cases, recover_cases}
use jsrproxy.VersionAllocator.Assignments.{assignment_of}
use jsrproxy.Common.Marks.{Covers, Covers-refl, Covers-trans}
use jsrproxy.VersionAllocator.{after_high_water}
use jsrproxy.VersionAllocator.Ledger.{IsSafe, Reaches}
use jsrproxy.VersionAllocator.Laws.{allocate-assignment_of}

abbrev pub high_water_of : VersionAllocator → ℕ → Option ℕ
high_water_of allocator major = (allocations_of allocator major).high_water

-- No mark of `allocator'` is below that of `allocator`.
abbrev pub Rises : VersionAllocator → VersionAllocator → Type 0
Rises allocator allocator' =
    (major : ℕ) → Covers (high_water_of allocator major) (high_water_of allocator' major)

-- All marks are safe integers.
abbrev pub IsAllSafe : VersionAllocator → Type 0
IsAllSafe allocator = (major : ℕ) → IsSafe (high_water_of allocator major)

pub Rises-trans : (a b c : VersionAllocator) → Rises a b → Rises b c → Rises a c
Rises-trans a b c p q major =
    Covers-trans (high_water_of a major) (high_water_of b major) (high_water_of c major) (p major)
      (q major)

Covers-IsSafe : (o p : Option ℕ) → Covers o p → IsSafe p → IsSafe o
Covers-IsSafe none p c s = tt
Covers-IsSafe (some n) none c s = absurd c
Covers-IsSafe (some n) (some m) c s = omega arith

-- Marks below safe marks are safe.
pub Rises-IsAllSafe : (a b : VersionAllocator) → Rises a b → IsAllSafe b → IsAllSafe a
Rises-IsAllSafe a b rises safe major =
    Covers-IsSafe (high_water_of a major) (high_water_of b major) (rises major) (safe major)

IsSafe-sequence : (s : ℕ) (o : Option ℕ) → Covers (some s) o → IsSafe o → s ≤ max_safe_integer
IsSafe-sequence s none c safe = absurd c
IsSafe-sequence s (some n) c safe = omega arith

appended-Covers :
    (allocations : MajorAllocations) (major : ℕ) (commit_sha : Text) (committed_at attempt : ℕ)
    (o : Option ℕ)
    → allocations.high_water ≡ o
    → Covers o (appended allocations major commit_sha committed_at attempt).1.high_water
unfolding appended after_high_water
appended-Covers allocations major commit_sha committed_at attempt none e = tt
appended-Covers allocations major commit_sha committed_at attempt (some h) e = rw e (ground arith)

Reaches-Covers : (s : ℕ) (o : Option ℕ) → Reaches s o → Covers (some s) o
Reaches-Covers s none r = r
Reaches-Covers s (some h) r = r

module _ (allocator : VersionAllocator) (major : ℕ) (commit_sha : Text) (committed_at : ℕ)
    (assignment : VersionAssignment) (allocator' : VersionAllocator) where
  pub Appends-Rises :
      (attempt : ℕ)
      → Appends allocator major commit_sha committed_at attempt assignment allocator'
      → Rises allocator allocator'
        × Covers (some assignment.sequence) (high_water_of allocator' major)
  unfolding appended
  Appends-Rises attempt appends = (rises, at_major)
    where
      now : MajorAllocations
      now = (appended (allocations_of allocator major) major commit_sha committed_at attempt).1

      rises : Rises allocator allocator'
      rises m =
          subst (λ al. Covers (high_water_of allocator m) al.high_water) (sym (appends.written m))
            (elim (Bool-cases (major == m)) [
              | inl same ↦
                  subst
                    (λ b.
                      Covers (high_water_of allocator m)
                        (if b then now else allocations_of allocator m).high_water)
                    (sym same)
                    (subst (λ n. Covers (high_water_of allocator n) now.high_water)
                      ((nat_beq_iff major m).0 same)
                      (appended-Covers (allocations_of allocator major) major commit_sha
                        committed_at attempt _ refl))
              | inr different ↦
                  subst
                    (λ b.
                      Covers (high_water_of allocator m)
                        (if b then now else allocations_of allocator m).high_water)
                    (sym different) (Covers-refl (high_water_of allocator m))
            ])

      at_major : Covers (some assignment.sequence) (high_water_of allocator' major)
      at_major =
          subst (λ al. Covers (some assignment.sequence) al.high_water)
            (sym (rw ((nat_beq_iff major major).1 refl) at (appends.written major)))
            (omega (arith, ap (λ a. a.sequence) appends.assigned))

  pub allocate-Rises :
      allocate allocator major commit_sha committed_at ≡ ok (assignment, allocator')
      → Rises allocator allocator'
  allocate-Rises h =
      elim (allocate_cases allocator major commit_sha committed_at assignment allocator' h) [
        | inl finds ↦ λ m.
            subst (λ al. Covers (high_water_of allocator m) al.high_water) (sym (finds.unchanged m))
              (Covers-refl (high_water_of allocator m))
        | inr (_, appends) ↦ (Appends-Rises 0 appends).0
      ]

  -- The sequence number that `allocate` returns is safe if the mark that it leaves is.
  pub allocate-fits :
      IsValid allocator
      → allocate allocator major commit_sha committed_at ≡ ok (assignment, allocator')
      → IsAllSafe allocator'
      → assignment.sequence ≤ max_safe_integer
  allocate-fits valid h safe =
      IsSafe-sequence assignment.sequence (high_water_of allocator' major)
        (elim (allocate_cases allocator major commit_sha committed_at assignment allocator' h) [
          | inl finds ↦
              subst (λ al. Covers (some assignment.sequence) al.high_water)
                (sym (finds.unchanged major))
                (Reaches-Covers assignment.sequence (high_water_of allocator major)
                  ((valid.ledger major).entries (key commit_sha finds.attempt) assignment
                    finds.found).below)
          | inr (_, appends) ↦ (Appends-Rises 0 appends).1
        ])
        (safe major)

  pub recover-fits :
      recover allocator major commit_sha committed_at ≡ ok (assignment, allocator')
      → IsAllSafe allocator'
      → assignment.sequence ≤ max_safe_integer
  recover-fits h safe =
      let (n, _, appends) =
        recover_cases allocator major commit_sha committed_at assignment allocator' h in
      IsSafe-sequence assignment.sequence (high_water_of allocator' major)
        (Appends-Rises (n + 1) appends).1 (safe major)

  -- What `allocate` returns is what the commit is assigned then.
  pub allocate-returns :
      IsValid allocator
      → allocate allocator major commit_sha committed_at ≡ ok (assignment, allocator')
      → assignment_of allocator' major commit_sha ≡ some assignment
  allocate-returns valid h =
      (allocate-assignment_of allocator major commit_sha committed_at assignment allocator' valid
          h).0
        major commit_sha
      ∙ rw ((nat_beq_iff major major).1 refl, (text_beq_iff commit_sha commit_sha).1 refl)

  -- A commit that is assigned keeps its assignment under every call of `allocate`.
  pub allocate-keeps :
      IsValid allocator
      → allocate allocator major commit_sha committed_at ≡ ok (assignment, allocator')
      → (m : ℕ) (s : Text) (a : VersionAssignment) → assignment_of allocator m s ≡ some a
      → assignment_of allocator' m s ≡ some a
  allocate-keeps valid h m s a assigned =
      let (overwrites, was) =
        allocate-assignment_of allocator major commit_sha committed_at assignment allocator' valid
          h in
      elim (Bool-cases ((major == m) && (commit_sha == s))) [
        | inl here_ ↦
            let at_major : major ≡ m = ground (arith, nat_beq_iff major m) in
            let at_sha : commit_sha ≡ s = ground (arith, text_beq_iff commit_sha s) in
            let at_commit : assignment_of allocator major commit_sha ≡ some a =
              rw (at_major, at_sha) assigned in
            overwrites m s
            ∙ rw here_
                (elim was [ inl unassigned ↦ absurd (cc) | inr found ↦ sym found ∙ at_commit ])
        | inr elsewhere ↦ overwrites m s ∙ rw elsewhere assigned
      ]

  pub allocate-AreInputs :
      allocate allocator major commit_sha committed_at ≡ ok (assignment, allocator')
      → AreInputs major commit_sha committed_at
  unfolding allocate
  allocate-AreInputs h =
      let (_, accepted, rest) = >>=-eq-ok (validate_inputs major commit_sha committed_at) _ h in
      (validate_inputs_iff major commit_sha committed_at).0 accepted
