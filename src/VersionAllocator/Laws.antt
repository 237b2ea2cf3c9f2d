-- ===== src/VersionAllocator/Laws.antt =====
-- What `allocate` and `recover` of src/version-allocator.ts promise.
use jsrproxy.Common.{
  ℕ, ◌+◌, ◌≤◌, ◌<◌, ◌≡◌, ◌≢◌, sym, ap, subst, ◌∙◌, ◌⊎◌, inl, inr, ◌&&◌, none, some, Text, arith,
  if◌then◌else◌, max_safe_integer, text_eq, nat_eq, ◌==◌, text_beq_iff, nat_beq_iff, Bool-cases, ok,
}
use jsrproxy.Common.Map.{get}
use jsrproxy.VersionAllocator.{
  VersionAssignment, MajorAllocations, VersionAllocator, key, appended, allocate, recover,
}
use jsrproxy.VersionAllocator.Ledger.{IsLedger, IsNext}
use jsrproxy.VersionAllocator.Keys.{version_text_inj}
use jsrproxy.VersionAllocator.Ledger.{appended-above, max-left}
use jsrproxy.VersionAllocator.View.{allocations_of, IsValid}
use jsrproxy.VersionAllocator.Calls.{Finds, Appends, allocate_cases, recover_cases}
use jsrproxy.VersionAllocator.Assignments.{
  current_of, current_of-some, assignment_of, Appends-IsValid, Appends-assignment_of,
}

module _ (allocator : VersionAllocator) (major : ℕ) (commit_sha : Text)
    (assignment : VersionAssignment) (allocator' : VersionAllocator) where
  pub Finds-IsValid :
      IsValid allocator
      → Finds allocator major commit_sha assignment allocator'
      → IsValid allocator'
  Finds-IsValid valid finds = record {
    ledger = λ m. subst (IsLedger m) (sym (finds.unchanged m)) (valid.ledger m);
  }

  pub Finds-assignment_of :
      Finds allocator major commit_sha assignment allocator'
      → (assignment_of allocator major commit_sha ≡ some assignment)
        × ((m : ℕ) (s : Text) → assignment_of allocator' m s ≡ assignment_of allocator m s)
  unfolding assignment_of
  Finds-assignment_of finds = (
    current_of-some (allocations_of allocator major) commit_sha finds.attempt finds.current
        ∙ finds.found,
    λ m s. ap (λ a. current_of a s) (finds.unchanged m),
  )

pub IsNext-first :
    (allocations : MajorAllocations) (commit_sha : Text)
    → get allocations.current_attempts commit_sha ≡ none
    → IsNext allocations commit_sha 0
IsNext-first allocations commit_sha e n f = absurd (cc)

pub IsNext-suc :
    (allocations : MajorAllocations) (commit_sha : Text) (current : ℕ)
    → get allocations.current_attempts commit_sha ≡ some current
    → IsNext allocations commit_sha (current + 1)
IsNext-suc allocations commit_sha current e n f = let same : current ≡ n = cc in omega (arith, same)

-- `allocator'` is `allocator` with `assignment` for one commit of one major.
abbrev pub Overwrites : VersionAllocator → ℕ → Text → VersionAssignment → VersionAllocator → Type 0
Overwrites allocator major commit_sha assignment allocator' =
    (m : ℕ) (s : Text)
    → assignment_of allocator' m s
      ≡ (if (major == m) && (commit_sha == s) then some assignment else assignment_of allocator m s)

module _ (allocator : VersionAllocator) (major : ℕ) (commit_sha : Text) (committed_at : ℕ)
    (assignment : VersionAssignment) (allocator' : VersionAllocator)
    (valid : IsValid allocator) where
  -- Every assignment that `allocate` returns keeps the ledgers, as long as it is a safe integer.
  pub allocate-IsValid :
      allocate allocator major commit_sha committed_at ≡ ok (assignment, allocator')
      → assignment.sequence ≤ max_safe_integer
      → IsValid allocator'
  allocate-IsValid h fits =
      elim (allocate_cases allocator major commit_sha committed_at assignment allocator' h) [
        | inl finds ↦ Finds-IsValid allocator major commit_sha assignment allocator' valid finds
        | inr (e, appends) ↦
            Appends-IsValid allocator major commit_sha committed_at 0 assignment allocator' valid
              appends (IsNext-first (allocations_of allocator major) commit_sha e) fits
      ]

  pub recover-IsValid :
      recover allocator major commit_sha committed_at ≡ ok (assignment, allocator')
      → assignment.sequence ≤ max_safe_integer
      → IsValid allocator'
  recover-IsValid h fits =
      let (n, e, appends) =
        recover_cases allocator major commit_sha committed_at assignment allocator' h in
      Appends-IsValid allocator major commit_sha committed_at (n + 1) assignment allocator' valid
        appends (IsNext-suc (allocations_of allocator major) commit_sha n e) fits

  overwritten_by_same :
      assignment_of allocator major commit_sha ≡ some assignment
      → ((m : ℕ) (s : Text) → assignment_of allocator' m s ≡ assignment_of allocator m s)
      → Overwrites allocator major commit_sha assignment allocator'
  overwritten_by_same at_commit same m s = elim (Bool-cases ((major == m) && (commit_sha == s))) [
    | inl here_ ↦
        let at_major : major ≡ m = ground (arith, nat_beq_iff major m) in
        let at_sha : commit_sha ≡ s = ground (arith, text_beq_iff commit_sha s) in
        rw here_ (same m s ∙ rw (← at_major, ← at_sha) at_commit)
    | inr elsewhere ↦ rw elsewhere (same m s)
  ]

  -- On valid ledgers, a call of `allocate` that returns sets the commit's assignment and no
  -- other, and keeps the one that is there.
  pub allocate-assignment_of :
      allocate allocator major commit_sha committed_at ≡ ok (assignment, allocator')
      → Overwrites allocator major commit_sha assignment allocator'
        × ((assignment_of allocator major commit_sha ≡ none)
            ⊎ (assignment_of allocator major commit_sha ≡ some assignment))
  unfolding assignment_of current_of
  allocate-assignment_of h =
      elim (allocate_cases allocator major commit_sha committed_at assignment allocator' h) [
        | inl finds ↦
            let (at_commit, same) =
              Finds-assignment_of allocator major commit_sha assignment allocator' finds in
            (overwritten_by_same at_commit same, inr at_commit)
        | inr (e, appends) ↦ (
          Appends-assignment_of allocator major commit_sha committed_at 0 assignment allocator'
              valid appends (IsNext-first (allocations_of allocator major) commit_sha e),
          inl (ground (arith, e)),
        )
      ]

  -- On valid ledgers, a call of `recover` that returns sets the commit's assignment and no
  -- other, to one with a greater sequence number than the one it replaces, which has to be
  -- there.
  pub recover-assignment_of :
      recover allocator major commit_sha committed_at ≡ ok (assignment, allocator')
      → Overwrites allocator major commit_sha assignment allocator'
        × ((old : VersionAssignment) × (assignment_of allocator major commit_sha ≡ some old)
            × (old.sequence < assignment.sequence))
  unfolding assignment_of
  recover-assignment_of h =
      let (n, e, appends) =
        recover_cases allocator major commit_sha committed_at assignment allocator' h in
      let next = IsNext-suc (allocations_of allocator major) commit_sha n e in
      let current = (valid.ledger major).currents commit_sha n e in
      (
        Appends-assignment_of allocator major commit_sha committed_at (n + 1) assignment allocator'
            valid appends next,
        (
          current.assignment,
          current_of-some (allocations_of allocator major) commit_sha n e ∙ current.found,
          rw appends.assigned (
              appended-above major (allocations_of allocator major) commit_sha committed_at (n + 1)
                (valid.ledger major) next (key commit_sha n) current.assignment current.found),
        ),
      )

  -- A version that is assigned anew was never assigned before, under any major, and is not below
  -- the time of its commit.
  pub Appends-fresh :
      (attempt : ℕ)
      → Appends allocator major commit_sha committed_at attempt assignment allocator'
      → IsNext (allocations_of allocator major) commit_sha attempt
      → (other : ℕ) (k : Text) (b : VersionAssignment)
      → get (allocations_of allocator other).assignments k ≡ some b
      → (b.version ≢ assignment.version) × (committed_at ≤ assignment.sequence)
  unfolding appended
  Appends-fresh attempt appends next other k b found =
      (differs, rw appends.assigned (max-left committed_at _))
    where
      differs : b.version ≢ assignment.version
      differs same =
          let entry = (valid.ledger other).entries k b found in
          let texts = sym entry.version_eq ∙ same ∙ ap (λ a. a.version) appends.assigned in
          let (majors, sequences) = version_text_inj other major b.sequence _ texts in
          let above =
            appended-above major (allocations_of allocator major) commit_sha committed_at attempt
              (valid.ledger major) next k b (rw majors at found) in
          absurd (omega (arith, above, sequences))

  pub allocate-fresh :
      allocate allocator major commit_sha committed_at ≡ ok (assignment, allocator')
      → assignment_of allocator major commit_sha ≡ none
      → (other : ℕ) (k : Text) (b : VersionAssignment)
      → get (allocations_of allocator other).assignments k ≡ some b
      → (b.version ≢ assignment.version) × (committed_at ≤ assignment.sequence)
  allocate-fresh h unassigned =
      elim (allocate_cases allocator major commit_sha committed_at assignment allocator' h) [
        | inl finds ↦
            absurd
              (cc (Finds-assignment_of allocator major commit_sha assignment allocator' finds).0)
        | inr (e, appends) ↦
            Appends-fresh 0 appends (IsNext-first (allocations_of allocator major) commit_sha e)
      ]

  pub recover-fresh :
      recover allocator major commit_sha committed_at ≡ ok (assignment, allocator')
      → (other : ℕ) (k : Text) (b : VersionAssignment)
      → get (allocations_of allocator other).assignments k ≡ some b
      → (b.version ≢ assignment.version) × (committed_at ≤ assignment.sequence)
  recover-fresh h =
      let (n, e, appends) =
        recover_cases allocator major commit_sha committed_at assignment allocator' h in
      Appends-fresh (n + 1) appends (IsNext-suc (allocations_of allocator major) commit_sha n e)
