-- ===== src/VersionAllocator/Entries.antt =====
-- The assignments that the ledgers of src/version-allocator.ts hold after a new one.
use jsrproxy.Common.{
  ℕ, ◌≡◌, refl, sym, subst, ◌∙◌, ◌⊎◌, inl, inr, some, Text, if◌then◌else◌, text_eq, nat_eq, ◌==◌,
  nat_beq_iff, Bool-cases,
}
use jsrproxy.Common.Map.{get, get-set_self}
use jsrproxy.VersionAllocator.{VersionAssignment, MajorAllocations, VersionAllocator, key, appended}
use jsrproxy.VersionAllocator.Ledger.{IsNext}
use jsrproxy.VersionAllocator.View.{allocations_of, IsValid}
use jsrproxy.VersionAllocator.Calls.{Appends}
use jsrproxy.VersionAllocator.Append.{lookup_cases, kept_lookup}

-- An assignment that the allocator holds.
abbrev pub Holds : VersionAllocator → ℕ → Text → VersionAssignment → Type 0
Holds allocator major k a = get (allocations_of allocator major).assignments k ≡ some a

module _ (allocator : VersionAllocator) (major : ℕ) (commit_sha : Text) (committed_at attempt : ℕ)
    (assignment : VersionAssignment) (allocator' : VersionAllocator) (valid : IsValid allocator)
    (appends : Appends allocator major commit_sha committed_at attempt assignment allocator')
    (next : IsNext (allocations_of allocator major) commit_sha attempt) where
  abbrev was : MajorAllocations
  was = allocations_of allocator major

  abbrev is_now : MajorAllocations
  is_now = (appended was major commit_sha committed_at attempt).1

  pub Appends-kept :
      (m : ℕ) (k : Text) (a : VersionAssignment) → Holds allocator m k a → Holds allocator' m k a
  Appends-kept m k a h = rw (appends.written m) (elim (Bool-cases (major == m)) [
    | inl same ↦ rw same (
        kept_lookup major was commit_sha committed_at attempt (valid.ledger major) next k a
          (rw ((nat_beq_iff major m).0 same) h))
    | inr different ↦ rw different h
  ])

  pub Appends-found : Holds allocator' major (key commit_sha attempt) assignment
  Appends-found =
      rw (appends.written major, (nat_beq_iff major major).1 refl, appends.assigned)
        (unfold appended in get-set_self was.assignments (key commit_sha attempt) _)

  pub Appends-cases :
      (m : ℕ) (k : Text) (a : VersionAssignment)
      → Holds allocator' m k a
      → (a ≡ assignment) ⊎ Holds allocator m k a
  Appends-cases m k a h =
      let written : get (if major == m then is_now else allocations_of allocator m).assignments k
          ≡ some a =
        rw (← appends.written m) h in
      elim (Bool-cases (major == m)) [
        | inl same ↦
            let at_major : major ≡ m = (nat_beq_iff major m).0 same in
            elim (lookup_cases major was commit_sha committed_at attempt (valid.ledger major) next k
              a (rw same at written)) [
                | inl (_, new) ↦ inl (new ∙ sym appends.assigned)
                | inr (_, old) ↦ inr (subst (λ n. Holds allocator n k a) at_major old)
              ]
        | inr different ↦ inr (rw different at written)
      ]
