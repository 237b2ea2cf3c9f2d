-- ===== src/VersionAllocator/Append.antt =====
-- `#append` of src/version-allocator.ts keeps the ledger of its major.
use jsrproxy.Common.{
  ℕ, ◌≤◌, ◌<◌, ◌≡◌, ◌≢◌, sym, ap, ◌∙◌, ◌⊎◌, inl, inr, some, Text, arith, max_safe_integer, text_eq,
  ◌==◌, text_beq-eq, Bool-cases,
}
use jsrproxy.Common.Map.{get, get-set, get-set_self, get-set_cases}
use jsrproxy.VersionAllocator.{VersionAssignment, MajorAllocations, key, appended}
use jsrproxy.VersionAllocator.Ledger.{
  IsEntry, IsCurrent, IsLedger, IsNext, appended-above, fresh, result-IsEntry, kept-IsEntry,
}

module _ (major : ℕ) (allocations : MajorAllocations) (commit_sha : Text) (committed_at attempt : ℕ)
    (ledger : IsLedger major allocations) (next : IsNext allocations commit_sha attempt) where
  abbrev result : VersionAssignment × MajorAllocations
  result = appended allocations major commit_sha committed_at attempt

  -- An assignment of the new ledger is the new one or one of the old ledger.
  pub lookup_cases :
      (k : Text) (a : VersionAssignment)
      → get result.1.assignments k ≡ some a
      → ((k ≡ key commit_sha attempt) × (a ≡ result.0))
        ⊎ ((key commit_sha attempt ≢ k) × (get allocations.assignments k ≡ some a))
  unfolding appended
  lookup_cases k a e = get-set_cases allocations.assignments (key commit_sha attempt) k result.0 e

  entries :
      (k : Text) (a : VersionAssignment)
      → get result.1.assignments k ≡ some a
      → IsEntry major result.1 k a
  entries k a e = elim (lookup_cases k a e) [
    | inl (at_key, new) ↦
        rw (at_key, new)
          (result-IsEntry major allocations commit_sha committed_at attempt ledger next)
    | inr (_, old) ↦
        kept-IsEntry major allocations commit_sha committed_at attempt ledger next k a old
  ]

  current_cases :
      (s : Text) (n : ℕ)
      → get result.1.current_attempts s ≡ some n
      → ((s ≡ commit_sha) × (n ≡ attempt))
        ⊎ ((commit_sha ≢ s) × (get allocations.current_attempts s ≡ some n))
  unfolding appended
  current_cases s n e = get-set_cases allocations.current_attempts commit_sha s attempt e

  pub kept_lookup :
      (k : Text) (a : VersionAssignment)
      → get allocations.assignments k ≡ some a
      → get result.1.assignments k ≡ some a
  unfolding appended
  kept_lookup k a e = elim (Bool-cases (key commit_sha attempt == k)) [
    | inl same ↦ absurd (
        fresh major allocations commit_sha committed_at attempt ledger next a
          (rw (text_beq-eq (key commit_sha attempt) k same) e))
    | inr other ↦ rw (get-set, other) e
  ]

  currents : (s : Text) (n : ℕ) → get result.1.current_attempts s ≡ some n → IsCurrent result.1 s n
  currents s n e = elim (current_cases s n e) [
    | inl (sha, new) ↦
        rw (sha, new)
          (record {
            assignment = result.0;
            found =
                unfold appended in
                get-set_self allocations.assignments (key commit_sha attempt) result.0;
          })
    | inr (_, old) ↦
        let current = ledger.currents s n old in
        record {
          assignment = current.assignment;
          found = kept_lookup (key s n) current.assignment current.found;
        }
  ]

  distinct :
      (j k : Text) (a b : VersionAssignment)
      → get result.1.assignments j ≡ some a
      → get result.1.assignments k ≡ some b
      → a.sequence ≡ b.sequence
      → j ≡ k
  distinct j k a b e f same = elim (lookup_cases j a e) [
    | inl (at_j, new_a) ↦ elim (lookup_cases k b f) [
      | inl (at_k, new_b) ↦ at_j ∙ sym at_k
      | inr (_, old_b) ↦ absurd (omega (arith, above k b old_b, same, ap (λ x. x.sequence) new_a))
    ]
    | inr (_, old_a) ↦ elim (lookup_cases k b f) [
      | inl (at_k, new_b) ↦
          absurd (omega (arith, above j a old_a, same, ap (λ x. x.sequence) new_b))
      | inr (_, old_b) ↦ ledger.distinct j k a b old_a old_b same
    ]
  ]
    where
      above :
          (i : Text) (c : VersionAssignment)
          → get allocations.assignments i ≡ some c
          → c.sequence < result.0.sequence
      above = appended-above major allocations commit_sha committed_at attempt ledger next

  -- The ledger stays one as long as the new sequence number is a safe integer.
  pub appended-IsLedger : result.0.sequence ≤ max_safe_integer → IsLedger major result.1
  appended-IsLedger fits = record {
    entries = entries;
    currents = currents;
    distinct = distinct;
    safe = unfold appended in fits;
  }
