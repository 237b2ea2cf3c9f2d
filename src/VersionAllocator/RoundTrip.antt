-- ===== src/VersionAllocator/RoundTrip.antt =====
-- `snapshot` and `fromSnapshot` of src/version-allocator.ts: what is stored is read back.
use jsrproxy.Common.{
  ℕ, ◌≤◌, ◌≡◌, ◌↔◌, refl, sym, ap, subst, ◌∙◌, ◌⊎◌, inl, inr, Bool, none, some, List, [], ◌∷◌, Text,
  text_eq, max_safe_integer, nat_eq, ◌==◌, Bool-cases, Option-cases, ok, >>=-eq-ok, nat_beq_iff, In,
  here, there, In-cons_cases, not-In-nil, In-flat_map_to, In-flat_map_from,
}
use jsrproxy.Common.Map.{get, values, In-get, In-values_key, get-In-values}
use jsrproxy.Common.Sorting.{In-sort_by_to, In-sort_by_from}
use jsrproxy.VersionAllocator.{
  VersionAssignment, VersionAllocatorSnapshot, MajorAllocations, VersionAllocator, new_allocator,
  no_allocations, key, restored, restore, restore_all, from_snapshot, snapshot,
}
use jsrproxy.VersionAllocator.View.{allocations_of, IsValid}
use jsrproxy.VersionAllocator.Entries.{Holds}
use jsrproxy.VersionAllocator.Keyed.{IsKeyed, new_allocator-IsKeyed}
use jsrproxy.VersionAllocator.Restore.{Restores, restore-Restores}
use jsrproxy.VersionAllocator.Attained.{
  IsAllAttained, new_allocator-IsAllAttained, Restores-IsAllAttained, IsAllAttained-IsAllSafe,
}
use jsrproxy.VersionAllocator.Rises.{IsAllSafe}
use jsrproxy.VersionAllocator.Restored.{
  IsOpenLedger, no_allocations-IsOpenLedger, kept-restored, found-restored, restored_cases,
  restored-IsOpenLedger,
}

-- All majors have ledgers, but for that sequence numbers are distinct.
abbrev pub IsOpen : VersionAllocator → Type 0
IsOpen allocator = (m : ℕ) → IsOpenLedger m (allocations_of allocator m)

module _ (allocator : VersionAllocator) (a : VersionAssignment) (next : VersionAllocator)
    (round : Restores allocator a next) where
  round-kept : (m : ℕ) (k : Text) (b : VersionAssignment) → Holds allocator m k b → Holds next m k b
  round-kept m k b h = rw (round.written m) (elim (Bool-cases (a.major == m)) [
    | inl same ↦ rw same (
        kept-restored (allocations_of allocator a.major) a round.absent k b
          (rw ((nat_beq_iff a.major m).0 same) h))
    | inr different ↦ rw different h
  ])

  round-found : Holds next a.major (key a.commit_sha a.attempt) a
  round-found = rw (round.written a.major) (
      rw ((nat_beq_iff a.major a.major).1 refl)
        (found-restored (allocations_of allocator a.major) a round.absent))

  round_cases :
      (m : ℕ) (k : Text) (b : VersionAssignment)
      → Holds next m k b
      → (b ≡ a) ⊎ Holds allocator m k b
  round_cases m k b h = elim (Bool-cases (a.major == m)) [
    | inl same ↦
        elim (restored_cases (allocations_of allocator a.major) a round.absent k b
          (rw (round.written m, same) at h)) [
            | inl (at_key, new) ↦ inl new
            | inr old ↦ inr (rw (← (nat_beq_iff a.major m).0 same) old)
          ]
    | inr different ↦ inr (rw (round.written m, different) at h)
  ]

  round-IsOpen : IsOpen allocator → IsOpen next
  round-IsOpen ledgers m =
      subst (IsOpenLedger m) (sym (round.written m)) (elim (Bool-cases (a.major == m)) [
        | inl same ↦ rw same (
            subst (λ n. IsOpenLedger n (restored (allocations_of allocator a.major) a))
              ((nat_beq_iff a.major m).0 same)
              (restored-IsOpenLedger (allocations_of allocator a.major) a round.absent
                (ledgers a.major) round.version_eq round.inputs.committed_at_safe))
        | inr different ↦ rw different (ledgers m)
      ])

-- What the loop of `fromSnapshot` has done when it returned.
pub record IsRestored (from : VersionAllocator) (stored : List VersionAssignment)
    (out : VersionAllocator) : Type 0 where
  pub kept : (m : ℕ) (k : Text) (b : VersionAssignment) → Holds from m k b → Holds out m k b
  pub found :
      (a : VersionAssignment) → In a stored → Holds out a.major (key a.commit_sha a.attempt) a
  pub cases :
      (m : ℕ) (k : Text) (b : VersionAssignment) → Holds out m k b → In b stored ⊎ Holds from m k b
  pub ledgers : IsOpen from → IsOpen out
  pub keyed : IsKeyed from → IsKeyed out
  pub attained : IsAllAttained from → IsAllAttained out
  pub safe : (a : VersionAssignment) → In a stored → a.sequence ≤ max_safe_integer

pub restore_all-IsRestored :
    (from : VersionAllocator) (stored : List VersionAssignment) (out : VersionAllocator)
    → restore_all from stored ≡ ok out
    → IsRestored from stored out
unfolding restore_all
restore_all-IsRestored from [] out h =
    let same : from ≡ out = cc in
    subst (IsRestored from []) same (record {
      kept = λ m k b e. e;
      found = λ a i. absurd (not-In-nil i);
      cases = λ m k b e. inr e;
      ledgers = λ l. l;
      keyed = λ l. l;
      attained = λ l. l;
      safe = λ a i. absurd (not-In-nil i);
    })
restore_all-IsRestored from (a ∷ rest) out h =
    let (next, e, later) = >>=-eq-ok (restore from a) _ h in
    let round = restore-Restores from a next e in
    let behind = restore_all-IsRestored next rest out later in
    record {
      kept = λ m k b held. behind.kept m k b (round-kept from a next round m k b held);
      found = λ b i. elim (In-cons_cases i) [
        | inl same ↦
            rw same
              (behind.kept a.major (key a.commit_sha a.attempt) a (round-found from a next round))
        | inr j ↦ behind.found b j
      ];
      cases = λ m k b held. elim (behind.cases m k b held) [
        | inl i ↦ inl (there i)
        | inr earlier ↦ elim (round_cases from a next round m k b earlier) [
          | inl same ↦ inl (rw same here)
          | inr old ↦ inr old
        ]
      ];
      ledgers = λ l. behind.ledgers (round-IsOpen from a next round l);
      keyed = λ l. behind.keyed (round.keyed l);
      attained = λ l. behind.attained (Restores-IsAllAttained from a next round l);
      safe = λ b i. elim (In-cons_cases i) [
        | inl same ↦ rw same round.inputs.committed_at_safe
        | inr j ↦ behind.safe b j
      ];
    }

allocations_of-found :
    (allocator : VersionAllocator) (m : ℕ) (al : MajorAllocations)
    → get allocator.majors m ≡ some al
    → allocations_of allocator m ≡ al
unfolding allocations_of
allocations_of-found allocator m al e = rw (e, allocations_of) refl

allocations_of-missing :
    (allocator : VersionAllocator) (m : ℕ)
    → get allocator.majors m ≡ none
    → allocations_of allocator m ≡ no_allocations
unfolding allocations_of
allocations_of-missing allocator m e = rw (e, allocations_of) refl

module _ (le : Text → Text → Bool) (allocator : VersionAllocator) where
  -- The assignments of a snapshot are those that the allocator holds.
  pub In-snapshot_to :
      IsKeyed allocator
      → (a : VersionAssignment) → In a (snapshot le allocator).assignments
      → (m : ℕ) × (k : Text) × Holds allocator m k a
  unfolding snapshot
  In-snapshot_to keyed a i =
      let (al, at_al, at_a) =
        In-flat_map_to (λ al. values al.assignments) (values allocator.majors)
          (In-sort_by_to _ _ i) in
      let (m, at_m) = In-values_key allocator.majors at_al in
      let (k, at_k) = In-values_key al.assignments at_a in
      let found = In-get allocator.majors keyed.majors at_m in
      (
        m,
        k,
        ap (λ x. get x.assignments k) (allocations_of-found allocator m al found)
            ∙ In-get al.assignments (keyed.assignments m al found) at_k,
      )

  pub In-snapshot_from :
      (m : ℕ) (k : Text) (a : VersionAssignment)
      → Holds allocator m k a
      → In a (snapshot le allocator).assignments
  unfolding snapshot get
  In-snapshot_from m k a held = elim (Option-cases (get allocator.majors m)) [
    | inl e ↦ let nothing = rw (allocations_of-missing allocator m e) at held in absurd (cc)
    | inr (al, e) ↦ In-sort_by_from _ _ (
        In-flat_map_from (λ al. values al.assignments) (values allocator.majors)
          (get-In-values allocator.majors m e)
          (get-In-values al.assignments k (rw (allocations_of-found allocator m al e) at held)))
  ]

nothing_held : (m : ℕ) (k : Text) (a : VersionAssignment) → ¬ Holds new_allocator m k a
unfolding allocations_of get
nothing_held m k a e = cc

-- Whatever was stored: an allocator that is read back has distinct keys, and marks that are sequence
-- numbers.
pub from_snapshot-IsKeyed :
    (stored : VersionAllocatorSnapshot) (out : VersionAllocator)
    → from_snapshot stored ≡ ok out
    → IsKeyed out × IsAllAttained out
unfolding from_snapshot
from_snapshot-IsKeyed stored out h =
    let restored = restore_all-IsRestored new_allocator stored.assignments out h in
    (restored.keyed new_allocator-IsKeyed, restored.attained new_allocator-IsAllAttained)

-- A snapshot that is read back has safe sequence numbers only.
pub from_snapshot-IsAllSafe :
    (le : Text → Text → Bool) (allocator out : VersionAllocator)
    → IsAllAttained allocator
    → from_snapshot (snapshot le allocator) ≡ ok out
    → IsAllSafe allocator
unfolding from_snapshot
from_snapshot-IsAllSafe le allocator out attained h =
    let restored = restore_all-IsRestored new_allocator (snapshot le allocator).assignments out h in
    IsAllAttained-IsAllSafe allocator attained
      (λ m k a held. restored.safe a (In-snapshot_from le allocator m k a held))

-- An allocator that was read back from the snapshot of another.
pub record IsReadBack (allocator out : VersionAllocator) : Type 0 where
  pub valid : IsValid out
  pub keyed : IsKeyed out
  pub same : (m : ℕ) (k : Text) (a : VersionAssignment) → Holds allocator m k a ↔ Holds out m k a

module _ (le : Text → Text → Bool) (allocator out : VersionAllocator) (valid : IsValid allocator)
    (keyed : IsKeyed allocator) (h : from_snapshot (snapshot le allocator) ≡ ok out) where
  abbrev restores : IsRestored new_allocator (snapshot le allocator).assignments out
  restores =
      restore_all-IsRestored new_allocator (snapshot le allocator).assignments out
        (unfold from_snapshot in h)

  ledgers_out : IsOpen out
  unfolding allocations_of get
  ledgers_out = restores.ledgers (λ m. no_allocations-IsOpenLedger m)

  held_out : (m : ℕ) (k : Text) (a : VersionAssignment) → Holds allocator m k a → Holds out m k a
  held_out m k a held =
      let entry = (valid.ledger m).entries k a held in
      let found = restores.found a (In-snapshot_from le allocator m k a held) in
      rw (← entry.major_eq, entry.keyed) found

  held_in : (m : ℕ) (k : Text) (a : VersionAssignment) → Holds out m k a → Holds allocator m k a
  held_in m k a held = elim (restores.cases m k a held) [
    | inr none_new ↦ absurd (nothing_held m k a none_new)
    | inl i ↦
        let (n, j, was) = In-snapshot_to le allocator keyed a i in
        let entry = (valid.ledger n).entries j a was in
        let here_ = (ledgers_out m).entries k a held in
        let majors : n ≡ m = sym entry.major_eq ∙ here_.major_eq in
        let keys : j ≡ k = entry.keyed ∙ sym here_.keyed in rw (← majors, ← keys) was
  ]

  pub from_snapshot-IsReadBack : IsReadBack allocator out
  from_snapshot-IsReadBack = record {
    valid = record {
      ledger = λ m. record {
        entries = (ledgers_out m).entries;
        currents = (ledgers_out m).currents;
        distinct = λ j k a b at_a at_b same.
            (valid.ledger m).distinct j k a b (held_in m j a at_a) (held_in m k b at_b) same;
        safe = (ledgers_out m).safe;
      };
    };
    keyed = restores.keyed new_allocator-IsKeyed;
    same = λ m k a. (held_out m k a, held_in m k a);
  }
