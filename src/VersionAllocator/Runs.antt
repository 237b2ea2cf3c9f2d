-- ===== src/VersionAllocator/Runs.antt =====
-- Any run of the allocator of src/version-allocator.ts whose numbers stay safe.
use jsrproxy.Common.{
  ℕ, suc, ◌+◌, ◌≤◌, ◌≡◌, subst, inl, inr, Option, none, some, [], Text, arith, max,
  max_safe_integer, text_eq, nat_eq, ◌==◌, Bool-cases, ok, err, Result,
}
use jsrproxy.Common.Map.{get}
use jsrproxy.VersionAllocator.{
  VersionAssignment, VersionAllocator, new_allocator, key, appended, allocate, recover,
}
use jsrproxy.VersionAllocator.View.{allocations_of, IsValid}
use jsrproxy.VersionAllocator.Calls.{Finds, Appends, allocate_cases, recover_cases}
use jsrproxy.VersionAllocator.{after_high_water}
use jsrproxy.VersionAllocator.Laws.{allocate-IsValid, recover-IsValid}
use native.Mathlib.Nat.{add-zero}
use jsrproxy.VersionAllocator.Ledger.{Reaches}
use jsrproxy.VersionAllocator.View.{new_allocator-IsValid}
use jsrproxy.Common.{Result-cases, length, List, ◌∷◌, All}

-- One call of the allocator.
pub data Call : Type 0 where
  allocates : ℕ → Text → ℕ → Call
  recovers : ℕ → Text → ℕ → Call

abbrev pub committed_at_of : Call → ℕ
committed_at_of (allocates major commit_sha committed_at) = committed_at
committed_at_of (recovers major commit_sha committed_at) = committed_at

abbrev pub called : VersionAllocator → Call → Result (VersionAssignment × VersionAllocator)
called allocator (allocates major commit_sha committed_at) =
    allocate allocator major commit_sha committed_at
called allocator (recovers major commit_sha committed_at) =
    recover allocator major commit_sha committed_at

-- The calls in turn; a call that throws leaves the allocator as it was.
unfoldable pub run : VersionAllocator → List Call → VersionAllocator
run allocator [] = allocator
run allocator (call ∷ rest) =
    run (elim (called allocator call) [ ok result ↦ result.1 | err e ↦ allocator ]) rest

-- No high-water mark is above `bound`.
abbrev pub AtMost : ℕ → Option ℕ → Type 0
AtMost bound none = Unit
AtMost bound (some high_water) = high_water ≤ bound

pub record IsBounded (bound : ℕ) (allocator : VersionAllocator) : Type 0 where
  pub high_waters : (major : ℕ) → AtMost bound (allocations_of allocator major).high_water

-- No commit is later than `bound`.
abbrev pub NoLater : ℕ → List Call → Type 0
NoLater bound = All (λ call. committed_at_of call ≤ bound)

AtMost-mono : (bound : ℕ) (o : Option ℕ) → AtMost bound o → AtMost (bound + 1) o
AtMost-mono bound none h = tt
AtMost-mono bound (some high_water) h = omega arith

Reaches-AtMost : (s bound : ℕ) (o : Option ℕ) → Reaches s o → AtMost bound o → s ≤ bound
Reaches-AtMost s bound none r h = absurd r
Reaches-AtMost s bound (some high_water) r h = omega arith

module _ (bound : ℕ) (allocator : VersionAllocator) (bounded : IsBounded bound allocator) where
  appended-AtMost :
      (major : ℕ) (commit_sha : Text) (committed_at attempt : ℕ)
      → committed_at ≤ bound
      → (appended (allocations_of allocator major) major commit_sha committed_at attempt).0.sequence
        ≤ bound + 1
  unfolding appended after_high_water
  appended-AtMost major commit_sha committed_at attempt early =
      at_most (allocations_of allocator major).high_water (bounded.high_waters major)
    where
      at_most : (o : Option ℕ) → AtMost bound o → max committed_at (after_high_water o) ≤ bound + 1
      at_most none h = ground arith
      at_most (some high_water) h = ground arith

  Appends-IsBounded :
      (major : ℕ) (commit_sha : Text) (committed_at attempt : ℕ) (assignment : VersionAssignment)
      (allocator' : VersionAllocator)
      → Appends allocator major commit_sha committed_at attempt assignment allocator'
      → committed_at ≤ bound
      → (assignment.sequence ≤ bound + 1) × IsBounded (bound + 1) allocator'
  Appends-IsBounded major commit_sha committed_at attempt assignment allocator' appends early =
      let fits = appended-AtMost major commit_sha committed_at attempt early in
      (
        rw appends.assigned fits,
        record {
          high_waters = λ other. rw (appends.written other) (elim (Bool-cases (major == other)) [
            | inl same ↦ rw same (unfold appended in fits)
            | inr different ↦ rw different (
                AtMost-mono bound (allocations_of allocator other).high_water
                  (bounded.high_waters other))
          ]);
        },
      )

  Finds-IsBounded :
      (major : ℕ) (commit_sha : Text) (assignment : VersionAssignment)
      (allocator' : VersionAllocator)
      → IsValid allocator
      → Finds allocator major commit_sha assignment allocator'
      → (assignment.sequence ≤ bound) × IsBounded bound allocator'
  Finds-IsBounded major commit_sha assignment allocator' valid finds =
      let entry =
        (valid.ledger major).entries (key commit_sha finds.attempt) assignment finds.found in
      (
        Reaches-AtMost assignment.sequence bound (allocations_of allocator major).high_water
            entry.below (bounded.high_waters major),
        record { high_waters = λ other. rw (finds.unchanged other) (bounded.high_waters other) },
      )

  IsBounded-suc : IsBounded (bound + 1) allocator
  IsBounded-suc = record {
    high_waters = λ major.
        AtMost-mono bound (allocations_of allocator major).high_water (bounded.high_waters major);
  }

-- What each call keeps while the numbers stay safe.
pub record IsSound (bound : ℕ) (allocator : VersionAllocator) : Type 0 where
  pub valid : IsValid allocator
  pub bounded : IsBounded bound allocator

called-IsSound :
    (bound : ℕ) (allocator : VersionAllocator) (call : Call) (assignment : VersionAssignment)
    (allocator' : VersionAllocator)
    → IsSound bound allocator
    → committed_at_of call ≤ bound
    → bound + 1 ≤ max_safe_integer
    → called allocator call ≡ ok (assignment, allocator')
    → IsSound (bound + 1) allocator'
called-IsSound bound allocator (allocates major commit_sha committed_at) assignment allocator' sound
      early safe h =
    elim (allocate_cases allocator major commit_sha committed_at assignment allocator' h) [
      | inl finds ↦
          let (fits, bounded) =
            Finds-IsBounded bound allocator sound.bounded major commit_sha assignment allocator'
              sound.valid finds in
          record {
            valid =
                allocate-IsValid allocator major commit_sha committed_at assignment allocator'
                  sound.valid h (omega (arith, fits));
            bounded = IsBounded-suc bound allocator' bounded;
          }
      | inr (_, appends) ↦
          let (fits, bounded) =
            Appends-IsBounded bound allocator sound.bounded major commit_sha committed_at 0
              assignment allocator' appends early in
          record {
            valid =
                allocate-IsValid allocator major commit_sha committed_at assignment allocator'
                  sound.valid h (omega (arith, fits));
            bounded = bounded;
          }
    ]
called-IsSound bound allocator (recovers major commit_sha committed_at) assignment allocator' sound
      early safe h =
    let (n, _, appends) =
      recover_cases allocator major commit_sha committed_at assignment allocator' h in
    let (fits, bounded) =
      Appends-IsBounded bound allocator sound.bounded major commit_sha committed_at (n + 1)
        assignment allocator' appends early in
    record {
      valid =
          recover-IsValid allocator major commit_sha committed_at assignment allocator' sound.valid
            h (omega (arith, fits));
      bounded = bounded;
    }

NoLater-suc : (bound : ℕ) (calls : List Call) → NoLater bound calls → NoLater (bound + 1) calls
NoLater-suc bound [] h = tt
NoLater-suc bound (call ∷ rest) h = (omega (arith, h.0), NoLater-suc bound rest h.1)

run-IsSound :
    (bound : ℕ) (allocator : VersionAllocator) (calls : List Call)
    → IsSound bound allocator
    → NoLater bound calls
    → bound + length calls ≤ max_safe_integer
    → IsSound (bound + length calls) (run allocator calls)
unfolding run
run-IsSound bound allocator [] sound early safe = rw add-zero sound
run-IsSound bound allocator (call ∷ rest) sound early safe =
    let further : (next : VersionAllocator)
        → IsSound (bound + 1) next
        → IsSound (bound + suc (length rest)) (run next rest) =
      λ next s.
        subst (λ n. IsSound n (run next rest)) (omega arith)
          (run-IsSound (bound + 1) next rest s (NoLater-suc bound rest early.1) (omega arith)) in
    elim (Result-cases (called allocator call)) [
      | inl ((assignment, allocator'), e) ↦ rw e (
          further allocator' (
            called-IsSound bound allocator call assignment allocator' sound early.0 (omega arith)
              e))
      | inr (thrown, e) ↦ rw e (
          further allocator
            (record { valid = sound.valid; bounded = IsBounded-suc bound allocator sound.bounded }))
    ]

-- From a new allocator, any calls for commits no later than `bound` keep all ledgers, and no
-- sequence number passes `bound` by more than the number of calls, as long as that sum is a safe
-- integer.
pub run-IsValid :
    (bound : ℕ) (calls : List Call)
    → NoLater bound calls
    → bound + length calls ≤ max_safe_integer
    → IsSound (bound + length calls) (run new_allocator calls)
run-IsValid bound calls early safe =
    run-IsSound bound new_allocator calls
      (record {
        valid = new_allocator-IsValid;
        bounded = record { high_waters = λ major. unfold allocations_of get in tt };
      })
      early safe
