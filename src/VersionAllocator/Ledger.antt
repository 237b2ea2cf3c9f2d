-- ===== src/VersionAllocator/Ledger.antt =====
-- The invariant of the allocations of one major in src/version-allocator.ts, and `#append`.
use jsrproxy.Common.{
  ℕ, ◌≤◌, ◌<◌, ◌≡◌, ◌≢◌, refl, ◌∙◌, inl, inr, Option, none, some, Text, arith, if◌then◌else◌, max,
  max_safe_integer, text_eq, ◌==◌, text_beq-eq, Bool-cases,
}
use jsrproxy.Common.Map.{get, get-set, get-set_self}
use jsrproxy.VersionAllocator.{
  VersionAssignment, MajorAllocations, no_allocations, key, version_text, appended,
  after_high_water,
}
use jsrproxy.VersionAllocator.Keys.{key_inj}

-- `sequence` is not above the high-water mark.
abbrev pub Reaches : ℕ → Option ℕ → Type 0
Reaches sequence none = ⊥
Reaches sequence (some high_water) = sequence ≤ high_water

-- The high-water mark is a safe integer.
abbrev pub IsSafe : Option ℕ → Type 0
IsSafe none = Unit
IsSafe (some high_water) = high_water ≤ max_safe_integer

-- An assignment that stands at key `k` in the ledger of `major`.
pub record IsEntry (major : ℕ) (allocations : MajorAllocations) (k : Text) (a : VersionAssignment)
    : Type 0 where
  pub keyed : k ≡ key a.commit_sha a.attempt
  pub major_eq : a.major ≡ major
  pub version_eq : a.version ≡ version_text major a.sequence
  pub below : Reaches a.sequence allocations.high_water
  pub latest : ℕ
  pub latest_eq : get allocations.current_attempts a.commit_sha ≡ some latest
  pub superseded : a.attempt ≤ latest

-- The assignment that is current for a commit.
pub record IsCurrent (allocations : MajorAllocations) (commit_sha : Text) (attempt : ℕ)
    : Type 0 where
  pub assignment : VersionAssignment
  pub found : get allocations.assignments (key commit_sha attempt) ≡ some assignment

pub record IsLedger (major : ℕ) (allocations : MajorAllocations) : Type 0 where
  pub entries :
      (k : Text) (a : VersionAssignment)
      → get allocations.assignments k ≡ some a
      → IsEntry major allocations k a
  pub currents :
      (s : Text) (n : ℕ) → get allocations.current_attempts s ≡ some n → IsCurrent allocations s n
  pub distinct :
      (j k : Text) (a b : VersionAssignment)
      → get allocations.assignments j ≡ some a
      → get allocations.assignments k ≡ some b
      → a.sequence ≡ b.sequence
      → j ≡ k
  pub safe : IsSafe allocations.high_water

pub no_allocations-IsLedger : (major : ℕ) → IsLedger major no_allocations
unfolding get
no_allocations-IsLedger major = record {
  entries = λ k a e. cc;
  currents = λ s n e. cc;
  distinct = λ j k a b e f g. cc;
  safe = tt;
}

pub after_high_water-above :
    (s : ℕ) (o : Option ℕ) → Reaches s o → IsSafe o → s < after_high_water o
unfolding after_high_water
after_high_water-above s none r safe = absurd r
after_high_water-above s (some h) r safe = ground arith

pub max-right : (a b : ℕ) → b ≤ max a b
max-right a b = ground arith

pub max-left : (a b : ℕ) → a ≤ max a b
max-left a b = ground arith

-- The attempt that `#append` is called with: the first, or the one after the current one.
abbrev pub IsNext : MajorAllocations → Text → ℕ → Type 0
IsNext allocations commit_sha attempt =
    (n : ℕ) → get allocations.current_attempts commit_sha ≡ some n → n < attempt

module _ (major : ℕ) (allocations : MajorAllocations) (commit_sha : Text) (committed_at attempt : ℕ)
    (ledger : IsLedger major allocations) (next : IsNext allocations commit_sha attempt) where
  abbrev result : VersionAssignment × MajorAllocations
  result = appended allocations major commit_sha committed_at attempt

  -- The key of the new assignment is not in the ledger.
  pub fresh :
      (a : VersionAssignment) → get allocations.assignments (key commit_sha attempt) ≢ some a
  fresh a e =
      let entry = ledger.entries (key commit_sha attempt) a e in
      let (sha, n) = key_inj commit_sha a.commit_sha attempt a.attempt entry.keyed in
      let latest = next entry.latest (rw sha entry.latest_eq) in
      let old = entry.superseded in absurd (omega (arith, latest, old, n))

  -- The new sequence number is above all of the ledger.
  pub appended-above :
      (k : Text) (a : VersionAssignment)
      → get allocations.assignments k ≡ some a
      → a.sequence < result.0.sequence
  unfolding appended after_high_water
  appended-above k a e =
      let lower =
        after_high_water-above a.sequence allocations.high_water (ledger.entries k a e).below
          ledger.safe in
      omega (arith, lower, max-right committed_at (after_high_water allocations.high_water))

  pub result-IsEntry : IsEntry major result.1 (key commit_sha attempt) result.0
  unfolding appended
  result-IsEntry = record {
    keyed = refl;
    major_eq = refl;
    version_eq = refl;
    below = omega arith;
    latest = attempt;
    latest_eq = get-set_self allocations.current_attempts commit_sha attempt;
    superseded = omega arith;
  }

  -- An entry of the ledger stays one.
  pub kept-IsEntry :
      (k : Text) (a : VersionAssignment)
      → get allocations.assignments k ≡ some a
      → IsEntry major result.1 k a
  unfolding appended
  kept-IsEntry k a e = elim (Bool-cases (commit_sha == a.commit_sha)) [
    | inl same ↦ of_latest attempt (rw same at get_attempt) (
        omega (
          arith,
          next entry.latest (rw (text_beq-eq commit_sha a.commit_sha same) entry.latest_eq),
          entry.superseded,
        ))
    | inr other ↦
        of_latest entry.latest ((rw other at get_attempt) ∙ entry.latest_eq) entry.superseded
  ]
    where
      entry : IsEntry major allocations k a
      entry = ledger.entries k a e

      get_attempt : get result.1.current_attempts a.commit_sha ≡ (
          if commit_sha == a.commit_sha
          then some attempt
          else get allocations.current_attempts a.commit_sha)
      get_attempt = get-set allocations.current_attempts commit_sha a.commit_sha attempt

      of_latest :
          (n : ℕ)
          → get result.1.current_attempts a.commit_sha ≡ some n
          → a.attempt ≤ n
          → IsEntry major result.1 k a
      of_latest n at_n bound = record {
        keyed = entry.keyed;
        major_eq = entry.major_eq;
        version_eq = entry.version_eq;
        below = omega (arith, appended-above k a e);
        latest = n;
        latest_eq = at_n;
        superseded = bound;
      }
