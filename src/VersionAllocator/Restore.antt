-- ===== src/VersionAllocator/Restore.antt =====
-- One round of the loop of `fromSnapshot` in src/version-allocator.ts.
use jsrproxy.Common.{
  ℕ, ◌≡◌, sym, ap, subst, ◌∙◌, inl, inr, true, false, none, some, Text, if◌then◌else◌,
  max_safe_integer, text_eq, nat_eq, ◌==◌, >>=-eq-ok, Option-cases, ok, require, require-ok,
  text_beq-eq, not, leb,
}
use mathlib.Core.Bool.{false≢true}
use jsrproxy.Common.Map.{Map, get, set, has, IsMap-set}
use jsrproxy.VersionAllocator.{
  VersionAssignment, VersionAllocator, key, version_text, validate_inputs, for_major, restored,
  restore,
}
use jsrproxy.VersionAllocator.View.{
  allocations_of, for_major_found, for_major_entered, allocations_of-set, AreInputs,
  validate_inputs_iff,
}
use jsrproxy.VersionAllocator.Keyed.{IsKeyed, set-IsKeyed, for_major-IsKeyed}

-- What a round that did not throw has tested and written.
pub record Restores (allocator : VersionAllocator) (a : VersionAssignment) (next : VersionAllocator)
    : Type 0 where
  pub inputs : AreInputs a.major a.commit_sha a.sequence
  pub version_eq : a.version ≡ version_text a.major a.sequence
  pub absent :
      get (allocations_of allocator a.major).assignments (key a.commit_sha a.attempt) ≡ none
  pub written :
      (m : ℕ)
      → allocations_of next m ≡ (
          if a.major == m
          then restored (allocations_of allocator a.major) a
          else allocations_of allocator m)
  pub keyed : IsKeyed allocator → IsKeyed next

absent_by_test : {V : Type 0} (m : Map Text V) (k : Text) → not (has m k) ≡ true → get m k ≡ none
absent_by_test m k h = elim (Option-cases (get m k)) [
  | inl e ↦ e
  | inr (v, e) ↦
      absurd (false≢true (subst (λ o. not (elim o [ none ↦ false | some w ↦ true ]) ≡ true) e h))
]

pub restore-Restores :
    (allocator : VersionAllocator) (a : VersionAssignment) (next : VersionAllocator)
    → restore allocator a ≡ ok next
    → Restores allocator a next
unfolding restore
restore-Restores allocator a next h =
    let (u, validated, h1) = >>=-eq-ok (validate_inputs a.major a.commit_sha a.sequence) _ h in
    let (u2, attempt, h2) = >>=-eq-ok (require (leb a.attempt max_safe_integer) _) _ h1 in
    let (u3, version, h3) =
      >>=-eq-ok (require (a.version == version_text a.major a.sequence) _) _ h2 in
    let (u4, fresh, h4) =
      >>=-eq-ok
        (require
          (not (has (for_major allocator a.major).0.assignments (key a.commit_sha a.attempt))) _)
        _ h3 in
    let entered = (for_major allocator a.major).1 in
    let found = (for_major allocator a.major).0 in
    let next_eq : ◌≡◌ {A = VersionAllocator}
        (record { majors = set entered.majors a.major (restored found a) }) next =
      cc in
    record {
      inputs = (validate_inputs_iff a.major a.commit_sha a.sequence).0 validated;
      version_eq = text_beq-eq _ _ (require-ok _ _ version);
      absent =
          rw (for_major_found allocator a.major) at (absent_by_test _ _ (require-ok _ _ fresh));
      written = λ m.
          ap (λ x. allocations_of x m) (sym next_eq)
          ∙ allocations_of-set entered a.major m (restored found a)
          ∙ ap (λ f. if a.major == m then restored f a else allocations_of entered m)
              (for_major_found allocator a.major)
          ∙ ap (λ x. if a.major == m then restored (allocations_of allocator a.major) a else x)
              (for_major_entered allocator a.major m);
      keyed = λ k.
          let (distinct, keys) = for_major-IsKeyed allocator a.major k in
          subst IsKeyed next_eq (
            set-IsKeyed entered a.major (restored found a) keys (
              unfold restored in
              IsMap-set found.assignments (key a.commit_sha a.attempt) a distinct));
    }
