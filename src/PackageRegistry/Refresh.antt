-- ===== src/PackageRegistry/Refresh.antt =====
-- `refresh` of src/package-registry.ts: what one pass over the branches does to the registry.
use jsrproxy.Common.{
  ◌≤◌, ◌≡◌, refl, sym, ap, subst, inl, inr, none, some, Text, arith, max_safe_integer, text_eq,
  nat_eq, ◌==◌, Bool-cases, ok, text_beq-eq,
}
use jsrproxy.Common.Map.{Map, get, set, get-set}
use jsrproxy.Branches.{SelectedBranch}
use jsrproxy.VersionAllocator.{VersionAssignment, VersionAllocator, key, allocate}
use jsrproxy.VersionAllocator.View.{allocations_of}
use jsrproxy.VersionAllocator.Calls.{Finds, Appends, allocate_cases}
use jsrproxy.VersionAllocator.Laws.{IsNext-first}
use jsrproxy.PackageRegistry.Records.{VersionRecord, PackageRegistry}
use jsrproxy.PackageRegistry.{pending_record, enter, Refreshed}
use jsrproxy.PackageRegistry.Consistency.{
  IsConsistent, added_absent, added-IsConsistent, Finds-IsConsistent,
}

-- Every record of `versions` is in `versions'`, unchanged.
abbrev pub Extends : Map Text VersionRecord → Map Text VersionRecord → Type 0
Extends versions versions' =
    (v : Text) (r : VersionRecord) → get versions v ≡ some r → get versions' v ≡ some r

abbrev pub IsConsistentRegistry : PackageRegistry → Type 0
IsConsistentRegistry registry = IsConsistent registry.allocator registry.versions

pub enter-allocator :
    (branch : SelectedBranch) (assignment : VersionAssignment) (allocator : VersionAllocator)
    (refreshed : Refreshed)
    → (enter branch assignment allocator refreshed).0.allocator ≡ allocator
unfolding enter
enter-allocator branch assignment allocator refreshed = ground arith

pub enter-found :
    (branch : SelectedBranch) (assignment : VersionAssignment) (allocator : VersionAllocator)
    (refreshed : Refreshed) (r : VersionRecord)
    → get refreshed.0.versions assignment.version ≡ some r
    → enter branch assignment allocator refreshed
      ≡ (record refreshed.0 { allocator = allocator }, refreshed.1)
unfolding enter
enter-found branch assignment allocator refreshed r e = rw (e, enter) refl

enter-absent :
    (branch : SelectedBranch) (assignment : VersionAssignment) (allocator : VersionAllocator)
    (refreshed : Refreshed)
    → get refreshed.0.versions assignment.version ≡ none
    → (enter branch assignment allocator refreshed).0.versions
      ≡ set refreshed.0.versions assignment.version
          (pending_record assignment branch.branch branch.tip.sha branch.major)
unfolding enter
enter-absent branch assignment allocator refreshed e = rw (e, enter) refl

pub Extends-set :
    (versions : Map Text VersionRecord) (k : Text) (new : VersionRecord)
    → get versions k ≡ none
    → Extends versions (set versions k new)
Extends-set versions k new absent v r e = elim (Bool-cases (k == v)) [
  | inl same ↦
      let name : k ≡ v = text_beq-eq k v same in absurd (cc (absent, ap (get versions) name, e))
  | inr different ↦ rw (get-set, different) e
]

-- What a round of the loop keeps.
pub record Round (before after : PackageRegistry) : Type 0 where
  pub consistent : IsConsistentRegistry after
  pub extends : Extends before.versions after.versions

module _ (branch : SelectedBranch) (refreshed : Refreshed) (assignment : VersionAssignment)
    (allocator : VersionAllocator) (consistent : IsConsistentRegistry refreshed.0)
    (allocated : allocate refreshed.0.allocator branch.major branch.tip.sha branch.tip.committed_at
      ≡ ok (assignment, allocator))
    (fits : assignment.sequence ≤ max_safe_integer) where
  abbrev pub after : PackageRegistry
  after = (enter branch assignment allocator refreshed).0

  Round-found :
      Finds refreshed.0.allocator branch.major branch.tip.sha assignment allocator
      → Round refreshed.0 after
  Round-found finds =
      let has_record =
        consistent.complete branch.major (key branch.tip.sha finds.attempt) assignment
          finds.found in
      let same =
        enter-found branch assignment allocator refreshed has_record.version_record
          has_record.found in
      subst (λ e. Round refreshed.0 e.0) (sym same)
        (record {
          consistent =
              Finds-IsConsistent refreshed.0.allocator refreshed.0.versions branch.major
                branch.tip.sha assignment allocator consistent finds;
          extends = λ v r e. e;
        })

  Round-added :
      get (allocations_of refreshed.0.allocator branch.major).current_attempts branch.tip.sha ≡ none
      → Appends refreshed.0.allocator branch.major branch.tip.sha branch.tip.committed_at 0
          assignment allocator
      → Round refreshed.0 after
  Round-added unassigned appends =
      let next =
        IsNext-first (allocations_of refreshed.0.allocator branch.major) branch.tip.sha
          unassigned in
      let absent =
        added_absent refreshed.0.allocator refreshed.0.versions consistent branch.major
          branch.tip.sha branch.tip.committed_at 0 assignment allocator appends next in
      let added =
        added-IsConsistent refreshed.0.allocator refreshed.0.versions consistent branch.major
          branch.tip.sha branch.tip.committed_at 0 assignment allocator appends next branch.branch
          fits in
      let versions = enter-absent branch assignment allocator refreshed absent in
      record {
        consistent =
            subst (λ a. IsConsistent a after.versions)
              (sym (enter-allocator branch assignment allocator refreshed))
              (subst (IsConsistent allocator) (sym versions) added);
        extends =
            subst (Extends refreshed.0.versions) (sym versions)
              (Extends-set refreshed.0.versions assignment.version _ absent);
      }

  pub round : Round refreshed.0 after
  round =
      elim (allocate_cases refreshed.0.allocator branch.major branch.tip.sha branch.tip.committed_at
        assignment allocator allocated) [
          | inl finds ↦ Round-found finds
          | inr (unassigned, appends) ↦ Round-added unassigned appends
        ]
