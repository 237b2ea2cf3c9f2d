-- ===== src/PackageRegistry/Consistency.antt =====
-- The invariant of src/package-registry.ts: records and assignments correspond.
use jsrproxy.Common.{
  ℕ, ◌≤◌, ◌≡◌, refl, sym, ap, subst, inl, inr, none, some, [], Text, max_safe_integer, text_eq,
  nat_eq, ◌==◌, Bool-cases, Option-cases, text_beq-eq,
}
use jsrproxy.Common.Map.{Map, get, set, get-set, get-set_self, get-set_cases, IsMap, IsMap-set}
use jsrproxy.VersionAllocator.{VersionAssignment, VersionAllocator, new_allocator, key}
use jsrproxy.VersionAllocator.Ledger.{IsNext}
use jsrproxy.VersionAllocator.View.{allocations_of, IsValid, new_allocator-IsValid}
use jsrproxy.VersionAllocator.Calls.{Finds, Appends, Appends-fields}
use jsrproxy.VersionAllocator.Assignments.{Appends-IsValid}
use jsrproxy.VersionAllocator.Laws.{Appends-fresh, Finds-IsValid}
use jsrproxy.VersionAllocator.Entries.{Holds, Appends-kept, Appends-found, Appends-cases}
use jsrproxy.PackageRegistry.Records.{VersionRecord}
use jsrproxy.PackageRegistry.{pending_record}

-- A record that stands under `version` and whose assignment the allocator holds.
pub record IsRecord (allocator : VersionAllocator) (version : Text) (r : VersionRecord)
    : Type 0 where
  pub version_eq : r.version ≡ version
  pub assigned_version : r.assignment.version ≡ version
  pub sha_eq : r.assignment.commit_sha ≡ r.commit_sha
  pub held : Holds allocator r.major (key r.commit_sha r.assignment.attempt) r.assignment

-- The record of an assignment.
pub record HasRecord (versions : Map Text VersionRecord) (a : VersionAssignment) : Type 0 where
  pub version_record : VersionRecord
  pub found : get versions a.version ≡ some version_record
  pub same : version_record.assignment ≡ a

pub record IsConsistent (allocator : VersionAllocator) (versions : Map Text VersionRecord)
    : Type 0 where
  pub valid : IsValid allocator
  pub keys : IsMap versions
  pub records :
      (version : Text) (r : VersionRecord)
      → get versions version ≡ some r
      → IsRecord allocator version r
  pub complete :
      (major : ℕ) (k : Text) (a : VersionAssignment)
      → Holds allocator major k a
      → HasRecord versions a

pub new_registry-IsConsistent : IsConsistent new_allocator []
unfolding get allocations_of
new_registry-IsConsistent = record {
  valid = new_allocator-IsValid;
  keys = tt;
  records = λ version r e. cc;
  complete = λ major k a e. cc;
}

module _ (allocator : VersionAllocator) (versions : Map Text VersionRecord)
    (consistent : IsConsistent allocator versions) (major : ℕ) (commit_sha : Text)
    (committed_at attempt : ℕ) (assignment : VersionAssignment) (allocator' : VersionAllocator)
    (appends : Appends allocator major commit_sha committed_at attempt assignment allocator')
    (next : IsNext (allocations_of allocator major) commit_sha attempt) where
  -- A new version is not in the map.
  pub added_absent : get versions assignment.version ≡ none
  added_absent = elim (Option-cases (get versions assignment.version)) [
    | inl e ↦ e
    | inr (r, e) ↦
        let old = consistent.records assignment.version r e in
        absurd (
          (Appends-fresh allocator major commit_sha committed_at assignment allocator'
              consistent.valid attempt appends next r.major (key r.commit_sha r.assignment.attempt)
              r.assignment old.held).0
            old.assigned_version)
  ]

  module _ (branch : Text) where
    abbrev new_record : VersionRecord
    new_record = pending_record assignment branch commit_sha major

    abbrev added : Map Text VersionRecord
    added = set versions assignment.version new_record

    new-IsRecord : IsRecord allocator' assignment.version new_record
    new-IsRecord = record {
      version_eq = refl;
      assigned_version = refl;
      sha_eq = fields.0;
      held =
          subst (λ n. Holds allocator' major (key commit_sha n) assignment) (sym fields.1)
            (Appends-found allocator major commit_sha committed_at attempt assignment allocator'
              consistent.valid appends next);
    }
      where
        fields :
            (assignment.commit_sha ≡ commit_sha)
            × (assignment.attempt ≡ attempt)
            × (assignment.major ≡ major)
        fields =
            Appends-fields allocator major commit_sha committed_at attempt assignment allocator'
              appends

    -- A record and its assignment are added together.
    pub added-IsConsistent : assignment.sequence ≤ max_safe_integer → IsConsistent allocator' added
    added-IsConsistent fits = record {
      valid =
          Appends-IsValid allocator major commit_sha committed_at attempt assignment allocator'
            consistent.valid appends next fits;
      keys = IsMap-set versions assignment.version new_record consistent.keys;
      records = λ version r e.
          elim (get-set_cases versions assignment.version version new_record e) [
            | inl (at_key, new) ↦ rw (at_key, new) new-IsRecord
            | inr (_, old) ↦
                let was_record = consistent.records version r old in
                record {
                  version_eq = was_record.version_eq;
                  assigned_version = was_record.assigned_version;
                  sha_eq = was_record.sha_eq;
                  held =
                      Appends-kept allocator major commit_sha committed_at attempt assignment
                        allocator' consistent.valid appends next r.major
                        (key r.commit_sha r.assignment.attempt) r.assignment was_record.held;
                }
          ];
      complete = λ m k a h.
          elim (Appends-cases allocator major commit_sha committed_at attempt assignment allocator'
            consistent.valid appends next m k a h) [
              | inl new ↦ record {
                version_record = new_record;
                found = rw new (get-set_self versions assignment.version new_record);
                same = sym new;
              }
              | inr old ↦
                  let has_record = consistent.complete m k a old in
                  record {
                    version_record = has_record.version_record;
                    found = kept_record a.version has_record.version_record has_record.found;
                    same = has_record.same;
                  }
            ];
    }
      where
        kept_record :
            (version : Text) (r : VersionRecord)
            → get versions version ≡ some r
            → get added version ≡ some r
        kept_record version r e = elim (Bool-cases (assignment.version == version)) [
          | inl same ↦
              let name : assignment.version ≡ version = text_beq-eq _ _ same in
              absurd (cc (added_absent, ap (get versions) name, e))
          | inr different ↦ rw (get-set, different) e
        ]

-- Nothing that a call found changes the correspondence.
pub Finds-IsConsistent :
    (allocator : VersionAllocator) (versions : Map Text VersionRecord) (major : ℕ)
    (commit_sha : Text) (assignment : VersionAssignment) (allocator' : VersionAllocator)
    → IsConsistent allocator versions
    → Finds allocator major commit_sha assignment allocator'
    → IsConsistent allocator' versions
Finds-IsConsistent allocator versions major commit_sha assignment allocator' consistent finds =
    record {
      valid = Finds-IsValid allocator major commit_sha assignment allocator' consistent.valid finds;
      keys = consistent.keys;
      records = λ version r e.
          let was = consistent.records version r e in
          record {
            version_eq = was.version_eq;
            assigned_version = was.assigned_version;
            sha_eq = was.sha_eq;
            held = rw (finds.unchanged r.major) was.held;
          };
      complete = λ m k a h. consistent.complete m k a (rw (finds.unchanged m) at h);
    }
