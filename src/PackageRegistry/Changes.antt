-- ===== src/PackageRegistry/Changes.antt =====
-- What a method of src/package-registry.ts does to one record.
use jsrproxy.Common.{
  ◌≡◌, refl, sym, ap, subst, ◌∙◌, inl, inr, some, Text, text_eq, nat_eq, ◌==◌, Bool-cases,
  text_beq-eq,
}
use jsrproxy.Common.Map.{Map, get, set, get-set, get-set_cases}
use jsrproxy.VersionAllocator.{VersionAssignment, VersionAllocator}
use jsrproxy.PackageRegistry.Records.{State, VersionRecord, PackageRegistry}
use jsrproxy.PackageRegistry.Consistency.{IsRecord, HasRecord}
use jsrproxy.PackageRegistry.Refresh.{Extends, IsConsistentRegistry}
use jsrproxy.Common.Map.{IsMap-set}
use jsrproxy.PackageRegistry.Records.{pending, leased, ready, yanked}
use jsrproxy.PackageRegistry.{write}

-- A job that is still to be published.
abbrev pub IsOpen : State → Type 0
IsOpen pending = Unit
IsOpen leased = Unit
IsOpen ready = ⊥
IsOpen yanked = ⊥

-- What identifies a record: all but its state, the time of its lease and its diagnostic.
pub record SameIdentity (old new : VersionRecord) : Type 0 where
  pub branch : new.branch ≡ old.branch
  pub commit_sha : new.commit_sha ≡ old.commit_sha
  pub major : new.major ≡ old.major
  pub version : new.version ≡ old.version
  pub assignment : new.assignment ≡ old.assignment

-- What may become of a record: only an open one changes, and it keeps its identity.
pub data Follows (old new : VersionRecord) : Type 0 where
  same : new ≡ old → Follows old new
  changed : IsOpen old.state → SameIdentity old new → Follows old new

-- One record is written, under its own version.
pub record Changes (before after : PackageRegistry) : Type 0 where
  pub old : VersionRecord
  pub new : VersionRecord
  pub found : get before.versions old.version ≡ some old
  pub is_open : IsOpen old.state
  pub identity : SameIdentity old new
  pub written : after ≡ write before old.version new

SameIdentity-HasRecord :
    (versions : Map Text VersionRecord) (old new : VersionRecord) (a : VersionAssignment)
    → get versions old.version ≡ some old
    → SameIdentity old new
    → HasRecord versions a
    → HasRecord (set versions old.version new) a
SameIdentity-HasRecord versions old new a found identity has_record =
    elim (Bool-cases (old.version == a.version)) [
      | inl at_version ↦
          let name : old.version ≡ a.version = text_beq-eq _ _ at_version in
          let at_old : old ≡ has_record.version_record =
            cc (found, has_record.found, ap (get versions) name) in
          record {
            version_record = new;
            found = rw (get-set, at_version) refl;
            same = identity.assignment ∙ ap (λ r. r.assignment) at_old ∙ has_record.same;
          }
      | inr elsewhere ↦ record {
        version_record = has_record.version_record;
        found = rw (get-set, elsewhere) has_record.found;
        same = has_record.same;
      }
    ]

SameIdentity-IsRecord :
    (allocator : VersionAllocator) (version : Text) (old new : VersionRecord)
    → SameIdentity old new
    → IsRecord allocator version old
    → IsRecord allocator version new
SameIdentity-IsRecord allocator version old new identity is_record = record {
  version_eq = identity.version ∙ is_record.version_eq;
  assigned_version = ap (λ a. a.version) identity.assignment ∙ is_record.assigned_version;
  sha_eq = ap (λ a. a.commit_sha) identity.assignment ∙ is_record.sha_eq ∙ sym identity.commit_sha;
  held = rw (identity.major, identity.commit_sha, identity.assignment) is_record.held;
}

-- A change of an open record keeps records and assignments in correspondence.
pub Changes-IsConsistent :
    (before after : PackageRegistry)
    → IsConsistentRegistry before
    → Changes before after
    → IsConsistentRegistry after
Changes-IsConsistent before after consistent changes =
    subst IsConsistentRegistry (sym changes.written) (record {
      valid = consistent.valid;
      keys = IsMap-set before.versions old.version new consistent.keys;
      records = λ version r e. elim (get-set_cases before.versions old.version version new e) [
        | inl (at_key, is_new) ↦
            rw (at_key, is_new)
              (SameIdentity-IsRecord before.allocator old.version old new changes.identity
                (consistent.records old.version old changes.found))
        | inr (_, kept) ↦ consistent.records version r kept
      ];
      complete = λ m k a held.
          SameIdentity-HasRecord before.versions old new a changes.found changes.identity
            (consistent.complete m k a held);
    })
  where
    old : VersionRecord
    old = changes.old

    new : VersionRecord
    new = changes.new

-- What became of a record.
pub record Becomes (after : PackageRegistry) (version : Text) (old : VersionRecord) : Type 0 where
  pub new : VersionRecord
  pub found : get after.versions version ≡ some new
  pub follows : Follows old new

-- Every record is there afterwards, and is unchanged or was open.
abbrev pub Evolves : PackageRegistry → PackageRegistry → Type 0
Evolves before after =
    (version : Text) (old : VersionRecord)
    → get before.versions version ≡ some old
    → Becomes after version old

pub Changes-Evolves : (before after : PackageRegistry) → Changes before after → Evolves before after
Changes-Evolves before after changes version old e =
    subst (λ r. Becomes r version old) (sym changes.written)
      (elim (Bool-cases (changes.old.version == version)) [
        | inl at_version ↦
            let name : changes.old.version ≡ version = text_beq-eq _ _ at_version in
            let is_old : old ≡ changes.old = cc (changes.found, e, ap (get before.versions) name) in
            record {
              new = changes.new;
              found = rw (get-set, at_version) refl;
              follows = rw is_old (changed changes.is_open changes.identity);
            }
        | inr elsewhere ↦ record {
          new = old;
          found = rw (get-set, elsewhere) e;
          follows = same refl;
        }
      ])

pub Extends-Evolves :
    (before after : PackageRegistry) → Extends before.versions after.versions → Evolves before after
Extends-Evolves before after extends version old e = record {
  new = old;
  found = extends version old e;
  follows = same refl;
}
