-- ===== src/PackageRegistry/RoundTrip.antt =====
-- `snapshot` and `fromSnapshot` of src/package-registry.ts: what is stored is read back.
use jsrproxy.Common.{
  ◌≡◌, refl, sym, ap, subst, ◌∙◌, inl, inr, Bool, true, false, not, Option, none, some, [], ◌∷◌,
  ◌++◌, Text, text_eq, ◌==◌, Bool-cases, ok, >>=-eq-ok, In, here, there, require, ◌>>◌, text_beq-eq,
  Error, Result,
}
use mathlib.Core.List.{append-nil, append_assoc}
use jsrproxy.Common.Map.{Map, get, set, values, IsMap, In-get, get-set}
use jsrproxy.VersionAllocator.{
  VersionAllocator, snapshot as allocator_snapshot, from_snapshot as allocator_from_snapshot,
}
use jsrproxy.VersionAllocator.Keyed.{IsKeyed}
use jsrproxy.VersionAllocator.RoundTrip.{IsReadBack, from_snapshot-IsReadBack}
use jsrproxy.PackageRegistry.Records.{VersionRecord, PackageRegistry}
use jsrproxy.PackageRegistry.{restore_versions, from_snapshot, snapshot}
use jsrproxy.PackageRegistry.Consistency.{IsConsistent}
use jsrproxy.PackageRegistry.Refresh.{IsConsistentRegistry}

set-absent :
    (m : Map Text VersionRecord) (k : Text) (r : VersionRecord)
    → get m k ≡ none
    → set m k r ≡ m ++ (k, r) ∷ []
unfolding get set
set-absent [] k r absent = refl
set-absent ((j, s) ∷ m) k r absent = elim (Bool-cases (j == k)) [
  | inl same ↦ let found = rw (same, get) at absent in absurd (cc)
  | inr different ↦
      rw (different, set)
        (ap (λ rest. (j, s) ∷ rest) (set-absent m k r (rw (different, get) at absent)))
]

-- Each record stands under its version.
abbrev IsUnderVersion : Map Text VersionRecord → Type 0
IsUnderVersion m = (k : Text) (r : VersionRecord) → In (k, r) m → r.version ≡ k

passes_absent :
    (o : Option VersionRecord) (thrown : Error) (rest : Result (Map Text VersionRecord))
    → o ≡ none
    → (require (not (elim o [ none ↦ false | some v ↦ true ])) thrown >> rest) ≡ rest
passes_absent none thrown rest e = refl
passes_absent (some r) thrown rest e = cc

restore_versions-values :
    (m before : Map Text VersionRecord)
    → IsMap m
    → IsUnderVersion m
    → ((k : Text) (r : VersionRecord) → In (k, r) m → get before k ≡ none)
    → restore_versions (values m) before ≡ ok (before ++ m)
unfolding restore_versions
restore_versions-values [] before distinct under fresh = ap ok (sym (append-nil before))
restore_versions-values ((k, r) ∷ m) before distinct under fresh =
    let version : r.version ≡ k = under k r here in
    let absent : get before r.version ≡ none = ap (get before) version ∙ fresh k r here in
    let added : set before r.version r ≡ before ++ (k, r) ∷ [] =
      set-absent before r.version r absent ∙ ap (λ v. before ++ (v, r) ∷ []) version in
    let rest =
      restore_versions-values m (set before r.version r) distinct.1 (λ j s i. under j s (there i))
        (λ j s i. still_fresh j s i) in
    passes_absent (get before r.version) _ _ absent
    ∙ (rest ∙ ap ok (ap (λ l. l ++ m) added ∙ append_assoc before ((k, r) ∷ []) m))
  where
    still_fresh :
        (j : Text) (s : VersionRecord) → In (j, s) m → get (set before r.version r) j ≡ none
    still_fresh j s i = elim (Bool-cases (r.version == j)) [
      | inl same ↦
          let name : k ≡ j = sym (under k r here) ∙ text_beq-eq _ _ same in
          absurd (cc (distinct.0, ap (get m) name, In-get m distinct.1 i))
      | inr different ↦ rw (get-set before r.version j r, different) (fresh j s (there i))
    ]

-- What a registry is once it was stored and read back.
pub record IsStoredAs (registry out : PackageRegistry) : Type 0 where
  pub versions : out.versions ≡ registry.versions
  pub recoveries : out.recoveries ≡ registry.recoveries
  pub name : out.name ≡ registry.name
  pub branches : out.branches ≡ registry.branches
  pub consistent : IsConsistentRegistry out
  pub keyed : IsKeyed out.allocator

IsReadBack-IsConsistent :
    (allocator out : VersionAllocator) (versions : Map Text VersionRecord)
    → IsConsistent allocator versions
    → IsReadBack allocator out
    → IsConsistent out versions
IsReadBack-IsConsistent allocator out versions consistent back = record {
  valid = back.valid;
  keys = consistent.keys;
  records = λ version r e.
      let was = consistent.records version r e in
      record {
        version_eq = was.version_eq;
        assigned_version = was.assigned_version;
        sha_eq = was.sha_eq;
        held = (back.same _ _ _).0 was.held;
      };
  complete = λ m k a held. consistent.complete m k a ((back.same m k a).1 held);
}

-- A registry whose records and assignments correspond is read back from its snapshot with the same
-- records, audit, name and branches, and with records and assignments that correspond.
pub from_snapshot-snapshot :
    (le : Text → Text → Bool) (registry out : PackageRegistry)
    → IsConsistentRegistry registry
    → IsKeyed registry.allocator
    → from_snapshot (snapshot le registry) ≡ ok out
    → IsStoredAs registry out
unfolding from_snapshot snapshot
from_snapshot-snapshot le registry out consistent keyed h =
    let (allocator, read, rest) =
      >>=-eq-ok (allocator_from_snapshot (allocator_snapshot le registry.allocator)) _ h in
    let all_versions =
      restore_versions-values registry.versions [] consistent.keys
        (λ k r i. (consistent.records k r (In-get registry.versions consistent.keys i)).version_eq)
        (λ k r i. unfold get in refl) in
    let (versions, restored, last) =
      >>=-eq-ok (restore_versions (values registry.versions) []) _ rest in
    let same : versions ≡ registry.versions = cc in
    let back =
      from_snapshot-IsReadBack le registry.allocator allocator consistent.valid keyed read in
    let result : ◌≡◌ {A = PackageRegistry}
        (record {
          allocator = allocator;
          versions = versions;
          recoveries = registry.recoveries;
          name = registry.name;
          branches = registry.branches;
        })
        out =
      cc in
    subst (IsStoredAs registry) result (record {
      versions = same;
      recoveries = refl;
      name = refl;
      branches = refl;
      consistent =
          IsReadBack-IsConsistent registry.allocator allocator versions
            (subst (IsConsistent registry.allocator) (sym same) consistent) back;
      keyed = back.keyed;
    })
