-- ===== src/DurableObjects/Reload.antt =====
-- What `#registry` of src/durable-objects.ts loads of what `#saveRegistry` saved.
use jsrproxy.Common.{
  ◌≡◌, ap, ◌∙◌, ◌⊎◌, inl, inr, Bool, true, false, Option, none, some, Option-cases, [], Text,
  text_eq, Result, ok, err, >>=-eq-ok, ◌>>=◌, ◌>>◌, require, identity_mismatch, not_initialized,
}
use jsrproxy.Common.Map.{get}
use jsrproxy.VersionAllocator.{from_snapshot as allocator_from_snapshot}
use jsrproxy.VersionAllocator.Rises.{IsAllSafe}
use jsrproxy.VersionAllocator.RoundTrip.{from_snapshot-IsKeyed, from_snapshot-IsAllSafe}
use jsrproxy.PackageRegistry.Records.{
  PackageName, VersionRecord, PackageRegistry, PackageRegistrySnapshot,
}
use jsrproxy.PackageRegistry.{new_registry, restore_versions, from_snapshot, snapshot}
use jsrproxy.PackageRegistry.Refresh.{IsConsistentRegistry}
use jsrproxy.PackageRegistry.Recovery.{IsPublished}
use jsrproxy.PackageRegistry.History.{Step, Step-Kept, Follows-published}
use jsrproxy.PackageRegistry.RoundTrip.{from_snapshot-snapshot}
use jsrproxy.PackageRegistry.Stored.{IsSettled, Step-IsSettled}
use jsrproxy.DurableObjects.Storage.{Storage, row_of, is_named, load, save}
use jsrproxy.DurableObjects.Requests.{Transition}

passes-eq :
    (b : Bool) (read registry : PackageRegistry)
    → (require b identity_mismatch >> ok read) ≡ ok registry
    → read ≡ registry
passes-eq true read registry h = cc
passes-eq false read registry h = cc

-- The registry that `#registry` returns is that of the row, or a new one where there is no row.
pub load_cases :
    (storage : Storage) (name : Option PackageName) (registry : PackageRegistry)
    → load storage name ≡ ok registry
    → ((stored : PackageRegistrySnapshot) × (row_of storage.sql ≡ some stored)
        × (from_snapshot stored ≡ ok registry))
      ⊎ ((n : PackageName) × (row_of storage.sql ≡ none) × (registry ≡ new_registry n))
unfolding load is_named
load_cases storage name registry h = elim (Option-cases (row_of storage.sql)) [
  | inr (stored, e) ↦
      let loaded = rw (e, load) at h in
      let (read, from_row, named) = >>=-eq-ok (from_snapshot stored) _ loaded in
      inl (stored, e, from_row ∙ ap ok (passes-eq (is_named read.name name) read registry named))
  | inl e ↦ let loaded = rw (e, load) at h in inr (of_name name loaded e)
]
  where
    of_name :
        (o : Option PackageName)
        → ◌≡◌ {A = Result PackageRegistry}
            (elim o [ none ↦ err not_initialized | some n ↦ ok (new_registry n) ])
            (ok registry)
        → row_of storage.sql ≡ none
        → (n : PackageName) × (row_of storage.sql ≡ none) × (registry ≡ new_registry n)
    of_name none e absent = cc
    of_name (some n) e absent = (n, absent, cc)

-- A load reads the database alone.
pub load-sql :
    (storage storage' : Storage) (name : Option PackageName)
    → storage'.sql ≡ storage.sql
    → load storage' name ≡ load storage name
unfolding load
load-sql storage storage' name same =
    ap (λ q. load (record { cache = storage.cache; sql = q }) name) same

pub from_snapshot-allocator :
    (stored : PackageRegistrySnapshot) (out : PackageRegistry)
    → from_snapshot stored ≡ ok out
    → allocator_from_snapshot stored.allocator ≡ ok out.allocator
unfolding from_snapshot
from_snapshot-allocator stored out h =
    let (allocator, read, rest) = >>=-eq-ok (allocator_from_snapshot stored.allocator) _ h in
    let (versions, restored, last) = >>=-eq-ok (restore_versions stored.versions []) _ rest in
    let returned : ok allocator ≡ ok out.allocator = ap (λ r. r >>= λ x. ok x.allocator) last in
    read ∙ returned

-- Every registry that is loaded has records and assignments that correspond.
pub record IsSound (registry : PackageRegistry) : Type 0 where
  pub consistent : IsConsistentRegistry registry
  pub settled : IsSettled registry.allocator

abbrev pub IsSoundStorage : Storage → Type 0
IsSoundStorage storage =
    (name : Option PackageName) (registry : PackageRegistry)
    → load storage name ≡ ok registry
    → IsSound registry

module _ (le : Text → Text → Bool) (native : Text) where
  save-row :
      (storage storage' : Storage) (registry : PackageRegistry)
      → save le storage registry ≡ ok storage'
      → row_of storage'.sql ≡ some (snapshot le registry)
  unfolding save
  save-row storage storage' registry h = elim (Option-cases storage.sql) [
    | inl e ↦ let thrown = rw e at h in absurd (cc)
    | inr (row, e) ↦ let saved = rw e at h in ap (λ s. row_of s.sql) (ok_inj saved)
  ]
    where
      ok_inj : {s t : Storage} → ok s ≡ ok t → t ≡ s
      ok_inj e = cc

  -- What is loaded after a step was saved.
  pub record IsReloaded (before after reloaded : PackageRegistry) : Type 0 where
    pub sound : IsSound reloaded
    pub lasts :
        (version : Text) (r : VersionRecord)
        → get before.versions version ≡ some r
        → IsPublished r.state
        → get reloaded.versions version ≡ some r

  reload-IsReloaded :
      (before after reloaded : PackageRegistry)
      → IsSound before
      → Step le before after
      → from_snapshot (snapshot le after) ≡ ok reloaded
      → IsReloaded before after reloaded
  unfolding snapshot
  reload-IsReloaded before after reloaded sound step h =
      let settled = Step-IsSettled le sound.consistent sound.settled step in
      let allocator = from_snapshot-allocator (snapshot le after) reloaded h in
      let safe : IsAllSafe after.allocator =
        from_snapshot-IsAllSafe le after.allocator reloaded.allocator settled.attained allocator in
      let kept = Step-Kept le sound.consistent safe step in
      let stored = from_snapshot-snapshot le after reloaded kept.consistent settled.keyed h in
      let (keyed, attained) =
        from_snapshot-IsKeyed (snapshot le after).allocator reloaded.allocator allocator in
      record {
        sound = record {
          consistent = stored.consistent;
          settled = record { keyed = keyed; attained = attained };
        };
        lasts = λ version r found published.
            let becomes = kept.evolves version r found in
            ap (λ m. get m version) stored.versions
            ∙ becomes.found
            ∙ ap some (Follows-published published becomes.follows);
      }

  pub Transition-IsReloaded :
      (storage storage' : Storage) (t : Transition le native storage storage')
      → IsSoundStorage storage
      → (name : Option PackageName) (reloaded : PackageRegistry) → load storage' name ≡ ok reloaded
      → IsReloaded t.before t.after reloaded
  Transition-IsReloaded storage storage' t sound name reloaded h =
      let row = save-row storage storage' t.after t.saved in
      elim (load_cases storage' name reloaded h) [
        | inl (stored, e, from_row) ↦
            let same : snapshot le t.after ≡ stored = cc in
            reload-IsReloaded t.before t.after reloaded (sound t.name t.before t.loaded) t.step
              (ap from_snapshot same ∙ from_row)
        | inr (n, e, fresh) ↦ absurd (cc)
      ]
