-- ===== src/DurableObjects/Lasting.antt =====
-- What lasts in the storage of a package object of src/durable-objects.ts, over all its requests.
use jsrproxy.Common.{
  ◌≡◌, sym, ap, subst, ◌∙◌, inl, inr, Bool, Option, none, some, Option-cases, Text, text_eq, ok,
}
use jsrproxy.Common.Map.{Map, get}
use jsrproxy.Auth.{GitHubDecision}
use jsrproxy.VersionAllocator.Keyed.{new_allocator-IsKeyed}
use jsrproxy.VersionAllocator.Attained.{new_allocator-IsAllAttained}
use jsrproxy.PackageRegistry.Records.{PackageName, VersionRecord, PackageRegistry, MetaVersion}
use jsrproxy.PackageRegistry.Meta.{listed, get-meta, listed-published}
use jsrproxy.PackageRegistry.{meta, new_registry}
use jsrproxy.PackageRegistry.Consistency.{new_registry-IsConsistent}
use jsrproxy.PackageRegistry.Recovery.{IsPublished}
use jsrproxy.DurableObjects.Storage.{Storage, load}
use jsrproxy.DurableObjects.Requests.{Event, after_event, after_event-Refines}
use jsrproxy.DurableObjects.Reload.{
  load_cases, load-sql, IsSound, IsSoundStorage, Transition-IsReloaded,
}

module _ (le : Text → Text → Bool) (native : Text) where
  -- Requests in turn.
  pub data Served (first : Storage) : Storage → Type 0 where
    served_none : Served first first
    serves :
        {before : Storage}
        → Served first before
        → (event : Event) → Served first (after_event le native before event)

  event-IsSoundStorage :
      (storage : Storage) (event : Event)
      → IsSoundStorage storage
      → IsSoundStorage (after_event le native storage event)
  event-IsSoundStorage storage event sound = elim (after_event-Refines le native storage event) [
    | inl same ↦ λ name registry h.
        sound name registry
          (sym (load-sql storage (after_event le native storage event) name same) ∙ h)
    | inr t ↦ λ name registry h.
        (Transition-IsReloaded le native storage (after_event le native storage event) t sound name
          registry h).sound
  ]

  -- Whatever requests come to an object with a new database, every registry that it loads
  -- afterwards has records and assignments that correspond.
  pub Served-IsSoundStorage :
      {first last : Storage} → IsSoundStorage first → Served first last → IsSoundStorage last
  Served-IsSoundStorage sound served_none = sound
  Served-IsSoundStorage sound (serves {before} served event) =
      event-IsSoundStorage before event (Served-IsSoundStorage sound served)

  -- Every registry that is loaded has the record.
  abbrev Lists : Storage → Text → VersionRecord → Type 0
  Lists storage version r =
      (name : Option PackageName) (registry : PackageRegistry)
      → load storage name ≡ ok registry
      → get registry.versions version ≡ some r

  event-Lists :
      (storage : Storage) (event : Event) (version : Text) (r : VersionRecord)
      → IsSoundStorage storage
      → IsPublished r.state
      → Lists storage version r
      → Lists (after_event le native storage event) version r
  event-Lists storage event version r sound published lists =
      elim (after_event-Refines le native storage event) [
        | inl same ↦ λ name registry h.
            lists name registry
              (sym (load-sql storage (after_event le native storage event) name same) ∙ h)
        | inr t ↦ λ name registry h.
            (Transition-IsReloaded le native storage (after_event le native storage event) t sound
                name registry h).lasts
              version r (lists t.name t.before t.loaded) published
      ]

  Served-Lists :
      {first last : Storage} (version : Text) (r : VersionRecord)
      → IsSoundStorage first
      → IsPublished r.state
      → Lists first version r
      → Served first last
      → Lists last version r
  Served-Lists version r sound published lists served_none = lists
  Served-Lists version r sound published lists (serves {before} served event) =
      event-Lists before event version r (Served-IsSoundStorage sound served) published
        (Served-Lists version r sound published lists served)

-- The storage of an object whose database has no row.
abbrev pub fresh : Map Text GitHubDecision → Storage
fresh cache = record { cache = cache; sql = some none }

new_registry-IsSound : (n : PackageName) → IsSound (new_registry n)
new_registry-IsSound n = record {
  consistent = new_registry-IsConsistent;
  settled = record { keyed = new_allocator-IsKeyed; attained = new_allocator-IsAllAttained };
}

fresh-IsSoundStorage : (cache : Map Text GitHubDecision) → IsSoundStorage (fresh cache)
fresh-IsSoundStorage cache name registry h = elim (load_cases (fresh cache) name registry h) [
  | inl (stored, e, from_row) ↦ absurd (cc)
  | inr (n, e, same) ↦ subst IsSound (sym same) (new_registry-IsSound n)
]

-- Two loads of one storage with a record return one registry.
load_again :
    (storage : Storage) (name name' : Option PackageName) (registry registry' : PackageRegistry)
    (version : Text) (r : VersionRecord)
    → load storage name ≡ ok registry
    → get registry.versions version ≡ some r
    → load storage name' ≡ ok registry'
    → registry' ≡ registry
unfolding get
load_again storage name name' registry registry' version r h found h' =
    elim (load_cases storage name registry h) [
      | inr (n, e, same) ↦ absurd (cc (found, ap (λ s. get s.versions version) same))
      | inl (stored, e, from_row) ↦ elim (load_cases storage name' registry' h') [
        | inr (n, e', same) ↦ absurd (cc)
        | inl (stored', e', from_row') ↦ cc
      ]
    ]

module _ (le : Text → Text → Bool) (native : Text) (cache : Map Text GitHubDecision) where
  -- From a new database, whatever requests come and however they end: a version that is stored as
  -- ready or yanked at some time has the same record in every registry that is loaded at a later
  -- time.
  pub Served-published :
      {first last : Storage} (version : Text) (r : VersionRecord)
      (registry registry' : PackageRegistry)
      → Served le native (fresh cache) first
      → load first none ≡ ok registry
      → get registry.versions version ≡ some r
      → IsPublished r.state
      → Served le native first last
      → load last none ≡ ok registry'
      → get registry'.versions version ≡ some r
  Served-published {first} {last} version r registry registry' earlier h found published later h' =
      Served-Lists le native version r
        (Served-IsSoundStorage le native (fresh-IsSoundStorage cache) earlier) published
        (λ name other at_first.
          ap (λ s. get s.versions version)
            (load_again first none name registry other version r h found at_first)
          ∙ found)
        later none registry' h'

  -- From a new database, whatever requests come and however they end: a version that the metadata
  -- of the stored registry lists at some time is listed with the same flag by the metadata of every
  -- registry that is loaded at a later time.
  pub Served-meta :
      {first last : Storage} (version : Text) (m : MetaVersion)
      (registry registry' : PackageRegistry)
      → Served le native (fresh cache) first
      → load first none ≡ ok registry
      → get (meta registry).versions version ≡ some m
      → Served le native first last
      → load last none ≡ ok registry'
      → get (meta registry').versions version ≡ some m
  Served-meta {first} {last} version m registry registry' earlier h listed_first later h' =
      let sound = Served-IsSoundStorage le native (fresh-IsSoundStorage cache) earlier in
      let sound' = Served-IsSoundStorage le native sound later in
      let before =
        sym (get-meta registry version (sound none registry h).consistent) ∙ listed_first in
      elim (Option-cases (get registry.versions version)) [
        | inl missing ↦ let unlisted = rw missing at before in absurd (cc)
        | inr (r, found) ↦
            let lists : listed (some r) none ≡ some m = rw found at before in
            let still =
              Served-published version r registry registry' earlier h found
                (listed-published r m lists) later h' in
            get-meta registry' version (sound' none registry' h').consistent ∙ rw still lists
      ]
