-- ===== src/DurableObjects/Requests.antt =====
-- The requests to a package object of src/durable-objects.ts, as events that change its storage.
use jsrproxy.Common.{
  ℕ, ◌≡◌, refl, ◌⊎◌, inl, inr, Bool, Bool-cases, Option, none, some, [], Option-cases, Text, codes,
  Result, ok, err, Result-cases, ◌>>=◌,
}
use jsrproxy.Common.Http.{Request, Response, json_response}
use jsrproxy.Common.Json.{field}
use jsrproxy.PackageRegistry.Records.{PackageName, PackageRegistry, MaterializationJob}
use jsrproxy.PackageRegistry.{
  refresh, recover_version, mark_ready, mark_yanked, lease_next, release_lease,
}
use jsrproxy.PackageRegistry.History.{Step, refreshes, recovers, leases, releases, readies, yanks}
use jsrproxy.DurableObjects.Parsing.{
  RecoveryRequest, parse_recovery, parse_completion, parse_materialization, parse_diagnostic, trim,
  MaterializationRequest, Outcome, ready_outcome, yanked_outcome,
}
use jsrproxy.DurableObjects.Printing.{object}
use jsrproxy.Auth.{GitHubResult, decision, unavailable}
use jsrproxy.DurableObjects.Admission.{AuthorizationRequest, authorized}
use jsrproxy.DurableObjects.Storage.{Storage, load, save}
use jsrproxy.DurableObjects.Package.{
  refresh_input, refresh_package, recover_saved, recover_package, caught, complete_saved,
  complete_package, release_package_lease, begin_materialization, finish_materialization,
  mark_outcome, Published, released, finished, unpublished, publishes, fails, answered, begun,
  registry_json,
}

-- A request that may change the storage: those for the metadata and the status only read it. `#materialize` is two of them, since other requests come
-- between its first save and the end of its own requests.
pub data Event : Type 0 where
  refresh_request : Request → Event
  recover_request : Request → Event
  complete_request : Request → Event
  materialize_request : (configured : Bool) (now : ℕ) → Request → Event
  materialize_end : (version : Text) → Published → Event
  -- The end of `#authorize`, with GitHub's answer.
  authorize_end : (Text → Text) → GitHubResult → AuthorizationRequest → Response → Event

-- The storage after a handler; one that throws leaves it.
abbrev pub stored {ℓ} : {A : Type ℓ} → Storage → Result (A × Storage) → Storage
stored storage (ok handled) = handled.1
stored storage (err thrown) = storage

-- The storage after an event.
unfoldable pub after_event : (Text → Text → Bool) → Text → Storage → Event → Storage
after_event le native storage (refresh_request request) =
    stored storage (refresh_package le storage request)
after_event le native storage (recover_request request) =
    stored storage (recover_package le native storage request)
after_event le native storage (complete_request request) =
    stored storage (complete_package le native storage request)
after_event le native storage (materialize_request configured now request) =
    stored storage (begin_materialization le configured now storage request)
after_event le native storage (materialize_end version published) =
    stored storage (finish_materialization le storage version published)
after_event le native storage (authorize_end to_lower_case result input github) =
    (authorized to_lower_case storage result input github).1

module _ (le : Text → Text → Bool) (native : Text) where
  -- One step of the registry that is stored, saved.
  pub record Transition (storage storage' : Storage) : Type 0 where
    pub name : Option PackageName
    pub before : PackageRegistry
    pub after : PackageRegistry
    pub loaded : load storage name ≡ ok before
    pub step : Step le before after
    pub saved : save le storage after ≡ ok storage'

  -- The database is as it was, or has one step of what was there.
  abbrev pub Refines : Storage → Storage → Type 0
  Refines storage storage' = (storage'.sql ≡ storage.sql) ⊎ Transition storage storage'

  -- A handler that loads, makes one step and saves.
  module _ {ℓ} {A : Type ℓ} (storage : Storage) (name : Option PackageName)
      (before after : PackageRegistry) (loaded : load storage name ≡ ok before)
      (step : Step le before after) where
    pub Refines-saved :
        (response : A)
        → Refines storage (stored storage (save le storage after >>= λ saved. ok (response, saved)))
    Refines-saved response = elim (Result-cases (save le storage after)) [
      | inl (saved, e) ↦ rw e (
          inr (record {
            name = name;
            before = before;
            after = after;
            loaded = loaded;
            step = step;
            saved = e;
          }))
      | inr (thrown, e) ↦ rw e (inl refl)
    ]

  refresh-Refines :
      (storage : Storage) (request : Request)
      → Refines storage (stored storage (refresh_package le storage request))
  unfolding refresh_package
  refresh-Refines storage request = elim (Option-cases (refresh_input request.json)) [
    | inl e ↦ rw (e, refresh_package) (inl refl)
    | inr ((name, discovery), e) ↦ elim (Result-cases (load storage (some name))) [
      | inr (thrown, l) ↦ rw (e, l, refresh_package) (inl refl)
      | inl (registry, l) ↦ elim (Result-cases (refresh registry discovery)) [
        | inr (thrown, r) ↦ rw (e, l, r, refresh_package) (inl refl)
        | inl ((after, created), r) ↦
            rw (e, l, r, refresh_package)
              (Refines-saved storage (some name) registry after l (refreshes discovery created r) _)
      ]
    ]
  ]

  recover_saved-Refines :
      (storage : Storage) (registry : PackageRegistry) (input : RecoveryRequest)
      → load storage none ≡ ok registry
      → Refines storage (
          stored storage
            (caught le native storage (recover_saved le native storage registry input)))
  unfolding recover_saved
  recover_saved-Refines storage registry input l =
      elim (Result-cases
        (recover_version registry input.version (trim input.reason) input.recovered_at)) [
          | inr (thrown, r) ↦ rw (r, recover_saved) (inl refl)
          | inl ((after, job), r) ↦ elim (Result-cases (save le storage after)) [
            | inr (thrown, s) ↦ rw (r, s, recover_saved) (inl refl)
            | inl (saved, s) ↦
                rw (r, s, recover_saved)
                  (inr (record {
                    name = none;
                    before = registry;
                    after = after;
                    loaded = l;
                    step = recovers input.version (trim input.reason) input.recovered_at job r;
                    saved = s;
                  }))
          ]
        ]

  recover-Refines :
      (storage : Storage) (request : Request)
      → Refines storage (stored storage (recover_package le native storage request))
  unfolding recover_package
  recover-Refines storage request = elim (Option-cases (parse_recovery request.json)) [
    | inl e ↦ rw (e, recover_package) (inl refl)
    | inr (input, e) ↦ elim (Result-cases (load storage none)) [
      | inr (thrown, l) ↦ rw (e, l, recover_package) (inl refl)
      | inl (registry, l) ↦
          rw (e, l, recover_package) (recover_saved-Refines storage registry input l)
    ]
  ]

  complete_saved-Refines :
      (storage : Storage) (before : PackageRegistry) (marked : Result PackageRegistry)
      → load storage none ≡ ok before
      → ((after : PackageRegistry) → marked ≡ ok after → Step le before after)
      → Refines storage (stored storage (complete_saved le native storage marked))
  unfolding complete_saved
  complete_saved-Refines storage before (err thrown) l step = inl refl
  complete_saved-Refines storage before (ok after) l step =
      Refines-saved storage none before after l (step after refl) _

  complete-Refines :
      (storage : Storage) (request : Request)
      → Refines storage (stored storage (complete_package le native storage request))
  unfolding complete_package
  complete-Refines storage request = elim (Option-cases (parse_completion request.json)) [
    | inl e ↦ rw (e, complete_package) (inl refl)
    | inr ((version, is_ready_state), e) ↦ elim (Result-cases (load storage none)) [
      | inr (thrown, l) ↦ rw (e, l, complete_package) (inl refl)
      | inl (registry, l) ↦ elim (Bool-cases is_ready_state) [
        | inl b ↦
            rw (e, l, b, complete_package)
              (complete_saved-Refines storage registry (mark_ready registry version) l
                (λ after m. readies version m))
        | inr b ↦ elim (Option-cases (parse_diagnostic (field request.json (codes "diagnostic")))) [
          | inl d ↦ rw (e, l, b, d, complete_package) (inl refl)
          | inr (diagnostic, d) ↦
              rw (e, l, b, d, complete_package)
                (complete_saved-Refines storage registry (mark_yanked registry version diagnostic) l
                  (λ after m. yanks version diagnostic m))
        ]
      ]
    ]
  ]

  released-Refines :
      (storage : Storage) (before : PackageRegistry) (result : Result PackageRegistry)
      → load storage none ≡ ok before
      → ((after : PackageRegistry) → result ≡ ok after → Step le before after)
      → Refines storage (stored storage (released le storage result))
  unfolding released
  released-Refines storage before (err thrown) l step = inl refl
  released-Refines storage before (ok after) l step =
      Refines-saved storage none before after l (step after refl) _

  release-Refines :
      (storage : Storage) (version : Text)
      → Refines storage (stored storage (release_package_lease le storage version))
  unfolding release_package_lease
  release-Refines storage version = elim (Result-cases (load storage none)) [
    | inr (thrown, l) ↦ rw (l, release_package_lease) (inl refl)
    | inl (registry, l) ↦
        rw (l, release_package_lease)
          (released-Refines storage registry (release_lease registry version) l
            (λ after r. releases version r))
  ]

  begin-Refines :
      (configured : Bool) (now : ℕ) (storage : Storage) (request : Request)
      → Refines storage (stored storage (begin_materialization le configured now storage request))
  unfolding begin_materialization
  begin-Refines configured now storage request =
      elim (Option-cases (parse_materialization request.json)) [
        | inl e ↦ rw (e, begin_materialization) (inl refl)
        | inr (input, e) ↦ elim (Bool-cases configured) [
          | inr b ↦ rw (e, b, begin_materialization) (inl refl)
          | inl b ↦ elim (Result-cases (load storage none)) [
            | inr (thrown, l) ↦ rw (e, b, l, begin_materialization) (inl refl)
            | inl (registry, l) ↦
                rw (e, b, l, begin_materialization)
                  (leased-Refines input registry l (lease_next le registry now) refl)
          ]
        ]
      ]
    where
      leased-Refines :
          (input : MaterializationRequest) (registry : PackageRegistry)
          → load storage none ≡ ok registry
          → (result : PackageRegistry × Option MaterializationJob)
          → lease_next le registry now ≡ result
          → Refines storage (
              stored storage (elim result.1 [
                | none ↦
                    ok (answered (json_response 200 [] (object (registry_json result.0))), storage)
                | some job ↦ do
                  saved ← save le storage result.0
                  ok (begun input registry.name job, saved)
              ]))
      leased-Refines input registry l (after, none) h = inl refl
      leased-Refines input registry l (after, some job) h =
          Refines-saved storage none registry after l (leases now job h) _

  finished-Refines :
      (storage : Storage) (before : PackageRegistry) (result : Result PackageRegistry)
      → load storage none ≡ ok before
      → ((after : PackageRegistry) → result ≡ ok after → Step le before after)
      → Refines storage (stored storage (finished le storage result))
  unfolding finished
  finished-Refines storage before (err thrown) l step = inl refl
  finished-Refines storage before (ok after) l step =
      Refines-saved storage none before after l (step after refl) _

  mark_outcome-Step :
      (version : Text) (outcome : Outcome) (registry after : PackageRegistry)
      → mark_outcome registry version outcome ≡ ok after
      → Step le registry after
  mark_outcome-Step version (ready_outcome uploads) registry after r = readies version r
  mark_outcome-Step version (yanked_outcome diagnostic uploads) registry after r =
      yanks version diagnostic r

  finish-Refines :
      (storage : Storage) (version : Text) (published : Published)
      → Refines storage (stored storage (finish_materialization le storage version published))
  unfolding finish_materialization
  finish-Refines storage version unpublished = release-Refines storage version
  finish-Refines storage version fails = inl refl
  finish-Refines storage version (publishes outcome) = elim (Result-cases (load storage none)) [
    | inr (thrown, l) ↦ rw (l, finish_materialization) (inl refl)
    | inl (registry, l) ↦
        rw (l, finish_materialization)
          (finished-Refines storage registry (mark_outcome registry version outcome) l
            (mark_outcome-Step version outcome registry))
  ]

  -- Every request to a package object, whatever it holds and however it ends, leaves the database as
  -- it was or saves what one step of the state machine makes of the registry that was stored.
  pub after_event-Refines :
      (storage : Storage) (event : Event) → Refines storage (after_event le native storage event)
  unfolding after_event authorized
  after_event-Refines storage (refresh_request request) = refresh-Refines storage request
  after_event-Refines storage (recover_request request) = recover-Refines storage request
  after_event-Refines storage (complete_request request) = complete-Refines storage request
  after_event-Refines storage (materialize_request configured now request) =
      begin-Refines configured now storage request
  after_event-Refines storage (materialize_end version published) =
      finish-Refines storage version published
  after_event-Refines storage (authorize_end to_lower_case result input github) =
      inl (authorized-sql result)
    where
      authorized-sql :
          (r : GitHubResult) → (authorized to_lower_case storage r input github).1.sql ≡ storage.sql
      authorized-sql (unavailable retry_after) = refl
      authorized-sql (decision d) = refl
