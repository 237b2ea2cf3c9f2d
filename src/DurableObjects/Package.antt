-- ===== src/DurableObjects/Package.antt =====
-- `PackageDurableObjectV2` of src/durable-objects.ts: the requests that change or read the registry.
-- A handler that throws leaves the storage as it was, since no statement follows a save that throws.
use jsrproxy.Common.{
  ℕ, Bool, not, Option, none, some, List, [], ◌∷◌, ◌++◌, Text, codes, text_eq, if◌then◌else◌,
  Result, ok, err, ◌>>=◌, Error, call_rejected,
}
use jsrproxy.Common.Http.{Request, Response, text_response, json_response, is_ok, json_of}
use jsrproxy.Common.Json.{Json, field}
use jsrproxy.Branches.{BranchDiscovery}
use jsrproxy.PackageRegistry.Records.{PackageName, PackageRegistry, MaterializationJob}
use jsrproxy.PackageRegistry.{
  refresh, recover_version, mark_ready, mark_yanked, lease_next, release_lease, meta, jobs,
}
use jsrproxy.DurableObjects.Printing.{
  object, array, meta_json, jobs_json, job_json, recoveries_json, message,
}
use jsrproxy.DurableObjects.Parsing.{
  parse_package_name, parse_discovery, parse_diagnostic, parse_recovery, parse_completion,
  parse_materialization, MaterializationRequest, RecoveryRequest, trim, Outcome, ready_outcome,
  yanked_outcome, uploads_of, parse_materialization_outcome,
}
use jsrproxy.DurableObjects.Storage.{Storage, load, save}
use jsrproxy.Publication.{Platform, publish_artifact_batch}
use jsrproxy.Publication.Bucket.{R2Bucket}

abbrev pub Handled : Type 0
Handled = Result (Response × Storage)

-- What `refresh` reads of its body.
unfoldable pub refresh_input : Option Json → Option (PackageName × BranchDiscovery)
refresh_input body = elim (parse_package_name (field body (codes "package"))) [
  | none ↦ none
  | some name ↦ elim (parse_discovery (field body (codes "discovery"))) [
    | none ↦ none
    | some discovery ↦ some (name, discovery)
  ]
]

abbrev pub registry_json : PackageRegistry → List (Text × Json)
registry_json registry =
    (codes "meta", meta_json (meta registry)) ∷ (codes "jobs", jobs_json (jobs registry)) ∷ []

module _ (le : Text → Text → Bool) where
  -- `#refresh`
  unfoldable pub refresh_package : Storage → Request → Handled
  refresh_package storage request = elim (refresh_input request.json) [
    | none ↦ ok (text_response 400 [] (codes "invalid package refresh"), storage)
    | some (name, discovery) ↦ do
      registry ← load storage (some name)
      (after, created) ← refresh registry discovery
      saved ← save le storage after
      ok (
        json_response 200 []
            (object (registry_json after ++ (codes "created", jobs_json created) ∷ [])),
        saved,
      )
  ]

  -- The save and the answer after `releaseLease`.
  unfoldable pub released : Storage → Result PackageRegistry → Handled
  released storage (err thrown) =
      ok (text_response 409 [] (codes "materialization lease conflicted"), storage)
  released storage (ok after) = do
    saved ← save le storage after
    ok (
      text_response 503 ((codes "retry-after", codes "1") ∷ [])
          (codes "materialization unavailable"),
      saved,
    )

  -- `#releaseLease`
  unfoldable pub release_package_lease : Storage → Text → Handled
  unfolding released
  release_package_lease storage version = do
    registry ← load storage none
    released storage (release_lease registry version)

module _ (le : Text → Text → Bool) (native : Text) where
  -- The `try` of `#recover`.
  unfoldable pub recover_saved : Storage → PackageRegistry → RecoveryRequest → Handled
  recover_saved storage registry input = do
    (after, job) ← recover_version registry input.version (trim input.reason) input.recovered_at
    saved ← save le storage after
    ok (
      json_response 202 [] (
          object (
            (codes "job", job_json job)
            ∷ (codes "recoveries", recoveries_json after.recoveries)
            ∷ [])),
      saved,
    )

  -- What a `catch` answers with.
  abbrev pub conflict : Storage → Error → Response × Storage
  conflict storage thrown = (text_response 409 [] (message native thrown), storage)

  -- The `try` and its `catch`.
  abbrev pub caught : Storage → Handled → Handled
  caught storage (ok answered) = ok answered
  caught storage (err thrown) = ok (conflict storage thrown)

  -- `#recover`
  unfoldable pub recover_package : Storage → Request → Handled
  recover_package storage request = elim (parse_recovery request.json) [
    | none ↦ ok (text_response 400 [] (codes "invalid recovery request"), storage)
    | some input ↦ do
      registry ← load storage none
      caught storage (recover_saved storage registry input)
  ]

  -- The save and the answer after a transition of `#complete`.
  unfoldable pub complete_saved : Storage → Result PackageRegistry → Handled
  complete_saved storage (err thrown) = ok (conflict storage thrown)
  complete_saved storage (ok after) = do
    saved ← save le storage after
    ok (json_response 200 [] (meta_json (meta after)), saved)

  -- `#complete`
  unfoldable pub complete_package : Storage → Request → Handled
  complete_package storage request = elim (parse_completion request.json) [
    | none ↦ ok (text_response 400 [] (codes "invalid completion"), storage)
    | some (version, is_ready_state) ↦ do
      registry ← load storage none
      if is_ready_state
          then complete_saved storage (mark_ready registry version)
          else elim (parse_diagnostic (field request.json (codes "diagnostic"))) [
            | none ↦ ok (text_response 400 [] (codes "invalid tombstone diagnostic"), storage)
            | some diagnostic ↦ complete_saved storage (mark_yanked registry version diagnostic)
          ]
  ]

-- `#metadata`
unfoldable pub metadata : Storage → Handled
metadata storage = do
  registry ← load storage none
  ok (json_response 200 [] (meta_json (meta registry)), storage)

-- `#status`
unfoldable pub status : Storage → Handled
status storage = do
  registry ← load storage none
  ok (
    json_response 200 [] (
        object (
          registry_json registry
          ++ (codes "recoveries", recoveries_json registry.recoveries) ∷ [])),
    storage,
  )

-- How `#materialize` goes on once the registry is saved, or how it ended before.
pub data Begun : Type 0 where
  answered : Response → Begun
  begun : (input : MaterializationRequest) (name : PackageName) (job : MaterializationJob) → Begun

module _ (le : Text → Text → Bool) where
  -- `#materialize` up to its first request; `configured` is that both bindings are there.
  unfoldable pub begin_materialization :
      (configured : Bool) (now : ℕ) → Storage → Request → Result (Begun × Storage)
  begin_materialization configured now storage request = elim (parse_materialization request.json) [
    | none ↦ ok (answered (text_response 400 [] (codes "invalid materialization request")), storage)
    | some input ↦
        if not configured
        then ok (answered (text_response 503 [] (codes "materializer is not configured")), storage)
        else do
          registry ← load storage none
          let (after, leased_job) = lease_next le registry now
          elim leased_job [
            | none ↦ ok (answered (json_response 200 [] (object (registry_json after))), storage)
            | some job ↦ do saved ← save le storage after; ok (begun input registry.name job, saved)
          ]
  ]

-- How the requests of `#materialize` end: the lease is released, the outcome is published, or it
-- throws.
pub data Published : Type 0 where
  unpublished : Published
  publishes : Outcome → Published
  fails : Published

module _ (platform : Platform) (bucket : R2Bucket) where
  abbrev pub batch_request : List Json → Request
  batch_request uploads = record {
    method = codes "PUT";
    url = record {
      protocol = codes "https:";
      hostname = codes "artifacts.internal";
      port = [];
      pathname = codes "/batch";
      search = [];
    };
    headers = [];
    json = some (object ((codes "uploads", array uploads) ∷ []));
    bytes = [];
  }

  -- From the answer of the container, `none` where there is no archive or a request rejected, to the
  -- publication of what it sent. `readable` is that the text of an answer that failed resolves.
  unfoldable pub publish_materialization :
      bucket.State → (readable : Bool) → Option Response → Published × bucket.State
  publish_materialization state readable none = (unpublished, state)
  publish_materialization state readable (some response) =
      if not (is_ok response)
      then (if readable then (unpublished, state) else (fails, state))
      else elim (parse_materialization_outcome (json_of response)) [
        | none ↦ (unpublished, state)
        | some outcome ↦
            let (publication, after) =
              publish_artifact_batch platform bucket state (batch_request (uploads_of outcome)) in
            (
              elim publication [
                | none ↦ fails
                | some published ↦ if is_ok published then publishes outcome else unpublished
              ],
              after,
            )
      ]

abbrev pub mark_outcome : PackageRegistry → Text → Outcome → Result PackageRegistry
mark_outcome registry version (ready_outcome uploads) = mark_ready registry version
mark_outcome registry version (yanked_outcome diagnostic uploads) =
    mark_yanked registry version diagnostic

module _ (le : Text → Text → Bool) where
  -- The save and the answer after a transition of `#materialize`.
  unfoldable pub finished : Storage → Result PackageRegistry → Handled
  finished storage (err thrown) =
      ok (text_response 409 [] (codes "materialization completion conflicted"), storage)
  finished storage (ok after) = do
    saved ← save le storage after
    ok (json_response 200 [] (object (registry_json after)), saved)

  -- `#materialize` after its requests, at the storage of that time.
  unfoldable pub finish_materialization : Storage → Text → Published → Handled
  unfolding finished
  finish_materialization storage version unpublished = release_package_lease le storage version
  finish_materialization storage version fails = err call_rejected
  finish_materialization storage version (publishes outcome) = do
    completed ← load storage none
    finished storage (mark_outcome completed version outcome)
