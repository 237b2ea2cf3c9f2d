-- ===== src/DurableObjects/Examples.antt =====
-- The laws of src/durable-objects.ts at a package that is refreshed, published and leased.
use jsrproxy.Common.{
  ℕ, ◌≡◌, refl, ◌⊎◌, Bool, true, false, Option, none, some, List, [], ◌∷◌, ◌++◌, Text, codes, leb,
  ◌==◌, text_eq, nat_eq, if◌then◌else◌, Result, ok, err,
}
use jsrproxy.Common.Http.{Request}
use jsrproxy.Common.Json.{Json, str, num, whole}
use jsrproxy.Common.Map.{Map, get}
use jsrproxy.PackageRegistry.Records.{PackageRegistry, VersionRecord, MetaVersion, ready}
use jsrproxy.PackageRegistry.{new_registry, meta, from_snapshot, snapshot}
use jsrproxy.DurableObjects.Printing.{object, array}
use jsrproxy.DurableObjects.Storage.{Storage, load, save, is_named}
use jsrproxy.DurableObjects.Requests.{
  Event, refresh_request, complete_request, materialize_request, after_event, Refines,
  after_event-Refines,
}
use jsrproxy.DurableObjects.Lasting.{
  Served, served_none, serves, fresh, Served-published, Served-meta,
}

abbrev text_le : Text → Text → Bool
text_le [] t = true
text_le (c ∷ s) [] = false
text_le (c ∷ s) (d ∷ t) = if c == d then text_le s t else leb c d

abbrev request : Text → Json → Request
request pathname body = record {
  method = codes "POST";
  url = record {
    protocol = codes "https:";
    hostname = codes "package.internal";
    port = [];
    pathname = pathname;
    search = [];
  };
  headers = [];
  json = some body;
  bytes = [];
}

abbrev tip_json : Text → Text → ℕ → Json
tip_json name sha committed_at = object (
    (codes "name", str name)
    ∷ (codes "sha", str sha)
    ∷ (codes "committedAt", num (whole committed_at))
    ∷ [])

abbrev refresh_body : Json
refresh_body = object (
    (
      codes "package",
      object ((codes "scope", str (codes "acme")) ∷ (codes "name", str (codes "tool")) ∷ []),
    )
    ∷ (
      codes "discovery",
      object (
          (codes "defaultBranch", str (codes "main"))
          ∷ (
            codes "branches",
            array (
                tip_json (codes "main") (codes "ab") 100
                ∷ tip_json (codes "v1") (codes "cd") 200
                ∷ []),
          )
          ∷ []),
    )
    ∷ [])

abbrev complete_body : Json
complete_body =
    object ((codes "version", str (codes "1.1.200")) ∷ (codes "state", str (codes "ready")) ∷ [])

abbrev materialize_body : Json
materialize_body = object (
    (codes "owner", str (codes "acme"))
    ∷ (codes "repository", str (codes "tool"))
    ∷ (codes "pat", str (codes "p"))
    ∷ (codes "statusUrl", str (codes "u"))
    ∷ [])

abbrev refreshing : Event
refreshing = refresh_request (request (codes "/refresh") refresh_body)

abbrev completing : Event
completing = complete_request (request (codes "/complete") complete_body)

abbrev leasing : Event
leasing = materialize_request true 5_000 (request (codes "/materialize") materialize_body)

abbrev refreshed : Storage
refreshed = after_event text_le [] (fresh []) refreshing

abbrev completed : Storage
completed = after_event text_le [] refreshed completing

abbrev leased_storage : Storage
leased_storage = after_event text_le [] completed leasing

to_completed : Served text_le [] (fresh []) completed
to_completed = serves (serves served_none refreshing) completing

to_leased : Served text_le [] completed leased_storage
to_leased = serves served_none leasing

abbrev loaded_or : Result PackageRegistry → PackageRegistry
loaded_or (ok registry) = registry
loaded_or (err thrown) = new_registry (record { scope = []; name = [] })

abbrev registry_of : Storage → PackageRegistry
registry_of storage = loaded_or (load storage none)

abbrev published_record : VersionRecord
published_record = record {
  job = record {
    branch = codes "v1";
    commit_sha = codes "cd";
    major = 1;
    version = codes "1.1.200";
    state = ready;
    leased_at = none;
    diagnostic = none;
  };
  assignment = record {
    major = 1;
    sequence = 200;
    attempt = 0;
    commit_sha = codes "cd";
    version = codes "1.1.200";
  };
}

-- What these runs compute with.
runs : Bool
unfolding load after_event save is_named jsrproxy.DurableObjects.Package.complete_package
    jsrproxy.DurableObjects.Package.complete_saved jsrproxy.DurableObjects.Package.refresh_package
    jsrproxy.DurableObjects.Package.refresh_input
    jsrproxy.DurableObjects.Package.begin_materialization
    jsrproxy.DurableObjects.Parsing.parse_completion
    jsrproxy.DurableObjects.Parsing.parse_package_name
    jsrproxy.DurableObjects.Parsing.parse_discovery jsrproxy.DurableObjects.Parsing.parse_branches
    jsrproxy.DurableObjects.Parsing.parse_branch
    jsrproxy.DurableObjects.Parsing.parse_materialization jsrproxy.Common.Json.as_string
    jsrproxy.Common.Json.as_array jsrproxy.Common.Json.as_safe jsrproxy.Common.Json.field
    jsrproxy.Common.Json.member_of jsrproxy.Common.Json.of_entries jsrproxy.Common.Json.of_list
    jsrproxy.Common.Json.elements jsrproxy.Common.Json.is_object jsrproxy.PackageRegistry.refresh
    jsrproxy.PackageRegistry.refresh_branches jsrproxy.PackageRegistry.enter
    jsrproxy.PackageRegistry.mark_ready jsrproxy.PackageRegistry.require_pending
    jsrproxy.PackageRegistry.lease_next jsrproxy.PackageRegistry.next_job
    jsrproxy.PackageRegistry.is_available from_snapshot snapshot
    jsrproxy.PackageRegistry.restore_versions meta jsrproxy.PackageRegistry.meta_versions
    jsrproxy.VersionAllocator.allocate jsrproxy.VersionAllocator.validate_inputs
    jsrproxy.VersionAllocator.for_major jsrproxy.VersionAllocator.append
    jsrproxy.VersionAllocator.appended jsrproxy.VersionAllocator.after_high_water
    jsrproxy.VersionAllocator.add_one jsrproxy.VersionAllocator.key
    jsrproxy.VersionAllocator.version_text jsrproxy.VersionAllocator.snapshot
    jsrproxy.VersionAllocator.from_snapshot jsrproxy.VersionAllocator.restore_all
    jsrproxy.VersionAllocator.restore jsrproxy.VersionAllocator.restored
    jsrproxy.Branches.select_branches jsrproxy.Branches.collect jsrproxy.Branches.visit
    jsrproxy.Branches.observe jsrproxy.Branches.release_major jsrproxy.Branches.all_digits
    jsrproxy.Branches.is_numeral jsrproxy.Branches.same_commit_release
    jsrproxy.Branches.with_default jsrproxy.Branches.default_major jsrproxy.Common.Decimal.number
    jsrproxy.Common.Decimal.decimal get jsrproxy.Common.Map.set jsrproxy.Common.text_beq
    jsrproxy.Common.filter jsrproxy.Common.sort_by jsrproxy.Common.insert_by
    jsrproxy.Common.flat_map
runs = true

at_completed : load completed none ≡ ok (registry_of completed)
unfolding runs
at_completed = refl

at_leased : load leased_storage none ≡ ok (registry_of leased_storage)
unfolding runs
at_leased = refl

record_found : get (registry_of completed).versions (codes "1.1.200") ≡ some published_record
unfolding runs
record_found = refl

Served-published_example :
    get (registry_of leased_storage).versions (codes "1.1.200") ≡ some published_record
Served-published_example =
    Served-published text_le [] [] (codes "1.1.200") published_record (registry_of completed)
      (registry_of leased_storage) to_completed at_completed record_found tt to_leased at_leased

abbrev not_yanked : MetaVersion
not_yanked = record { yanked = false }

listed_found : get (meta (registry_of completed)).versions (codes "1.1.200") ≡ some not_yanked
unfolding runs
listed_found = refl

Served-meta_example :
    get (meta (registry_of leased_storage)).versions (codes "1.1.200") ≡ some not_yanked
Served-meta_example =
    Served-meta text_le [] [] (codes "1.1.200") not_yanked (registry_of completed)
      (registry_of leased_storage) to_completed at_completed listed_found to_leased at_leased

after_event-Refines_example : Refines text_le [] refreshed completed
after_event-Refines_example = after_event-Refines text_le [] refreshed completing
