-- ===== src/Publication/Examples.antt =====
-- The laws of src/r2-publication.ts at a batch of one module and its ready marker.
use jsrproxy.Common.{
  ℕ, zero, suc, ◌+◌, ◌%◌, ◌≡◌, refl, sym, ap, ◌∙◌, inl, inr, Bool, true, false, Bool-cases,
  Option-cases, Option, none, some, List, [], ◌∷◌, ◌++◌, Text, codes, ◌==◌, text_eq, if◌then◌else◌,
  In, here, there, arith,
}
use jsrproxy.Common.Http.{Request, is_ok, empty_response}
use jsrproxy.Common.Json.{Json, str, arr, obj, member, end, element, nil, field, as_array}
use jsrproxy.Common.Map.{Map, get, set, get-set}
use jsrproxy.Common.Scanning.{strip_prefix}
use jsrproxy.Publication.Bucket.{
  R2Bucket, R2StoredObject, PutOptions, IsConditional, stored_object, put_done,
}
use jsrproxy.Publication.{
  Platform, goes_on, sha256_hex, upload_request, publish_artifact, publish_uploads,
  publish_artifact_batch,
}
use jsrproxy.Publication.Outcomes.{Outcome, IsIntact}
use jsrproxy.Publication.Writes.{publish_artifact-Outcome}
use jsrproxy.Publication.Batches.{Stored}
use jsrproxy.Publication.Loop.{publish_uploads-Keeps}
use jsrproxy.Publication.Order.{publish_uploads-marker_last, publish_artifact_batch-Stored}

abbrev Objects : Type 0
Objects = Map Text R2StoredObject

abbrev put : Objects → Text → List ℕ → PutOptions → Option (Option R2StoredObject) × Objects
put objects key bytes options = elim (get objects key) [
  | some stored ↦ (some none, objects)
  | none ↦
      (some (some (stored_object bytes options)), set objects key (stored_object bytes options))
]

abbrev bucket : R2Bucket
bucket = record {
  State = Objects;
  object = get;
  head = λ objects key. some (get objects key);
  put = put;
}

bucket-IsConditional : IsConditional bucket
bucket-IsConditional = record {
  head-object = λ objects key o answered. cc;
  put-absent = λ objects key bytes options any absent.
      put_done (rw (absent, put) refl)
        (λ j. rw (absent, put) (get-set objects key j (stored_object bytes options)));
  put-present = λ objects key bytes options stored any present.
      (inl (rw (present, put) refl), λ j. rw (present, put) refl);
}

sum : List ℕ → ℕ
sum [] = 0
sum (b ∷ bytes) = b + sum bytes

repeat : ℕ → ℕ → List ℕ
repeat zero b = []
repeat (suc n) b = b ∷ repeat n b

-- A digest of 32 bytes, each the sum of all bytes.
digest : List ℕ → List ℕ
unfolding sum repeat
digest bytes = repeat 32 (sum bytes % 256)

abbrev behind_host : Option Text → Text
behind_host none = []
behind_host (some path) = b'/' ∷ path

abbrev platform : Platform
platform = record {
  decode_uri_component = some;
  atob = some;
  sha256 = digest;
  pathname = λ url. behind_host (strip_prefix (codes "http://artifacts.r2/") url);
  header_value = some;
}

abbrev upload : Text → Text → Json
upload key body = obj (
    member (codes "key") (str key) (
      member (codes "sha256") (str (sha256_hex digest body))
        (member (codes "body") (str body) end)))

abbrev module_upload : Json
module_upload = upload (codes "synthetic/acme/tool/1.1.5/mod.ts") (codes "A")

abbrev marker_key : Text
marker_key = codes "synthetic/acme/tool/1.1.5.ready.json"

abbrev marker_upload : Json
marker_upload = upload marker_key (codes "B")

abbrev batch : Request
batch = record {
  method = codes "PUT";
  url = record {
    protocol = codes "https:";
    hostname = codes "artifacts.internal";
    port = [];
    pathname = codes "/batch";
    search = [];
  };
  headers = [];
  json = some (
      obj (member (codes "uploads") (arr (element module_upload (element marker_upload nil))) end));
  bytes = [];
}

abbrev marker : R2StoredObject
marker = record {
  custom_metadata = some ((codes "sha256", sha256_hex digest (codes "B")) ∷ []);
  bytes = codes "B";
  content_type = codes "application/json";
}

empty_bucket-IsIntact : IsIntact platform bucket []
unfolding get
empty_bucket-IsIntact = λ key stored checksum found h. absurd (cc)

module_sent : Request
module_sent =
    upload_request platform bucket (codes "synthetic/acme/tool/1.1.5/mod.ts")
      (sha256_hex digest (codes "A")) (codes "A")

publish_artifact-Outcome_example :
    Outcome platform bucket [] module_sent (publish_artifact platform bucket [] module_sent)
publish_artifact-Outcome_example =
    publish_artifact-Outcome platform bucket bucket-IsConditional [] module_sent
      empty_bucket-IsIntact

marker-IsIntact : IsIntact platform bucket ((marker_key, marker) ∷ [])
unfolding get jsrproxy.Publication.stored_checksum
marker-IsIntact key stored checksum found h = elim (Bool-cases (marker_key == key)) [
  | inr other ↦ let gone = rw other at found in absurd (cc)
  | inl same ↦
      let at_key = rw same at found in
      let is_marker : marker ≡ stored = cc in
      let told : some (sha256_hex digest (codes "B")) ≡ some checksum =
        unfold jsrproxy.Common.text_beq in
        ap (λ o. jsrproxy.Publication.stored_checksum (some o)) is_marker ∙ h in
      ap (λ o. sha256_hex digest o.bytes) (sym is_marker) ∙ cc
]

batch_keeps :
    get
      (publish_uploads platform bucket
        ((marker_key, marker) ∷ [])
        (module_upload ∷ marker_upload ∷ [])).1
      marker_key
    ≡ some marker
batch_keeps =
    (publish_uploads-Keeps platform bucket bucket-IsConditional ((marker_key, marker) ∷ [])
        (module_upload ∷ marker_upload ∷ []) marker-IsIntact).0
      marker_key marker (unfold get jsrproxy.Common.text_beq in refl)

-- What a run of a batch computes through.
batch_runs : Bool
unfolding publish_uploads get jsrproxy.Common.Map.set jsrproxy.Publication.publish_upload
    jsrproxy.Common.Json.as_string jsrproxy.Common.Json.as_array jsrproxy.Common.Json.elements field
    jsrproxy.Common.text_beq is_ok publish_artifact publish_artifact_batch
    jsrproxy.Publication.artifact_key jsrproxy.Common.Splitting.split strip_prefix
    jsrproxy.Common.any jsrproxy.Common.Splitting.drop jsrproxy.Common.Splitting.includes
    jsrproxy.Publication.is_key jsrproxy.Identity.scope_and_name jsrproxy.Common.Splitting.join
    jsrproxy.Identity.is_scope jsrproxy.Common.Json.member_of jsrproxy.Common.flat_map
    jsrproxy.Common.Scanning.all jsrproxy.Common.Scanning.span jsrproxy.Common.Splitting.ends_with
    jsrproxy.Publication.checked_artifact jsrproxy.Publication.content_type
    jsrproxy.Publication.decoded_text jsrproxy.Publication.hex_byte
    jsrproxy.Publication.is_bad_segment jsrproxy.Publication.is_checksum
    jsrproxy.Publication.is_synthetic jsrproxy.Publication.read_upload sha256_hex
    jsrproxy.Publication.stored_checksum jsrproxy.Publication.version_prefix
    jsrproxy.Publication.write_artifact jsrproxy.Publication.write_response
    jsrproxy.Publication.existing_response digest
batch_runs = true

no_marker : get (publish_uploads platform bucket [] (module_upload ∷ [])).1 marker_key ≡ none
unfolding batch_runs
no_marker = refl

has_marker :
    get (publish_uploads platform bucket [] (module_upload ∷ marker_upload ∷ [])).1 marker_key
    ≡ some marker
unfolding batch_runs
has_marker = refl

publish_uploads-marker_last_example :
    Stored platform bucket bucket-IsConditional
      (publish_uploads platform bucket [] (module_upload ∷ marker_upload ∷ [])).1
      module_upload
publish_uploads-marker_last_example =
    publish_uploads-marker_last platform bucket bucket-IsConditional [] (module_upload ∷ [])
      (marker_upload ∷ []) marker_key marker empty_bucket-IsIntact no_marker has_marker
      module_upload here

batch_uploads :
    as_array (field batch.json (codes "uploads")) ≡ some (module_upload ∷ marker_upload ∷ [])
unfolding batch_runs
batch_uploads = refl

batch_accepted : (publish_artifact_batch platform bucket [] batch).0 ≡ some (empty_response 204 [])
unfolding batch_runs
batch_accepted = refl

publish_artifact_batch-Stored_example :
    Stored platform bucket bucket-IsConditional
      (publish_artifact_batch platform bucket [] batch).1
      marker_upload
publish_artifact_batch-Stored_example =
    publish_artifact_batch-Stored platform bucket bucket-IsConditional [] batch
      (module_upload ∷ marker_upload ∷ []) (empty_response 204 []) empty_bucket-IsIntact
      batch_uploads batch_accepted (unfold batch_runs in refl) marker_upload (there here)
