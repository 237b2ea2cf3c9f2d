-- ===== src/Artifacts/Examples.antt =====
-- The laws of src/r2-artifacts.ts at a bucket of one version.
use jsrproxy.Common.{
  ℕ, ◌≡◌, ◌≢◌, refl, ◌⊎◌, true, false, some, none, Option, List, [], ◌∷◌, ◌++◌, Text, codes, ◌==◌,
  text_eq, if◌then◌else◌,
}
use jsrproxy.Common.Http.{text_response}
use jsrproxy.Common.Map.{Map, get}
use jsrproxy.Artifacts.{R2Object, content_type, serve_object, serve_artifact}
use jsrproxy.Artifacts.Laws.{IsReady, Serves, serve_artifact-IsReady, serve_artifact-revalidates}

abbrev version_prefix : Text
version_prefix = codes "v/1.0.0/"

abbrev module_key : Text
module_key = codes "v/1.0.0/mod.ts"

abbrev marker_object : R2Object
marker_object = record {
  body = codes "{}";
  http_etag = codes "m";
  uploaded = 5;
  content_type = none;
}

abbrev module_object : R2Object
module_object = record {
  body = codes "1";
  http_etag = codes "a";
  uploaded = 5;
  content_type = none;
}

abbrev bucket : Text → Option R2Object
bucket key =
    if key == codes "v/1.0.0/.ready.json"
    then some marker_object
    else if key == module_key
    then some module_object
    else none

abbrev utc : ℕ → Text
utc n = codes "Thu, 01 Jan 1970 00:00:00 GMT"

module_object-IsReady : IsReady bucket utc version_prefix module_key module_object
unfolding jsrproxy.Common.text_beq
module_object-IsReady = record { marker = marker_object; marked = refl; found = refl }

abbrev cached : Map Text Text
cached = (codes "if-none-match", codes "\"a\"") ∷ []

serve_artifact-IsReady_example :
    ((object : R2Object) × IsReady bucket utc version_prefix module_key object
      × Serves bucket utc version_prefix module_key object cached
          (serve_artifact bucket utc version_prefix module_key cached))
    ⊎ (((object : R2Object) → ¬ IsReady bucket utc version_prefix module_key object)
        × (serve_artifact bucket utc version_prefix module_key cached
            ≡ text_response 404 [] (codes "not found")))
serve_artifact-IsReady_example = serve_artifact-IsReady bucket utc version_prefix module_key cached

serve_artifact-revalidates_example :
    (serve_artifact bucket utc version_prefix module_key cached).status ≡ 304
unfolding serve_artifact serve_object content_type get jsrproxy.Common.text_beq
    jsrproxy.Common.Splitting.ends_with
serve_artifact-revalidates_example =
    serve_artifact-revalidates bucket utc version_prefix module_key [] cached module_object
      (codes "\"a\"") module_object-IsReady refl refl

serve_types : content_type module_key ≡ codes "application/typescript"
unfolding content_type jsrproxy.Common.Splitting.ends_with jsrproxy.Common.text_beq
serve_types = refl
