-- ===== src/Artifacts.antt =====
-- src/r2-artifacts.ts: how the artifacts of a version are served from R2.
pub mod Laws
mod Examples
use jsrproxy.Common.{
  ℕ, Bool, true, false, ◌||◌, Option, none, some, List, [], ◌∷◌, ◌++◌, Text, codes, if◌then◌else◌,
  ◌==◌, text_eq,
}
use jsrproxy.Common.Http.{Response, octets, text_response, empty_response}
use jsrproxy.Common.Map.{Map, get}
use jsrproxy.Common.Splitting.{ends_with}

-- `uploaded` in milliseconds; `content_type` is `httpMetadata?.contentType`.
pub record R2Object : Type 0 where
  pub body : List ℕ
  pub http_etag : Text
  pub uploaded : ℕ
  pub content_type : Option Text

-- /\.(?:ts|mts|cts|tsx)$/ and the other tests in turn.
unfoldable pub content_type : Text → Text
content_type key =
    if ends_with (codes ".ts") key
      || ends_with (codes ".mts") key
      || ends_with (codes ".cts") key
      || ends_with (codes ".tsx") key
    then codes "application/typescript"
    else if ends_with (codes ".js") key
        || ends_with (codes ".mjs") key
        || ends_with (codes ".cjs") key
        || ends_with (codes ".jsx") key
    then codes "application/javascript"
    else if ends_with (codes ".json") key
    then codes "application/json"
    else if ends_with (codes ".wasm") key
    then codes "application/wasm"
    else codes "application/octet-stream"

-- "${object.httpEtag}", in quotes.
abbrev pub etag_of : R2Object → Text
etag_of object = b'"' ∷ (object.http_etag ++ b'"' ∷ [])

-- `headers.get(name) === value`
abbrev pub header_is : Map Text Text → Text → Text → Bool
header_is headers name value = elim (get headers name) [ none ↦ false | some v ↦ v == value ]

abbrev pub or_type : Option Text → Text → Text
or_type none key = content_type key
or_type (some stored) key = stored

-- `new Response(object.body, { headers })`
abbrev pub object_response : R2Object → Text → Text → Response
object_response object key modified = record {
  status = 200;
  headers =
      (codes "content-type", or_type object.content_type key)
      ∷ (codes "cache-control", codes "public, max-age=31536000, immutable")
      ∷ (codes "etag", etag_of object)
      ∷ (codes "last-modified", modified)
      ∷ [];
  content = octets object.body;
}

-- `bucket` is `bucket.get`, and `to_utc_string` the one of `Date`.
unfoldable pub serve_object : (ℕ → Text) → R2Object → Text → Map Text Text → Response
serve_object to_utc_string object key headers =
    let modified = to_utc_string object.uploaded in
    if header_is headers (codes "if-none-match") (etag_of object)
      || header_is headers (codes "if-modified-since") modified
    then empty_response 304
        ((codes "etag", etag_of object) ∷ (codes "last-modified", modified) ∷ [])
    else object_response object key modified

unfoldable pub serve_artifact :
    (Text → Option R2Object) → (ℕ → Text) → (version_prefix key : Text) → Map Text Text → Response
serve_artifact bucket to_utc_string version_prefix key headers =
    elim (bucket (version_prefix ++ codes ".ready.json")) [
      | none ↦ text_response 404 [] (codes "not found")
      | some marker ↦ elim (bucket key) [
        | none ↦ text_response 404 [] (codes "not found")
        | some object ↦ serve_object to_utc_string object key headers
      ]
    ]
