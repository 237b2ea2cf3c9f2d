-- ===== src/Publication.antt =====
-- src/r2-publication.ts: how the artifacts of a version are written to R2, each of them once.
pub mod Bucket
pub mod Outcomes
pub mod Writes
pub mod Batches
pub mod Loop
pub mod Order
mod Examples
use jsrproxy.Common.{
  ℕ, ◌+◌, ◌-◌, ◌/◌, ◌%◌, Bool, true, false, not, ◌&&◌, ◌||◌, Option, none, some, List, [], ◌∷◌,
  ◌++◌, Text, codes, map, length, any, ltb, leb, if◌then◌else◌, ◌==◌, nat_eq, text_eq, flat_map,
}
use jsrproxy.Common.Decimal.{is_digit}
use jsrproxy.Common.Http.{Request, Response, Url, text_response, empty_response, is_ok}
use jsrproxy.Common.Json.{Json, field, as_string, as_array}
use jsrproxy.Common.Map.{Map, get}
use jsrproxy.Common.Scanning.{all, span, strip_prefix, guard, ◌>>=◌, ◌>>◌}
use jsrproxy.Common.Splitting.{split, join, includes, ends_with, drop}
use jsrproxy.Config.{is_null}
use jsrproxy.Identity.{is_part, is_scope, scope_and_name}
use Bucket.{R2Bucket, R2StoredObject, PutOptions}

-- What the code calls of the platform. `none` is a call that throws.
pub record Platform : Type 0 where
  pub decode_uri_component : Text → Option Text
  pub atob : Text → Option (List ℕ)
  -- The digest of `crypto.subtle`.
  pub sha256 : List ℕ → List ℕ
  -- The path of a URL, as `new URL` normalises it.
  pub pathname : Text → Text
  -- The value of a header, as `new Request` normalises it.
  pub header_value : Text → Option Text

-- [0-9]+ at the front.
unfoldable pub digits_prefix : Text → Option Text
digits_prefix s = let (run, rest) = span is_digit s in if run == [] then none else some rest

-- What follows `[0-9]+\.[0-9]+\.[0-9]+`: nothing behind a run of digits is a digit, so the longest
-- run is the only match.
unfoldable pub version_prefix : Text → Option Text
unfolding digits_prefix
version_prefix s = do
  after_major ← digits_prefix s
  minor ← strip_prefix (codes ".") after_major
  after_minor ← digits_prefix minor
  patch ← strip_prefix (codes ".") after_minor
  digits_prefix patch

-- `.` of a pattern: all but the line terminators.
unfoldable pub is_line_unit : ℕ → Bool
is_line_unit c = not ((c == 10) || (c == 13) || (c == 0x2028) || (c == 0x2029))

-- (?:\.ready\.json|_meta\.json|\/.*)?$
unfoldable pub is_key_end : Text → Bool
unfolding is_line_unit
is_key_end [] = true
is_key_end (c ∷ s) =
    ((c ∷ s) == codes ".ready.json")
    || ((c ∷ s) == codes "_meta.json")
    || ((c == b'/') && all is_line_unit s)

-- The pattern of a key.
unfoldable pub is_key : Text → Bool
unfolding version_prefix is_key_end
is_key key =
    elim (do
      (scope, (name, rest)) ← scope_and_name (codes "synthetic/") key
      version ← strip_prefix (codes "/") rest
      end ← version_prefix version
      guard (is_key_end end)) [ none ↦ false | some done ↦ true ]

-- `!segment || segment === "." || segment === ".." || segment.includes("\\")`
unfoldable pub is_bad_segment : Option Text → Bool
is_bad_segment none = true
is_bad_segment (some segment) =
    (segment == []) || (segment == codes ".") || (segment == codes "..") || includes 92 segment

unfoldable pub decoded_text : Option Text → Text
decoded_text none = []
decoded_text (some s) = s

-- `segments[0] !== "" || segments[1] !== "synthetic" || segments.length < 5`
unfoldable pub is_synthetic : List Text → Bool
is_synthetic (first ∷ second ∷ rest) =
    (first == []) && (second == codes "synthetic") && leb 3 (length rest)
is_synthetic _ = false

unfoldable pub artifact_key : (Text → Option Text) → Text → Option Text
unfolding is_synthetic is_bad_segment decoded_text
artifact_key decode pathname =
    let segments = split b'/' pathname in
    let decoded = map decode (drop 1 segments) in
    let key = join b'/' (map decoded_text decoded) in
    if is_synthetic segments && not (any is_bad_segment decoded) && is_key key
    then some key
    else none

-- /\.(?:ts|mts|cts|tsx)$/ and the other tests in turn.
unfoldable pub content_type : Text → Text
content_type key =
    if ends_with (codes ".ts") key
      || ends_with (codes ".mts") key
      || ends_with (codes ".cts") key
      || ends_with (codes ".tsx") key
    then codes "application/typescript"
    else if ends_with (codes ".js") key
        || ends_with (codes ".mjs") key
        || ends_with (codes ".cjs") key
        || ends_with (codes ".jsx") key
    then codes "application/javascript"
    else if ends_with (codes ".json") key
    then codes "application/json"
    else if ends_with (codes ".wasm") key
    then codes "application/wasm"
    else codes "application/octet-stream"

-- A digit of `toString(16)`.
unfoldable pub hex_digit : ℕ → ℕ
hex_digit n = if ltb n 10 then b'0' + n else b'a' + (n - 10)

-- `byte.toString(16).padStart(2, "0")`
unfoldable pub hex_byte : ℕ → Text
unfolding hex_digit
hex_byte byte = hex_digit (byte / 16) ∷ hex_digit (byte % 16) ∷ []

unfoldable pub sha256_hex : (List ℕ → List ℕ) → List ℕ → Text
unfolding hex_byte
sha256_hex sha256 bytes = flat_map hex_byte (sha256 bytes)

-- [0-9a-f]
abbrev pub is_hex : ℕ → Bool
is_hex c = is_digit c || (leb b'a' c && leb c b'f')

-- /^[0-9a-f]{64}$/
unfoldable pub is_checksum : Text → Bool
is_checksum s = all is_hex s && (length s == 64)

abbrev pub sha256_header : Text
sha256_header = codes "x-jsrproxy-sha256"

-- `existing?.customMetadata?.sha256`
unfoldable pub stored_checksum : Option R2StoredObject → Option Text
stored_checksum none = none
stored_checksum (some stored) = elim stored.custom_metadata [
  | none ↦ none
  | some metadata ↦ get metadata (codes "sha256")
]

abbrev pub put_options : Text → Text → PutOptions
put_options key expected = record {
  etag_does_not_match = codes "*";
  custom_metadata = (codes "sha256", expected) ∷ [];
  content_type = content_type key;
}

abbrev pub is_value : Option Text → Text → Bool
is_value none expected = false
is_value (some s) expected = s == expected

-- How a round of the loop over the uploads ends: with the next one, a response, or a TypeError or
-- the rejection of a call of the bucket.
pub data Flow : Type 0 where
  goes_on : Flow
  answers : Response → Flow
  throws : Flow

-- `if (!response.ok) return response`, after the call.
abbrev pub flow_of : Option Response → Flow
flow_of none = throws
flow_of (some response) = if is_ok response then goes_on else answers response

-- `none` is a call that throws.
abbrev pub batch_response : Flow → Option Response
batch_response goes_on = some (empty_response 204 [])
batch_response (answers response) = some response
batch_response throws = none

-- The key, the checksum and the body of an upload.
unfoldable pub read_upload : Json → Option (Text × (Text × Text))
read_upload upload = do
  key ← as_string (field (some upload) (codes "key"))
  checksum ← as_string (field (some upload) (codes "sha256"))
  body ← as_string (field (some upload) (codes "body"))
  some (key, (checksum, body))

module _ (platform : Platform) (bucket : R2Bucket) where
  -- The write, once the request is accepted.
  unfoldable pub existing_response : Option R2StoredObject → Text → Response
  existing_response existing expected =
      if is_value (stored_checksum existing) expected
      then empty_response 200 []
      else text_response 409 [] (codes "artifact key already exists with different bytes")

  -- The answer to a `put` that returned `written`; `none` is a call that rejects.
  unfoldable pub write_response :
      bucket.State → Text → Text → Option (Option R2StoredObject) → Option Response
  unfolding existing_response
  write_response after key expected none = none
  write_response after key expected (some (some stored)) = some (empty_response 201 [])
  write_response after key expected (some none) = elim (bucket.head after key) [
    | none ↦ none
    | some existing ↦ some (existing_response existing expected)
  ]

  unfoldable pub write_artifact :
      bucket.State → Text → List ℕ → Text → Option Response × bucket.State
  unfolding write_response
  write_artifact state key bytes expected =
      let (written, after) = bucket.put state key bytes (put_options key expected) in
      (write_response after key expected written, after)

  -- `!expected || !/^[0-9a-f]{64}$/.test(expected)`: the pattern refuses the empty text too.
  unfoldable pub checked_artifact : bucket.State → Request → Text → Option Response × bucket.State
  unfolding write_artifact
  checked_artifact state request key = elim (get request.headers sha256_header) [
    | none ↦ (some (text_response 400 [] (codes "missing or invalid x-jsrproxy-sha256")), state)
    | some expected ↦
        if not (is_checksum expected)
        then (some (text_response 400 [] (codes "missing or invalid x-jsrproxy-sha256")), state)
        else if not (sha256_hex platform.sha256 request.bytes == expected)
        then (some (text_response 422 [] (codes "artifact checksum did not match body")), state)
        else write_artifact state key request.bytes expected
  ]

  unfoldable pub publish_artifact : bucket.State → Request → Option Response × bucket.State
  unfolding checked_artifact
  publish_artifact state request =
      if not (request.method == codes "PUT")
      then (
        some (text_response 405 ((codes "allow", codes "PUT") ∷ []) (codes "method not allowed")),
        state,
      )
      else elim (artifact_key platform.decode_uri_component request.url.pathname) [
        | none ↦ (some (text_response 400 [] (codes "invalid artifact key")), state)
        | some key ↦ checked_artifact state request key
      ]

  -- The request that the loop of `publishArtifactBatch` makes of an upload.
  abbrev pub upload_request : Text → Text → List ℕ → Request
  upload_request key checksum bytes = record {
    method = codes "PUT";
    url = record {
      protocol = codes "http:";
      hostname = codes "artifacts.r2";
      port = [];
      pathname = platform.pathname (codes "http://artifacts.r2/" ++ key);
      search = [];
    };
    headers = (sha256_header, checksum) ∷ [];
    json = none;
    bytes = bytes;
  }

  unfoldable pub publish_upload : bucket.State → Json → Flow × bucket.State
  unfolding read_upload
  publish_upload state upload =
      if is_null upload then (throws, state) else elim (read_upload upload) [
        | none ↦ (answers (text_response 400 [] (codes "invalid artifact batch")), state)
        | some (key, (checksum, body)) ↦ elim (platform.atob body) [
          | none ↦ (answers (text_response 400 [] (codes "invalid artifact body")), state)
          | some bytes ↦ elim (platform.header_value checksum) [
            | none ↦ (throws, state)
            | some value ↦
                let (response, after) = publish_artifact state (upload_request key value bytes) in
                (flow_of response, after)
          ]
        ]
      ]

  unfoldable pub publish_uploads : bucket.State → List Json → Flow × bucket.State
  publish_uploads state [] = (goes_on, state)
  publish_uploads state (upload ∷ uploads) =
      let rest = publish_uploads (publish_upload state upload).1 uploads in
      elim (publish_upload state upload).0 [
        | goes_on ↦ rest
        | answers response ↦ (answers response, (publish_upload state upload).1)
        | throws ↦ (throws, (publish_upload state upload).1)
      ]

  unfoldable pub publish_artifact_batch : bucket.State → Request → Option Response × bucket.State
  publish_artifact_batch state request =
      if not (request.method == codes "PUT") || not (request.url.pathname == codes "/batch")
      then (some (text_response 404 [] (codes "not found")), state)
      else elim (as_array (field request.json (codes "uploads"))) [
        | none ↦ (some (text_response 400 [] (codes "invalid artifact batch")), state)
        | some [] ↦ (some (text_response 400 [] (codes "invalid artifact batch")), state)
        | some (upload ∷ uploads) ↦
            let (flow, after) = publish_uploads state (upload ∷ uploads) in
            (batch_response flow, after)
      ]
