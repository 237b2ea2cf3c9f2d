-- ===== src/Publication/Outcomes.antt =====
-- What a call of `publishArtifact` of src/r2-publication.ts may leave in the bucket.
use jsrproxy.Common.Decimal.{is_digit}
use jsrproxy.Common.Scanning.{all}
use jsrproxy.Common.{
  All, length, leb, nat_eq, ◌||◌, ℕ, ◌≤◌, ◌≡◌, ◌≢◌, refl, sym, ap, subst, ◌∙◌, ◌⊎◌, inl, inr, Bool,
  true, false, not, ◌&&◌, Bool-cases, Option-cases, Option, none, some, List, [], ◌∷◌, Text, codes,
  arith, ◌==◌, text_eq, if◌then◌else◌, text_beq_iff, text_beq-eq,
}
use jsrproxy.Common.Http.{Request, Response, is_ok}
use jsrproxy.Common.Map.{get}
use jsrproxy.Publication.Bucket.{R2Bucket, R2StoredObject, stored_object, Unchanged, Adds}
use jsrproxy.Publication.{
  Platform, is_hex, is_checksum, artifact_key, sha256_hex, sha256_header, stored_checksum,
  put_options,
}

-- 64 digits 0-9 and a-f.
abbrev pub IsChecksum : Text → Type 0
IsChecksum s = All (λ c. ((48 ≤ c) × (c ≤ 57)) ⊎ ((97 ≤ c) × (c ≤ 102))) s × (length s ≡ 64)

all-is_hex :
    (s : Text) → all is_hex s ≡ true → All (λ c. ((48 ≤ c) × (c ≤ 57)) ⊎ ((97 ≤ c) × (c ≤ 102))) s
unfolding all
all-is_hex [] h = tt
all-is_hex (c ∷ s) h = (
  elim (Bool-cases (is_digit c)) [
    | inl e ↦ inl (ground arith, ground arith)
    | inr e ↦ inr (ground arith, ground arith)
  ],
  all-is_hex s (ground arith),
)

is_hex-all :
    (s : Text) → All (λ c. ((48 ≤ c) × (c ≤ 57)) ⊎ ((97 ≤ c) × (c ≤ 102))) s → all is_hex s ≡ true
unfolding all
is_hex-all [] h = refl
is_hex-all (c ∷ s) (inl (from, to), h) = ground (arith, is_hex-all s h)
is_hex-all (c ∷ s) (inr (from, to), h) = ground (arith, is_hex-all s h)

pub is_checksum-IsChecksum : (s : Text) → is_checksum s ≡ true → IsChecksum s
unfolding is_checksum
is_checksum-IsChecksum s h = (all-is_hex s (ground arith), ground arith)

pub IsChecksum-is_checksum : (s : Text) → IsChecksum s → is_checksum s ≡ true
unfolding is_checksum
IsChecksum-is_checksum s (units, long) = ground (arith, is_hex-all s units, long)

module _ (bucket : R2Bucket) where
  -- Every object of the bucket stays as it is.
  abbrev pub Keeps : bucket.State → bucket.State → Type 0
  Keeps before after =
      (key : Text) (stored : R2StoredObject)
      → bucket.object before key ≡ some stored
      → bucket.object after key ≡ some stored

  pub Keeps-trans : (a b c : bucket.State) → Keeps a b → Keeps b c → Keeps a c
  Keeps-trans a b c p q key stored h = q key stored (p key stored h)

module _ (platform : Platform) (bucket : R2Bucket) where
  -- Every object that has a checksum has the bytes of that checksum.
  abbrev pub IsIntact : bucket.State → Type 0
  IsIntact state =
      (key : Text) (stored : R2StoredObject) (checksum : Text)
      → bucket.object state key ≡ some stored
      → stored_checksum (some stored) ≡ some checksum
      → sha256_hex platform.sha256 stored.bytes ≡ checksum

  pub IsIntact-Unchanged :
      (before after : bucket.State)
      → Unchanged bucket before after
      → IsIntact before
      → IsIntact after
  IsIntact-Unchanged before after same intact key stored checksum found =
      intact key stored checksum (sym (same key) ∙ found)

  -- Under `key` stands an object whose checksum is `expected`, and so is the digest of its bytes.
  pub record Holds (state : bucket.State) (key expected : Text) : Type 0 where
    pub stored : R2StoredObject
    pub found : bucket.object state key ≡ some stored
    pub checksum : stored_checksum (some stored) ≡ some expected
    pub digest : sha256_hex platform.sha256 stored.bytes ≡ expected

  -- An accepted request: its key, its checksum, and what stands in the bucket then. The object was
  -- written by this call, with the bytes that came, or it was there.
  pub record Published (before : bucket.State) (request : Request) (response : Response)
      (after : bucket.State) : Type 0 where
    pub key : Text
    pub expected : Text
    pub keyed : artifact_key platform.decode_uri_component request.url.pathname ≡ some key
    pub declared : get request.headers sha256_header ≡ some expected
    pub formed : IsChecksum expected
    pub verified : sha256_hex platform.sha256 request.bytes ≡ expected
    pub holds : Holds after key expected
    pub source :
        ((response.status ≡ 201)
          × (bucket.object before key ≡ none)
          × (holds.stored.bytes ≡ request.bytes))
        ⊎ ((response.status ≡ 200) × (bucket.object before key ≡ some holds.stored))
    pub kept : Keeps bucket before after
    pub others : (j : Text) → key ≢ j → bucket.object after j ≡ bucket.object before j

  -- Why a request is answered with an error.
  pub data Refusal (before : bucket.State) (request : Request) (response : Response) : Type 0 where
    not_put : response.status ≡ 405 → request.method ≢ codes "PUT" → Refusal before request response
    without_key :
        response.status ≡ 400
        → artifact_key platform.decode_uri_component request.url.pathname ≡ none
        → Refusal before request response
    without_checksum :
        response.status ≡ 400
        → ((expected : Text)
            → get request.headers sha256_header ≡ some expected
            → ¬ IsChecksum expected)
        → Refusal before request response
    other_bytes :
        (expected : Text)
        → response.status ≡ 422
        → get request.headers sha256_header ≡ some expected
        → sha256_hex platform.sha256 request.bytes ≢ expected
        → Refusal before request response
    occupied :
        (key expected : Text) (old : R2StoredObject)
        → response.status ≡ 409
        → artifact_key platform.decode_uri_component request.url.pathname ≡ some key
        → get request.headers sha256_header ≡ some expected
        → bucket.object before key ≡ some old
        → stored_checksum (some old) ≢ some expected
        → Refusal before request response

  -- The `put` of the request's artifact, or the `head` after it, has rejected.
  pub data Rejects (before : bucket.State) (request : Request) (after : bucket.State) : Type 0 where
    rejects :
        (key expected : Text)
        → artifact_key platform.decode_uri_component request.url.pathname ≡ some key
        → get request.headers sha256_header ≡ some expected
        → ((bucket.put before key request.bytes (put_options key expected)).0 ≡ none)
          ⊎ (bucket.head after key ≡ none)
        → Rejects before request after

  -- What a call has done: published its artifact, answered with an error and changed nothing, or
  -- rejected, and then every object that was there is as it was.
  pub data Outcome (before : bucket.State) (request : Request)
      (result : Option Response × bucket.State) : Type 0 where
    published :
        (response : Response)
        → result.0 ≡ some response
        → is_ok response ≡ true
        → Published before request response result.1
        → IsIntact result.1
        → Outcome before request result
    refused :
        (response : Response)
        → result.0 ≡ some response
        → is_ok response ≡ false
        → Refusal before request response
        → Unchanged bucket before result.1
        → Outcome before request result
    rejected :
        result.0 ≡ none
        → Rejects before request result.1
        → Keeps bucket before result.1
        → IsIntact result.1
        → Outcome before request result

  -- Writing an object under a key that has none, with the bytes of its checksum.
  module _ (before after : bucket.State) (key expected : Text) (bytes : List ℕ)
      (absent : bucket.object before key ≡ none)
      (added : Adds bucket before after key (stored_object bytes (put_options key expected))) where
    pub Adds-found : bucket.object after key ≡ some (stored_object bytes (put_options key expected))
    Adds-found = added key ∙ rw ((text_beq_iff key key).1 refl) refl

    pub Adds-others : (j : Text) → key ≢ j → bucket.object after j ≡ bucket.object before j
    Adds-others j other = elim (Bool-cases (key == j)) [
      | inl same ↦ absurd (other (text_beq-eq key j same))
      | inr different ↦ added j ∙ rw different refl
    ]

    pub Adds-Keeps : Keeps bucket before after
    Adds-Keeps j stored h = elim (Bool-cases (key == j)) [
      | inl same ↦ absurd (cc (absent, ap (bucket.object before) (text_beq-eq key j same), h))
      | inr different ↦ added j ∙ rw different h
    ]

    pub stored_checksum-stored_object :
        stored_checksum (some (stored_object bytes (put_options key expected))) ≡ some expected
    unfolding stored_checksum get jsrproxy.Common.text_beq
    stored_checksum-stored_object = refl

    pub Adds-IsIntact :
        sha256_hex platform.sha256 bytes ≡ expected → IsIntact before → IsIntact after
    Adds-IsIntact verified intact j stored checksum found h = elim (Bool-cases (key == j)) [
      | inr different ↦
          let old = rw different at (sym (added j) ∙ found) in intact j stored checksum old h
      | inl same ↦
          let at_key : some (stored_object bytes (put_options key expected)) ≡ some stored =
            sym Adds-found ∙ ap (bucket.object after) (text_beq-eq key j same) ∙ found in
          let new : stored_object bytes (put_options key expected) ≡ stored = cc in
          let told : some expected ≡ some checksum =
            sym stored_checksum-stored_object ∙ ap (λ o. stored_checksum (some o)) new ∙ h in
          let declared : expected ≡ checksum = cc in
          ap (λ o. sha256_hex platform.sha256 o.bytes) (sym new) ∙ verified ∙ declared
    ]
