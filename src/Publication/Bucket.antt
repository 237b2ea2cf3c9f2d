-- ===== src/Publication/Bucket.antt =====
-- The bucket of src/r2-publication.ts, which R2 implements.
use jsrproxy.Common.{
  ℕ, ◌≡◌, ◌⊎◌, Option, none, some, List, Text, ◌==◌, if◌then◌else◌, text_eq, codes,
}
use jsrproxy.Common.Map.{Map}

-- An object of the bucket. The code reads its custom metadata alone.
pub record R2StoredObject : Type 0 where
  pub custom_metadata : Option (Map Text Text)
  pub bytes : List ℕ
  pub content_type : Text

pub record PutOptions : Type 0 where
  pub etag_does_not_match : Text
  pub custom_metadata : Map Text Text
  pub content_type : Text

-- `object` is what stands under a key; the code asks for it by `head`. A call returns `none` where it
-- rejects, and `put` returns no object where its condition does not hold.
pub record R2Bucket : Type 1 where
  pub State : Type 0
  pub object : State → Text → Option R2StoredObject
  pub head : State → Text → Option (Option R2StoredObject)
  pub put : State → Text → List ℕ → PutOptions → Option (Option R2StoredObject) × State

abbrev pub stored_object : List ℕ → PutOptions → R2StoredObject
stored_object bytes options = record {
  custom_metadata = some options.custom_metadata;
  bytes = bytes;
  content_type = options.content_type;
}

module _ (bucket : R2Bucket) where
  -- No object is written, replaced or removed.
  abbrev pub Unchanged : bucket.State → bucket.State → Type 0
  Unchanged before after = (key : Text) → bucket.object after key ≡ bucket.object before key

  -- One object is written under `key`.
  abbrev pub Adds : bucket.State → bucket.State → Text → R2StoredObject → Type 0
  Adds before after key stored =
      (j : Text)
      → bucket.object after j ≡ (if key == j then some stored else bucket.object before j)

  -- How a `put` on a key without an object ends: it writes and returns the object, or it rejects,
  -- and may have written.
  pub data PutEnds (before : bucket.State) (key : Text) (stored : R2StoredObject)
      (result : Option (Option R2StoredObject) × bucket.State) : Type 0 where
    put_done :
        result.0 ≡ some (some stored)
        → Adds before result.1 key stored
        → PutEnds before key stored result
    put_rejected :
        result.0 ≡ none
        → Unchanged before result.1 ⊎ Adds before result.1 key stored
        → PutEnds before key stored result

-- What R2 documents: `head` returns what stands under a key, and a `put` on the condition that no
-- etag matches writes where the key has no object, and changes nothing where it has one.
pub record IsConditional (bucket : R2Bucket) : Type 0 where
  pub head-object :
      (state : bucket.State) (key : Text) (o : Option R2StoredObject)
      → bucket.head state key ≡ some o
      → o ≡ bucket.object state key
  pub put-absent :
      (state : bucket.State) (key : Text) (bytes : List ℕ) (options : PutOptions)
      → options.etag_does_not_match ≡ codes "*"
      → bucket.object state key ≡ none
      → PutEnds bucket state key (stored_object bytes options) (bucket.put state key bytes options)
  pub put-present :
      (state : bucket.State) (key : Text) (bytes : List ℕ) (options : PutOptions)
      (stored : R2StoredObject)
      → options.etag_does_not_match ≡ codes "*"
      → bucket.object state key ≡ some stored
      → (((bucket.put state key bytes options).0 ≡ some none)
          ⊎ ((bucket.put state key bytes options).0 ≡ none))
        × Unchanged bucket state (bucket.put state key bytes options).1
