-- ===== src/Publication/Writes.antt =====
-- What a call of `publishArtifact` of src/r2-publication.ts does to the bucket.
use jsrproxy.Common.{
  ◌≡◌, ◌≢◌, sym, text_beq_iff, false, refl, ap, ◌∙◌, ◌⊎◌, inl, inr, true, Bool-cases, Option-cases,
  Option, none, some, Text, codes, ◌==◌, text_eq, text_beq-eq,
}
use mathlib.Core.Bool.{false≢true}
use jsrproxy.Common.Http.{Request, Response, is_ok}
use jsrproxy.Common.Map.{get}
use jsrproxy.Publication.Bucket.{
  R2Bucket, R2StoredObject, IsConditional, stored_object, Unchanged, PutEnds, put_done,
  put_rejected,
}
use jsrproxy.Publication.{
  Platform, artifact_key, sha256_hex, sha256_header, is_checksum, stored_checksum, put_options,
  is_value, existing_response, write_response, write_artifact, checked_artifact, publish_artifact,
}
use jsrproxy.Publication.Outcomes.{
  IsIntact, IsIntact-Unchanged, Outcome, published, refused, rejected, rejects, not_put,
  without_key, without_checksum, other_bytes, occupied, IsChecksum, is_checksum-IsChecksum,
  IsChecksum-is_checksum, Adds-others, Adds-found, Adds-Keeps, stored_checksum-stored_object,
  Adds-IsIntact,
}

is_value-eq : (o : Option Text) (expected : Text) → is_value o expected ≡ true → o ≡ some expected
is_value-eq none expected e = cc
is_value-eq (some s) expected e = ap some (text_beq-eq s expected e)

is_value-ne : (o : Option Text) (expected : Text) → is_value o expected ≡ false → o ≢ some expected
is_value-ne none expected e h = cc
is_value-ne (some s) expected e h =
    let same : s ≡ expected = cc in false≢true (sym e ∙ (text_beq_iff s expected).1 same)

text_beq-ne : (a b : Text) → (a == b) ≡ false → a ≢ b
text_beq-ne a b e h = false≢true (sym e ∙ (text_beq_iff a b).1 h)

module _ (platform : Platform) (bucket : R2Bucket) (conditional : IsConditional bucket) where
  module _ (state : bucket.State) (request : Request) (key expected : Text)
      (intact : IsIntact platform bucket state)
      (keyed : artifact_key platform.decode_uri_component request.url.pathname ≡ some key)
      (declared : get request.headers sha256_header ≡ some expected) (formed : IsChecksum expected)
      (verified : sha256_hex platform.sha256 request.bytes ≡ expected) where
    abbrev put : Option (Option R2StoredObject) × bucket.State
    put = bucket.put state key request.bytes (put_options key expected)

    -- The call from the write on.
    abbrev result : Option Response × bucket.State
    result = write_artifact platform bucket state key request.bytes expected

    result-Outcome :
        Outcome platform bucket state request
          (write_response platform bucket put.1 key expected put.0, put.1)
        → Outcome platform bucket state request result
    unfolding write_artifact
    result-Outcome outcome = outcome

    -- On a key without an object.
    added-Outcome :
        bucket.object state key ≡ none
        → PutEnds bucket state key (stored_object request.bytes (put_options key expected)) put
        → Outcome platform bucket state request result
    unfolding write_response is_ok
    added-Outcome absent (put_done e added) = result-Outcome (
        rw e (
          published _ (unfold write_response in refl) (unfold is_ok in refl)
            (record {
              key = key;
              expected = expected;
              keyed = keyed;
              declared = declared;
              formed = formed;
              verified = verified;
              holds = record {
                stored = stored_object request.bytes (put_options key expected);
                found =
                    Adds-found platform bucket state put.1 key expected request.bytes absent added;
                checksum =
                    stored_checksum-stored_object platform bucket state put.1 key expected
                      request.bytes absent added;
                digest = verified;
              };
              source = inl (refl, absent, refl);
              kept = Adds-Keeps platform bucket state put.1 key expected request.bytes absent added;
              others =
                  Adds-others platform bucket state put.1 key expected request.bytes absent added;
            })
            (Adds-IsIntact platform bucket state put.1 key expected request.bytes absent added
              verified intact)))
    added-Outcome absent (put_rejected e ends) = result-Outcome (
        rw e (elim ends [
          | inl same ↦
              rejected (unfold write_response in refl) (rejects key expected keyed declared (inl e))
                (λ j stored h. same j ∙ h)
                (IsIntact-Unchanged platform bucket state put.1 same intact)
          | inr added ↦
              rejected (unfold write_response in refl) (rejects key expected keyed declared (inl e))
                (Adds-Keeps platform bucket state put.1 key expected request.bytes absent added)
                (Adds-IsIntact platform bucket state put.1 key expected request.bytes absent added
                  verified intact)
        ]))

    -- On a key that has the object `old`, which stays.
    module _ (old : R2StoredObject) (present : bucket.object state key ≡ some old)
        (same : Unchanged bucket state put.1) where
      existing-Outcome :
          Outcome platform bucket state request
            (some (existing_response platform bucket (some old) expected), put.1)
      unfolding existing_response
      existing-Outcome = elim (Bool-cases (is_value (stored_checksum (some old)) expected)) [
        | inr different ↦
            rw (different, existing_response)
              (refused _ refl (unfold is_ok in refl)
                (occupied key expected old refl keyed declared present
                  (is_value-ne (stored_checksum (some old)) expected different))
                same)
        | inl matches ↦
            let checksum = is_value-eq (stored_checksum (some old)) expected matches in
            rw (matches, existing_response)
              (published _ refl (unfold is_ok in refl)
                (record {
                  key = key;
                  expected = expected;
                  keyed = keyed;
                  declared = declared;
                  formed = formed;
                  verified = verified;
                  holds = record {
                    stored = old;
                    found = same key ∙ present;
                    checksum = checksum;
                    digest = intact key old expected present checksum;
                  };
                  source = inr (refl, present);
                  kept = λ j stored h. same j ∙ h;
                  others = λ j other. same j;
                })
                (IsIntact-Unchanged platform bucket state put.1 same intact))
      ]

      kept-Outcome :
          (put.0 ≡ some none) ⊎ (put.0 ≡ none) → Outcome platform bucket state request result
      unfolding write_response
      kept-Outcome (inr e) = result-Outcome (
          rw (e, write_response)
            (rejected refl (rejects key expected keyed declared (inl e)) (λ j stored h. same j ∙ h)
              (IsIntact-Unchanged platform bucket state put.1 same intact)))
      kept-Outcome (inl e) = result-Outcome (elim (Option-cases (bucket.head put.1 key)) [
        | inl failed ↦
            rw (e, failed, write_response)
              (rejected refl (rejects key expected keyed declared (inr failed))
                (λ j stored h. same j ∙ h)
                (IsIntact-Unchanged platform bucket state put.1 same intact))
        | inr (o, answered) ↦
            let existing : o ≡ some old =
              conditional.head-object put.1 key o answered ∙ same key ∙ present in
            rw (e, answered, existing, write_response) existing-Outcome
      ])

    written : Outcome platform bucket state request result
    written = elim (Option-cases (bucket.object state key)) [
      | inl absent ↦
          added-Outcome absent
            (conditional.put-absent state key request.bytes (put_options key expected) refl absent)
      | inr (old, present) ↦
          let (ends, same) =
            conditional.put-present state key request.bytes (put_options key expected) old refl
              present in
          kept-Outcome old present same ends
    ]

  checked :
      (state : bucket.State) (request : Request) (key : Text)
      → IsIntact platform bucket state
      → artifact_key platform.decode_uri_component request.url.pathname ≡ some key
      → Outcome platform bucket state request (checked_artifact platform bucket state request key)
  unfolding checked_artifact is_ok
  checked state request key intact keyed = elim (Option-cases (get request.headers sha256_header)) [
    | inl e ↦
        rw (e, checked_artifact)
          (refused _ refl refl (without_checksum refl (λ expected sent. cc (e, sent))) (λ j. refl))
    | inr (expected, e) ↦
        rw (e, checked_artifact)
          (elim (Bool-cases (is_checksum expected)) [
            | inr malformed ↦ rw malformed (
                refused _ refl refl
                  (without_checksum refl (λ other sent well.
                    let same : expected ≡ other = cc (e, sent) in
                    false≢true
                      (sym malformed ∙ ap is_checksum same ∙ IsChecksum-is_checksum other well)))
                  (λ j. refl))
            | inl formed ↦
                rw formed
                  (elim (Bool-cases (sha256_hex platform.sha256 request.bytes == expected)) [
                    | inr differs ↦ rw differs (
                        refused _ refl refl
                          (other_bytes expected refl e (
                            text_beq-ne (sha256_hex platform.sha256 request.bytes) expected
                              differs))
                          (λ j. refl))
                    | inl same ↦ rw same (
                        written state request key expected intact keyed e
                          (is_checksum-IsChecksum expected formed)
                          (text_beq-eq (sha256_hex platform.sha256 request.bytes) expected same))
                  ])
          ])
  ]

  -- On a bucket whose calls do what R2 documents and in which every object with a checksum has the
  -- bytes of that checksum, a call with any request ends in one of three ways. It answers with
  -- success: the request declared a checksum of 64 hexadecimal digits, and under the key of its path
  -- stands an object with that checksum whose bytes, like those that came, have that digest; with 201
  -- the key had no object and the bytes stored are those that came, with 200 the object was there;
  -- every other key has what it had. Or it answers with an error and has changed no object: 405 where
  -- the method is not PUT, 400 where the path has no key or no such checksum is declared, 422 where
  -- the bytes have another digest, 409 where the key has an object that does not have the checksum.
  -- Or it rejects, where the `put` or the `head` rejects, and every object that was there is as it
  -- was. After it, every object with a checksum has the bytes of that checksum.
  pub publish_artifact-Outcome :
      (state : bucket.State) (request : Request)
      → IsIntact platform bucket state
      → Outcome platform bucket state request (publish_artifact platform bucket state request)
  unfolding publish_artifact is_ok
  publish_artifact-Outcome state request intact =
      elim (Bool-cases (request.method == codes "PUT")) [
        | inr other ↦ rw other (
            refused _ refl refl (not_put refl (text_beq-ne request.method (codes "PUT") other))
              (λ j. refl))
        | inl put ↦
            rw put
              (elim (Option-cases
                (artifact_key platform.decode_uri_component request.url.pathname)) [
                  | inl e ↦
                      rw (e, publish_artifact)
                        (refused _ refl refl (without_key refl e) (λ j. refl))
                  | inr (key, e) ↦ rw (e, publish_artifact) (checked state request key intact e)
                ])
      ]
