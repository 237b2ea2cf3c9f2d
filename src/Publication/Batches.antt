-- ===== src/Publication/Batches.antt =====
-- What a batch of src/r2-publication.ts does to the bucket.
use jsrproxy.Common.{
  ℕ, ◌≡◌, ◌≢◌, refl, sym, ap, subst, ◌∙◌, ◌⊎◌, inl, inr, Bool, true, false, not, Bool-cases,
  Option-cases, Option, none, some, List, [], ◌∷◌, ◌++◌, Text, codes, ◌==◌, text_eq, if◌then◌else◌,
  In, here, there, In-cons_cases, not-In-nil, text_beq-eq,
}
use jsrproxy.Common.Http.{Request, Response, is_ok}
use jsrproxy.Common.Json.{Json}
use jsrproxy.Common.Map.{get}
use jsrproxy.Config.{is_null}
use jsrproxy.Publication.Bucket.{R2Bucket, IsConditional}
use jsrproxy.Publication.{
  Platform, Flow, goes_on, answers, throws, read_upload, artifact_key, sha256_hex, upload_request,
  publish_upload, flow_of,
}
use jsrproxy.Publication.Outcomes.{
  Keeps, IsIntact, IsIntact-Unchanged, Holds, Outcome, published, refused, rejected,
}
use jsrproxy.Publication.Writes.{publish_artifact-Outcome}

-- A loop that ends early does so with an error response, a TypeError or the rejection of a call.
abbrev pub Fails : Flow → Type 0
Fails goes_on = ⊥
Fails (answers response) = is_ok response ≡ false
Fails throws = Unit

module _ (platform : Platform) (bucket : R2Bucket) (conditional : IsConditional bucket) where
  -- An upload whose artifact stands in the bucket.
  pub record Stored (state : bucket.State) (upload : Json) : Type 0 where
    pub name : Text
    pub checksum : Text
    pub body : Text
    pub read : read_upload upload ≡ some (name, (checksum, body))
    pub key : Text
    pub expected : Text
    pub bytes : List ℕ
    pub decoded : platform.atob body ≡ some bytes
    pub declared : platform.header_value checksum ≡ some expected
    pub keyed :
        artifact_key platform.decode_uri_component
          (platform.pathname (codes "http://artifacts.r2/" ++ name))
        ≡ some key
    pub verified : sha256_hex platform.sha256 bytes ≡ expected
    pub holds : Holds platform bucket state key expected

  pub Stored-Keeps :
      (before after : bucket.State) (upload : Json)
      → Keeps bucket before after
      → Stored before upload
      → Stored after upload
  Stored-Keeps before after upload kept s = record {
    name = s.name;
    checksum = s.checksum;
    body = s.body;
    read = s.read;
    key = s.key;
    expected = s.expected;
    bytes = s.bytes;
    decoded = s.decoded;
    declared = s.declared;
    keyed = s.keyed;
    verified = s.verified;
    holds = record {
      stored = s.holds.stored;
      found = kept s.key s.holds.stored s.holds.found;
      checksum = s.holds.checksum;
      digest = s.holds.digest;
    };
  }

  -- What a round of the loop has done.
  pub data Round (before : bucket.State) (upload : Json) (result : Flow × bucket.State)
      : Type 0 where
    went_on :
        result.0 ≡ goes_on
        → Stored result.1 upload
        → Keeps bucket before result.1
        → IsIntact platform bucket result.1
        → Round before upload result
    stopped :
        Fails result.0
        → Keeps bucket before result.1
        → IsIntact platform bucket result.1
        → Round before upload result

  -- A round whose call of `publishArtifact` returned `result`.
  abbrev round_of : Option Response × bucket.State → Flow × bucket.State
  round_of result = (flow_of result.0, result.1)

  module _ (state : bucket.State) (upload : Json) (name checksum body value : Text) (bytes : List ℕ)
      (intact : IsIntact platform bucket state)
      (read : read_upload upload ≡ some (name, (checksum, body)))
      (decoded : platform.atob body ≡ some bytes)
      (declared : platform.header_value checksum ≡ some value) where
    abbrev request : Request
    request = upload_request platform bucket name value bytes

    round_of-Round :
        (result : Option Response × bucket.State)
        → Outcome platform bucket state request result
        → Round state upload (round_of result)
    round_of-Round result (published response answered e p after) =
        rw (answered, e)
          (went_on refl
            (record {
              name = name;
              checksum = checksum;
              body = body;
              read = read;
              key = p.key;
              expected = p.expected;
              bytes = bytes;
              decoded = decoded;
              declared = declared ∙ unfold get jsrproxy.Common.text_beq in p.declared;
              keyed = p.keyed;
              verified = p.verified;
              holds = p.holds;
            })
            p.kept after)
    round_of-Round result (refused response answered e why same) =
        rw (answered, e)
          (stopped e (λ k stored h. same k ∙ h)
            (IsIntact-Unchanged platform bucket state result.1 same intact))
    round_of-Round result (rejected none_left why kept after) = rw none_left (stopped tt kept after)

  pub publish_upload-Round :
      (state : bucket.State) (upload : Json)
      → IsIntact platform bucket state
      → Round state upload (publish_upload platform bucket state upload)
  unfolding publish_upload
  publish_upload-Round state upload intact = elim (Bool-cases (is_null upload)) [
    | inl e ↦ rw e (stopped tt (λ k stored h. h) intact)
    | inr e ↦ rw e (elim (Option-cases (read_upload upload)) [
      | inl unread ↦
          rw (unread, publish_upload) (stopped (unfold is_ok in refl) (λ k stored h. h) intact)
      | inr ((name, (checksum, body)), read) ↦
          rw (read, publish_upload)
            (elim (Option-cases (platform.atob body)) [
              | inl undecoded ↦
                  rw (undecoded, publish_upload)
                    (stopped (unfold is_ok in refl) (λ k stored h. h) intact)
              | inr (bytes, decoded) ↦
                  rw (decoded, publish_upload)
                    (elim (Option-cases (platform.header_value checksum)) [
                      | inl thrown ↦
                          rw (thrown, publish_upload) (stopped tt (λ k stored h. h) intact)
                      | inr (value, declared) ↦
                          rw (declared, publish_upload)
                            (round_of-Round state upload name checksum body value bytes intact read
                              decoded declared _
                              (publish_artifact-Outcome platform bucket conditional state
                                (upload_request platform bucket name value bytes) intact))
                    ])
            ])
    ])
  ]
