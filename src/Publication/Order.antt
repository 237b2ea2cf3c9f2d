-- ===== src/Publication/Order.antt =====
-- What a batch of src/r2-publication.ts guarantees: all of it is stored, in order, and nothing is
-- overwritten.
use jsrproxy.Common.{
  ◌≡◌, ◌⊎◌, refl, ap, inl, inr, true, false, not, ◌||◌, Bool-cases, none, some, List, [], ◌∷◌, ◌++◌,
  Text, codes, ◌==◌, text_eq, In, not-In-nil,
}
use jsrproxy.Common.Http.{Request, Response, is_ok, text_response}
use jsrproxy.Common.Json.{Json, field, as_array}
use jsrproxy.Publication.Bucket.{R2Bucket, R2StoredObject, IsConditional}
use jsrproxy.Publication.{
  Platform, Flow, goes_on, answers, throws, publish_uploads, batch_response, publish_artifact_batch,
}
use jsrproxy.Publication.Outcomes.{IsIntact}
use jsrproxy.Publication.Batches.{Fails, Stored, Stored-Keeps}
use jsrproxy.Publication.Loop.{
  publish_uploads-cases, publish_uploads-append, publish_uploads-unreached, publish_uploads-Keeps,
  publish_uploads-Stored,
}

module _ (platform : Platform) (bucket : R2Bucket) (conditional : IsConditional bucket) where
  -- On a bucket whose calls do what R2 documents and in which every object with a checksum has the
  -- bytes of that checksum: where a key has no object after the uploads `before` and has one after a
  -- batch that goes on with `rest`, all of `before` is stored, each with its checksum and with bytes
  -- of that digest. So a marker that is uploaded last stands only beside the complete artifacts of
  -- its batch, also where a call of the bucket rejects.
  pub publish_uploads-marker_last :
      (state : bucket.State) (before rest : List Json) (marker : Text) (stored : R2StoredObject)
      → IsIntact platform bucket state
      → bucket.object (publish_uploads platform bucket state before).1 marker ≡ none
      → bucket.object (publish_uploads platform bucket state (before ++ rest)).1 marker
        ≡ some stored
      → (upload : Json) → In upload before
      → Stored platform bucket conditional
          (publish_uploads platform bucket state (before ++ rest)).1
          upload
  publish_uploads-marker_last state before rest marker stored intact absent found upload m =
      elim (publish_uploads-cases platform bucket conditional state before intact) [
        | inl e ↦
            rw (publish_uploads-append platform bucket conditional state before rest intact e) (
              Stored-Keeps platform bucket conditional
                (publish_uploads platform bucket state before).1 _ upload
                (publish_uploads-Keeps platform bucket conditional
                  (publish_uploads platform bucket state before).1 rest
                  (publish_uploads-Keeps platform bucket conditional state before intact).1).0
                (publish_uploads-Stored platform bucket conditional state before intact e upload m))
        | inr e ↦
            let same =
              publish_uploads-unreached platform bucket conditional state before rest intact e in
            absurd (cc (absent, found, ap (λ r. bucket.object r.1 marker) same))
      ]

  success_goes_on :
      (flow : Flow) (response : Response)
      → (flow ≡ goes_on) ⊎ Fails flow
      → batch_response flow ≡ some response
      → is_ok response ≡ true
      → flow ≡ goes_on
  success_goes_on goes_on response ends h success = refl
  success_goes_on (answers error) response ends h success = elim ends [
    | inl e ↦ cc
    | inr fails ↦ let same : error ≡ response = cc in absurd (cc (fails, success, ap is_ok same))
  ]
  success_goes_on throws response ends h success = cc

  -- On a bucket whose calls do what R2 documents and in which every object with a checksum has the
  -- bytes of that checksum, a batch that is answered with success has left for each of its uploads,
  -- under its key, an object with its checksum, and the bytes of the upload and those of the object
  -- both have that digest.
  pub publish_artifact_batch-Stored :
      (state : bucket.State) (request : Request) (uploads : List Json) (response : Response)
      → IsIntact platform bucket state
      → as_array (field request.json (codes "uploads")) ≡ some uploads
      → (publish_artifact_batch platform bucket state request).0 ≡ some response
      → is_ok response ≡ true
      → (upload : Json) → In upload uploads
      → Stored platform bucket conditional
          (publish_artifact_batch platform bucket state request).1
          upload
  unfolding publish_artifact_batch
  publish_artifact_batch-Stored state request [] response intact at_uploads h success upload m =
      absurd (not-In-nil m)
  publish_artifact_batch-Stored state request (first ∷ uploads) response intact at_uploads h success
        upload m =
      elim (Bool-cases
        (not (request.method == codes "PUT") || not (request.url.pathname == codes "/batch"))) [
          | inl e ↦
              let answered = rw (e, publish_artifact_batch) at h in
              let not_found : text_response 404 [] (codes "not found") ≡ response = cc in
              let fails : is_ok (text_response 404 [] (codes "not found")) ≡ false =
                unfold is_ok in refl in
              absurd (cc (ap is_ok not_found, success, fails))
          | inr e ↦
              let answered = rw (e, at_uploads, publish_artifact_batch) at h in
              rw (e, at_uploads, publish_artifact_batch)
                (publish_uploads-Stored platform bucket conditional state (first ∷ uploads) intact
                  (success_goes_on (publish_uploads platform bucket state (first ∷ uploads)).0
                    response
                    (publish_uploads-cases platform bucket conditional state (first ∷ uploads)
                      intact)
                    answered success)
                  upload m)
        ]
