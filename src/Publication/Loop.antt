-- ===== src/Publication/Loop.antt =====
-- The loop of `publishArtifactBatch` of src/r2-publication.ts, from round to round.
use jsrproxy.Common.{
  ◌≡◌, ◌≢◌, ◌⊎◌, refl, sym, ap, subst, ◌∙◌, inl, inr, List, [], ◌∷◌, ◌++◌, text_eq, In,
  In-cons_cases, not-In-nil,
}
use jsrproxy.Common.Json.{Json}
use jsrproxy.Publication.Bucket.{R2Bucket, IsConditional}
use jsrproxy.Publication.{Platform, Flow, goes_on, answers, throws, publish_upload, publish_uploads}
use jsrproxy.Publication.Outcomes.{Keeps, Keeps-trans, IsIntact}
use jsrproxy.Publication.Batches.{
  Fails, Stored, Stored-Keeps, Round, went_on, stopped, publish_upload-Round,
}

Fails-ne-goes_on : (flow : Flow) → Fails flow → flow ≢ goes_on
Fails-ne-goes_on goes_on fails h = fails
Fails-ne-goes_on (answers response) fails h = cc
Fails-ne-goes_on throws fails h = cc

module _ (platform : Platform) (bucket : R2Bucket) (conditional : IsConditional bucket) where
  -- The loop from a round on, by how the round ended.
  publish_uploads-next :
      (state : bucket.State) (upload : Json) (uploads : List Json)
      → (publish_upload platform bucket state upload).0 ≡ goes_on
      → publish_uploads platform bucket state (upload ∷ uploads)
        ≡ publish_uploads platform bucket (publish_upload platform bucket state upload).1 uploads
  unfolding publish_uploads
  publish_uploads-next state upload uploads e = rw (e, publish_uploads) refl

  publish_uploads-stopped :
      (state : bucket.State) (upload : Json) (uploads : List Json)
      → Fails (publish_upload platform bucket state upload).0
      → publish_uploads platform bucket state (upload ∷ uploads)
        ≡ publish_upload platform bucket state upload
  unfolding publish_uploads
  publish_uploads-stopped state upload uploads h =
      by_flow (publish_upload platform bucket state upload) h
    where
      by_flow :
          (result : Flow × bucket.State)
          → Fails result.0
          → (elim result.0 [
            | goes_on ↦ publish_uploads platform bucket result.1 uploads
            | answers response ↦ (answers response, result.1)
            | throws ↦ (throws, result.1)
          ])
            ≡ result
      by_flow (goes_on, after) e = absurd e
      by_flow (answers response, after) e = refl
      by_flow (throws, after) e = refl

  Round-cases :
      (state : bucket.State) (upload : Json)
      → IsIntact platform bucket state
      → ((publish_upload platform bucket state upload).0 ≡ goes_on)
        ⊎ Fails (publish_upload platform bucket state upload).0
  Round-cases state upload intact =
      of_round (publish_upload platform bucket state upload)
        (publish_upload-Round platform bucket conditional state upload intact)
    where
      of_round :
          (result : Flow × bucket.State)
          → Round platform bucket conditional state upload result
          → (result.0 ≡ goes_on) ⊎ Fails result.0
      of_round result (went_on e stored kept intact) = inl e
      of_round result (stopped fails kept intact) = inr fails

  Round-Keeps :
      (state : bucket.State) (upload : Json) (result : Flow × bucket.State)
      → Round platform bucket conditional state upload result
      → Keeps bucket state result.1 × IsIntact platform bucket result.1
  Round-Keeps state upload result (went_on e stored kept intact) = (kept, intact)
  Round-Keeps state upload result (stopped e kept intact) = (kept, intact)

  publish_upload-IsIntact :
      (state : bucket.State) (upload : Json)
      → IsIntact platform bucket state
      → IsIntact platform bucket (publish_upload platform bucket state upload).1
  publish_upload-IsIntact state upload intact =
      (Round-Keeps state upload _
        (publish_upload-Round platform bucket conditional state upload intact)).1

  -- The loop goes through all uploads or fails.
  pub publish_uploads-cases :
      (state : bucket.State) (uploads : List Json)
      → IsIntact platform bucket state
      → ((publish_uploads platform bucket state uploads).0 ≡ goes_on)
        ⊎ Fails (publish_uploads platform bucket state uploads).0
  publish_uploads-cases state [] intact = inl (unfold publish_uploads in refl)
  publish_uploads-cases state (upload ∷ uploads) intact = elim (Round-cases state upload intact) [
    | inl e ↦ rw (publish_uploads-next state upload uploads e) (
        publish_uploads-cases (publish_upload platform bucket state upload).1 uploads
          (publish_upload-IsIntact state upload intact))
    | inr e ↦ rw (publish_uploads-stopped state upload uploads e) (inr e)
  ]

  -- A batch replaces and removes no object, however it ends, and writes no object whose bytes do not
  -- have its checksum.
  pub publish_uploads-Keeps :
      (state : bucket.State) (uploads : List Json)
      → IsIntact platform bucket state
      → Keeps bucket state (publish_uploads platform bucket state uploads).1
        × IsIntact platform bucket (publish_uploads platform bucket state uploads).1
  publish_uploads-Keeps state [] intact =
      (λ key stored found. unfold publish_uploads in found, unfold publish_uploads in intact)
  publish_uploads-Keeps state (upload ∷ uploads) intact =
      let first =
        Round-Keeps state upload _
          (publish_upload-Round platform bucket conditional state upload intact) in
      let middle = (publish_upload platform bucket state upload).1 in
      elim (Round-cases state upload intact) [
        | inl e ↦
            let rest = publish_uploads-Keeps middle uploads first.1 in
            rw (publish_uploads-next state upload uploads e)
              (Keeps-trans bucket state middle _ first.0 rest.0, rest.1)
        | inr e ↦ rw (publish_uploads-stopped state upload uploads e) first
      ]

  Round-Stored :
      (state : bucket.State) (upload : Json) (result : Flow × bucket.State)
      → Round platform bucket conditional state upload result
      → result.0 ≡ goes_on
      → Stored platform bucket conditional result.1 upload
  Round-Stored state upload result (went_on e stored kept intact) h = stored
  Round-Stored state upload result (stopped fails kept intact) h =
      absurd (Fails-ne-goes_on result.0 fails h)

  -- A loop that goes through has stored every upload.
  pub publish_uploads-Stored :
      (state : bucket.State) (uploads : List Json)
      → IsIntact platform bucket state
      → (publish_uploads platform bucket state uploads).0 ≡ goes_on
      → (upload : Json) → In upload uploads
      → Stored platform bucket conditional (publish_uploads platform bucket state uploads).1 upload
  publish_uploads-Stored state [] intact h upload m = absurd (not-In-nil m)
  publish_uploads-Stored state (first ∷ uploads) intact h upload m =
      let round = publish_upload-Round platform bucket conditional state first intact in
      let after = publish_upload-IsIntact state first intact in
      let middle = (publish_upload platform bucket state first).1 in
      elim (Round-cases state first intact) [
        | inl e ↦
            let through = rw (publish_uploads-next state first uploads e) at h in
            rw (publish_uploads-next state first uploads e) (elim (In-cons_cases m) [
              | inl same ↦
                  Stored-Keeps platform bucket conditional middle _ upload
                    (publish_uploads-Keeps middle uploads after).0
                    (rw same (Round-Stored state first _ round e))
              | inr later ↦ publish_uploads-Stored middle uploads after through upload later
            ])
        | inr e ↦ absurd (
            Fails-ne-goes_on _ e
              (ap (λ r. r.0) (sym (publish_uploads-stopped state first uploads e)) ∙ h))
      ]

  -- The rest of a batch is reached exactly if what stands before it goes through.
  pub publish_uploads-append :
      (state : bucket.State) (before rest : List Json)
      → IsIntact platform bucket state
      → (publish_uploads platform bucket state before).0 ≡ goes_on
      → publish_uploads platform bucket state (before ++ rest)
        ≡ publish_uploads platform bucket (publish_uploads platform bucket state before).1 rest
  publish_uploads-append state [] rest intact h = unfold publish_uploads in refl
  publish_uploads-append state (first ∷ before) rest intact h =
      elim (Round-cases state first intact) [
        | inl e ↦
            let further = rw (publish_uploads-next state first before e) at h in
            rw
              (
                publish_uploads-next state first (before ++ rest) e,
                publish_uploads-next state first before e,
              )
              (publish_uploads-append (publish_upload platform bucket state first).1 before rest
                (publish_upload-IsIntact state first intact) further)
        | inr e ↦ absurd (
            Fails-ne-goes_on _ e
              (ap (λ r. r.0) (sym (publish_uploads-stopped state first before e)) ∙ h))
      ]

  pub publish_uploads-unreached :
      (state : bucket.State) (before rest : List Json)
      → IsIntact platform bucket state
      → Fails (publish_uploads platform bucket state before).0
      → publish_uploads platform bucket state (before ++ rest)
        ≡ publish_uploads platform bucket state before
  publish_uploads-unreached state [] rest intact h = absurd (unfold publish_uploads in h)
  publish_uploads-unreached state (first ∷ before) rest intact h =
      elim (Round-cases state first intact) [
        | inl e ↦
            let next = publish_uploads-next state first before e in
            publish_uploads-next state first (before ++ rest) e
            ∙ publish_uploads-unreached (publish_upload platform bucket state first).1 before rest
                (publish_upload-IsIntact state first intact) (subst (λ r. Fails r.0) next h)
            ∙ sym next
        | inr e ↦
            publish_uploads-stopped state first (before ++ rest) e
            ∙ sym (publish_uploads-stopped state first before e)
      ]
