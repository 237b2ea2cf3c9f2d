-- ===== src/Artifacts/Laws.antt =====
-- What `serveArtifact` of src/r2-artifacts.ts serves.
use jsrproxy.Common.{
  ℕ, ◌≡◌, ◌≢◌, ◌↔◌, refl, subst, sym, ap, ◌∙◌, ◌⊎◌, inl, inr, Bool, true, false, ◌||◌, Bool-cases,
  Option-cases, Option, none, some, [], ◌∷◌, ◌++◌, Text, codes, if◌then◌else◌, arith, text_eq, ◌==◌,
  text_beq_iff, text_beq-eq,
}
use mathlib.Core.Bool.{false≢true}
use jsrproxy.Common.Http.{Response, octets, empty, text_response}
use jsrproxy.Common.Map.{Map, get}
use jsrproxy.Artifacts.{R2Object, etag_of, header_is, serve_object, serve_artifact}

header_is-sent :
    (headers : Map Text Text) (name value : Text)
    → get headers name ≡ some value
    → header_is headers name value ≡ true
header_is-sent headers name value sent =
    subst (λ o. elim o [ none ↦ false | some v ↦ v == value ] ≡ true) (sym sent)
      ((text_beq_iff value value).1 refl)

header_is-get :
    (headers : Map Text Text) (name value : Text)
    → header_is headers name value ≡ true
    → get headers name ≡ some value
header_is-get headers name value h = elim (Option-cases (get headers name)) [
  | inl e ↦ let missing = rw (e, header_is) at h in absurd (cc)
  | inr (v, e) ↦ e ∙ ap some (text_beq-eq v value (rw (e, header_is) at h))
]

module _ (bucket : Text → Option R2Object) (to_utc_string : ℕ → Text)
    (version_prefix key : Text) where
  -- The object that may be served: it is there, and so is the marker of its version.
  pub record IsReady (object : R2Object) : Type 0 where
    pub marker : R2Object
    pub marked : bucket (version_prefix ++ codes ".ready.json") ≡ some marker
    pub found : bucket key ≡ some object

  -- The caller sent the entity tag of `object`, or the time at which it was uploaded.
  abbrev pub Known : R2Object → Map Text Text → Type 0
  Known object headers =
      (get headers (codes "if-none-match") ≡ some (etag_of object))
      ⊎ (get headers (codes "if-modified-since") ≡ some (to_utc_string object.uploaded))

  -- A response that serves `object` to a caller that sent `headers`: a caller that knows the object
  -- is told so and gets no bytes, any other gets all its bytes.
  abbrev pub Serves : R2Object → Map Text Text → Response → Type 0
  Serves object headers response =
      (get response.headers (codes "etag") ≡ some (etag_of object))
      × ((Known object headers × (response.status ≡ 304) × (response.content ≡ empty))
          ⊎ ((¬ Known object headers)
              × (response.status ≡ 200)
              × (response.content ≡ octets object.body)))

  Known-sent :
      (object : R2Object) (headers : Map Text Text)
      → Known object headers
      → (header_is headers (codes "if-none-match") (etag_of object)
          || header_is headers (codes "if-modified-since") (to_utc_string object.uploaded))
        ≡ true
  Known-sent object headers (inl sent) =
      ground (arith, header_is-sent headers (codes "if-none-match") (etag_of object) sent)
  Known-sent object headers (inr sent) = ground (
    arith,
    header_is-sent headers (codes "if-modified-since") (to_utc_string object.uploaded) sent,
  )

  sent-Known :
      (object : R2Object) (headers : Map Text Text)
      → (header_is headers (codes "if-none-match") (etag_of object)
          || header_is headers (codes "if-modified-since") (to_utc_string object.uploaded))
        ≡ true
      → Known object headers
  sent-Known object headers h =
      elim (Bool-cases (header_is headers (codes "if-none-match") (etag_of object))) [
        | inl e ↦ inl (header_is-get headers (codes "if-none-match") (etag_of object) e)
        | inr e ↦ inr (
            header_is-get headers (codes "if-modified-since") (to_utc_string object.uploaded)
              (ground (arith, e, h)))
      ]

  serve_object-Serves :
      (object : R2Object) (headers : Map Text Text)
      → Serves object headers (serve_object to_utc_string object key headers)
  unfolding serve_object get jsrproxy.Common.text_beq
  serve_object-Serves object headers =
      elim (Bool-cases (
        header_is headers (codes "if-none-match") (etag_of object)
        || header_is headers (codes "if-modified-since") (to_utc_string object.uploaded))) [
          | inl e ↦ rw e (refl, inl (sent-Known object headers e, refl, refl))
          | inr e ↦ rw e (
            refl,
            inr (λ known. false≢true (sym e ∙ Known-sent object headers known), refl, refl),
          )
        ]

  -- Whatever the bucket holds and the caller sends: if the object under the key and the ready marker
  -- of its version are there, the answer has the entity tag of the object, and it is 304 and empty to
  -- a caller that sent that tag or the time of the upload, and 200 with the object's bytes to any
  -- other; otherwise it is 404.
  pub serve_artifact-IsReady :
      (headers : Map Text Text)
      → ((object : R2Object) × IsReady object
          × Serves object headers (serve_artifact bucket to_utc_string version_prefix key headers))
        ⊎ (((object : R2Object) → ¬ IsReady object)
            × (serve_artifact bucket to_utc_string version_prefix key headers
                ≡ text_response 404 [] (codes "not found")))
  unfolding serve_artifact
  serve_artifact-IsReady headers =
      elim (Option-cases (bucket (version_prefix ++ codes ".ready.json"))) [
        | inl e ↦ inr ((λ object ready. cc (e, ready.marked)), rw (e, serve_artifact) refl)
        | inr (marker, marked) ↦ elim (Option-cases (bucket key)) [
          | inl e ↦ inr ((λ object ready. cc (e, ready.found)), rw (marked, e, serve_artifact) refl)
          | inr (object, found) ↦ inl (
            object,
            record { marker = marker; marked = marked; found = found },
            rw (marked, found, serve_artifact) (serve_object-Serves object headers),
          )
        ]
      ]

  -- A caller that sends back the entity tag of a response that served an object is told that it has
  -- the object, whatever else it sends.
  pub serve_artifact-revalidates :
      (first second : Map Text Text) (object : R2Object) (etag : Text)
      → IsReady object
      → get (serve_artifact bucket to_utc_string version_prefix key first).headers (codes "etag")
        ≡ some etag
      → get second (codes "if-none-match") ≡ some etag
      → (serve_artifact bucket to_utc_string version_prefix key second).status ≡ 304
  unfolding serve_artifact serve_object
  serve_artifact-revalidates first second object etag ready tagged sent =
      let served : get (serve_object to_utc_string object key first).headers (codes "etag")
          ≡ some etag =
        rw (ready.marked, ready.found, serve_artifact) at tagged in
      let same : some etag ≡ some (etag_of object) =
        sym served ∙ (serve_object-Serves object first).0 in
      let sent_back : get second (codes "if-none-match") ≡ some (etag_of object) = sent ∙ same in
      let matches : header_is second (codes "if-none-match") (etag_of object) ≡ true =
        header_is-sent second (codes "if-none-match") (etag_of object) sent_back in
      rw (ready.marked, ready.found, serve_artifact) (rw (matches, serve_object) refl)
