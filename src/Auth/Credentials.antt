-- ===== src/Auth/Credentials.antt =====
-- The credentials of src/auth.ts: what is read from the header and what is kept of it.
use jsrproxy.Common.{
  ℕ, ◌≡◌, ◌≢◌, ◌↔◌, refl, sym, ap, ◌∙◌, inl, inr, Bool, true, false, not, ◌&&◌, ◌||◌, Bool-cases,
  Option-cases, Option, none, some, List, [], ◌∷◌, ◌++◌, Text, codes, map, All, arith, text_eq,
  nat_eq, ◌==◌, text_beq_iff, leb,
}
use jsrproxy.Common.Decimal.{is_digit}
use jsrproxy.Common.Map.{Map, get}
use jsrproxy.Common.Scanning.{all, strip_prefix, strip_prefix-append, strip_prefix-eq}
use jsrproxy.Auth.{is_space, or_empty, bearer, github_pat, url_unit, trim_padding, base64_url}

-- A credential without white space.
pub record IsToken (pat : Text) : Type 0 where
  pub nonempty : (pat == []) ≡ false
  pub solid : all (λ c. not (is_space c)) pat ≡ true

bearer_iff :
    (header pat : Text)
    → (bearer header ≡ some pat) ↔ ((header ≡ codes "Bearer " ++ pat) × IsToken pat)
unfolding bearer strip_prefix
bearer_iff header pat = (to, from)
  where
    to : bearer header ≡ some pat → (header ≡ codes "Bearer " ++ pat) × IsToken pat
    to h = elim (Option-cases (strip_prefix (codes "Bearer ") header)) [
      | inl e ↦ let refused = rw (e, bearer) at h in absurd (cc)
      | inr (token, e) ↦
          let tested = rw (e, bearer) at h in
          elim (Bool-cases (not (token == []) && all (λ c. not (is_space c)) token)) [
            | inl valid ↦
                let returned = rw valid at tested in
                let same : token ≡ pat = cc in
                let nonempty : (token == []) ≡ false = ground (arith, valid) in
                let solid : all (λ c. not (is_space c)) token ≡ true = ground (arith, valid) in
                (
                  strip_prefix-eq (codes "Bearer ") header token e
                      ∙ ap (λ t. codes "Bearer " ++ t) same,
                  record { nonempty = rw same at nonempty; solid = rw same at solid },
                )
            | inr invalid ↦ let refused = rw invalid at tested in absurd (cc)
          ]
    ]

    from : (header ≡ codes "Bearer " ++ pat) × IsToken pat → bearer header ≡ some pat
    from (e, valid) =
        rw (e, strip_prefix-append (codes "Bearer ") pat, valid.nonempty, valid.solid) refl

-- The credential is what follows `Bearer ` in the authorization header, and there is one exactly if
-- that is not empty and has no white space.
pub github_pat_iff :
    (headers : Map Text Text) (pat : Text)
    → (github_pat headers ≡ some pat)
      ↔ ((get headers (codes "authorization") ≡ some (codes "Bearer " ++ pat)) × IsToken pat)
unfolding github_pat
github_pat_iff headers pat = (to, from)
  where
    to :
        bearer (or_empty (get headers (codes "authorization"))) ≡ some pat
        → (get headers (codes "authorization") ≡ some (codes "Bearer " ++ pat)) × IsToken pat
    to h = elim (Option-cases (get headers (codes "authorization"))) [
      | inl e ↦ let (same, _) = (bearer_iff [] pat).0 (rw e at h) in absurd (cc)
      | inr (value, e) ↦
          let (same, valid) = (bearer_iff value pat).0 (rw e at h) in (e ∙ ap some same, valid)
    ]

    from :
        (get headers (codes "authorization") ≡ some (codes "Bearer " ++ pat)) × IsToken pat
        → bearer (or_empty (get headers (codes "authorization"))) ≡ some pat
    from (e, valid) = rw e ((bearer_iff (codes "Bearer " ++ pat) pat).1 (refl, valid))

-- [A-Za-z0-9+/]
abbrev pub is_base64 : ℕ → Bool
is_base64 c =
    (leb b'A' c && leb c b'Z')
    || (leb b'a' c && leb c b'z')
    || is_digit c
    || (c == b'+')
    || (c == b'/')

-- [A-Za-z0-9_-]
abbrev pub is_url_safe : ℕ → Bool
is_url_safe c =
    (leb b'A' c && leb c b'Z')
    || (leb b'a' c && leb c b'z')
    || is_digit c
    || (c == b'-')
    || (c == b'_')

-- What the code relies on of `btoa`: the text is of the base64 alphabet with padding behind it, and
-- what stands before the padding determines the bytes.
pub record IsBase64 (btoa : List ℕ → Text) : Type 0 where
  pub body : List ℕ → Text
  pub padding : List ℕ → Text
  pub encoded : (bytes : List ℕ) → btoa bytes ≡ body bytes ++ padding bytes
  pub alphabet : (bytes : List ℕ) → all is_base64 (body bytes) ≡ true
  pub padded : (bytes : List ℕ) → all (λ c. c == b'=') (padding bytes) ≡ true
  pub body_inj : (a b : List ℕ) → body a ≡ body b → a ≡ b

trim_padding-padding :
    (s : Text) → all (λ c. c == b'=') s ≡ true → trim_padding (map url_unit s) ≡ []
unfolding trim_padding url_unit all jsrproxy.Common.text_beq
trim_padding-padding [] h = refl
trim_padding-padding (c ∷ s) h = rw (trim_padding-padding s (ground arith)) (ground arith)

trim_padding-append :
    (s padding : Text)
    → all is_base64 s ≡ true
    → all (λ c. c == b'=') padding ≡ true
    → trim_padding (map url_unit (s ++ padding)) ≡ map url_unit s
unfolding trim_padding url_unit all jsrproxy.Common.text_beq
trim_padding-append [] padding hs hp = trim_padding-padding padding hp
trim_padding-append (c ∷ s) padding hs hp =
    rw (trim_padding-append s padding (ground arith) hp) (ground arith)

url_unit_inj : (c d : ℕ) → is_base64 c ≡ true → is_base64 d ≡ true → url_unit c ≡ url_unit d → c ≡ d
unfolding url_unit
url_unit_inj c d hc hd h = ground arith

map-url_unit_inj :
    (s t : Text)
    → all is_base64 s ≡ true
    → all is_base64 t ≡ true
    → map url_unit s ≡ map url_unit t
    → s ≡ t
unfolding all
map-url_unit_inj [] [] hs ht h = refl
map-url_unit_inj [] (d ∷ t) hs ht h = cc
map-url_unit_inj (c ∷ s) [] hs ht h = cc
map-url_unit_inj (c ∷ s) (d ∷ t) hs ht h =
    let first = url_unit_inj c d (ground arith) (ground arith) (cc) in
    let later = map-url_unit_inj s t (ground arith) (ground arith) (cc) in λ i. first i ∷ later i

map-url_unit_safe : (s : Text) → all is_base64 s ≡ true → all is_url_safe (map url_unit s) ≡ true
unfolding all url_unit
map-url_unit_safe [] h = refl
map-url_unit_safe (c ∷ s) h = rw (map-url_unit_safe s (ground arith)) (ground arith)

-- With a base64 that has the standard alphabet and padding and tells inputs apart, `base64Url`
-- gives no unit that a URL or a key would need to escape, and the same text only for the same
-- bytes.
pub base64_url-faithful :
    (btoa : List ℕ → Text)
    → IsBase64 btoa
    → (a b : List ℕ)
    → (all is_url_safe (base64_url btoa a) ≡ true) × (base64_url btoa a ≡ base64_url btoa b → a ≡ b)
unfolding base64_url
base64_url-faithful btoa base64 a b = (
  rw (text_of a) (map-url_unit_safe (base64.body a) (base64.alphabet a)),
  λ h. base64.body_inj a b (
      map-url_unit_inj (base64.body a) (base64.body b) (base64.alphabet a) (base64.alphabet b)
        (sym (text_of a) ∙ h ∙ text_of b)),
)
  where
    text_of :
        (bytes : List ℕ)
        → trim_padding (map url_unit (btoa bytes)) ≡ map url_unit (base64.body bytes)
    text_of bytes =
        ap (λ s. trim_padding (map url_unit s)) (base64.encoded bytes)
        ∙ trim_padding-append (base64.body bytes) (base64.padding bytes) (base64.alphabet bytes)
            (base64.padded bytes)
