-- ===== src/Auth/Examples.antt =====
-- The laws of src/auth.ts at a few headers and responses.
use mathlib.Core.List.{append-nil}
use jsrproxy.Common.{
  ℕ, ◌+◌, ◌*◌, ◌≤◌, ◌<◌, ◌≡◌, ◌≢◌, ◌↔◌, ◌⊎◌, ◌∙◌, refl, sym, ap, true, false, some, none, List, [],
  ◌∷◌, ◌++◌, Text, codes, arith, text_eq, All,
}
use jsrproxy.Common.Decimal.{is_digit, decimal, decimal-digits, decimal_inj}
use jsrproxy.Common.Http.{Response, empty_response}
use jsrproxy.Common.Map.{get, Map}
use jsrproxy.Common.Scanning.{all, all-append}
use jsrproxy.Common.Separators.{Without, append_first_inj}
use jsrproxy.Auth.{
  GitHubDecision, decision, classify_github_response, retry_after, numeric_header, github_pat,
  base64_url,
}
use jsrproxy.Auth.Credentials.{
  IsToken, github_pat_iff, is_base64, is_url_safe, IsBase64, base64_url-faithful,
}
use jsrproxy.Auth.Decisions.{classify_github_response_iff, retry_after-reset}

abbrev missing : Response
missing = empty_response 404 []

abbrev denied : GitHubDecision
denied = record { granted = false; expires_at = 61_000 }

classify_github_response_iff_example :
    (classify_github_response missing 1_000 ≡ decision denied) ↔ (
      (denied.expires_at ≡ 1_000 + 60_000)
      × (((denied.granted ≡ true) × (200 ≤ missing.status) × (missing.status ≤ 299))
          ⊎ ((denied.granted ≡ false) × ((missing.status ≡ 401) ⊎ (missing.status ≡ 404)))))
classify_github_response_iff_example = classify_github_response_iff missing 1_000 denied

abbrev limited : Response
limited = empty_response 429 ((codes "x-ratelimit-reset", codes "7") ∷ [])

waits_for_reset : (0 < 6_500) × (7 * 1_000 < 1_500 + 6_500)
unfolding retry_after numeric_header get jsrproxy.Common.text_beq all jsrproxy.Common.Decimal.number
waits_for_reset = retry_after-reset limited 1_500 7 6_500 refl refl refl

abbrev headers : Map Text Text
headers = (codes "authorization", codes "Bearer ghp_1") ∷ []

github_pat_iff_example : (github_pat headers ≡ some (codes "ghp_1")) ↔ (
    (get headers (codes "authorization") ≡ some (codes "Bearer ghp_1")) × IsToken (codes "ghp_1"))
github_pat_iff_example = github_pat_iff headers (codes "ghp_1")

-- An encoding of bytes that meets what is asked of `btoa`: each in decimal, with an A behind it.
encode : List ℕ → Text
encode [] = []
encode (b ∷ bytes) = decimal b ++ b'A' ∷ encode bytes

digits-all : (s : Text) → All (λ c. is_digit c ≡ true) s → all is_base64 s ≡ true
unfolding all
digits-all [] h = refl
digits-all (c ∷ s) h = ground (arith, digits-all s h.1)

encode-alphabet : (bytes : List ℕ) → all is_base64 (encode bytes) ≡ true
unfolding encode all
encode-alphabet [] = refl
encode-alphabet (b ∷ bytes) =
    all-append is_base64 (decimal b) (b'A' ∷ encode bytes)
      (digits-all (decimal b) (decimal-digits b)) (encode-alphabet bytes)

digits-Without_a : (s : Text) → All (λ c. is_digit c ≡ true) s → Without b'A' s
digits-Without_a [] h = tt
digits-Without_a (c ∷ s) h = ((λ e. ground arith), digits-Without_a s h.1)

encode-ne-nil : (b : ℕ) (bytes : List ℕ) → [] ≢ encode (b ∷ bytes)
unfolding encode
encode-ne-nil b bytes h = not_empty (decimal b) h
  where
    not_empty : (s : Text) → [] ≢ s ++ b'A' ∷ encode bytes
    not_empty [] e = cc
    not_empty (c ∷ s) e = cc

encode_inj : (a b : List ℕ) → encode a ≡ encode b → a ≡ b
unfolding encode
encode_inj [] [] h = refl
encode_inj [] (y ∷ b) h = absurd (encode-ne-nil y b h)
encode_inj (x ∷ a) [] h = absurd (encode-ne-nil x a (sym h))
encode_inj (x ∷ a) (y ∷ b) h =
    let (first, later) =
      append_first_inj b'A' (decimal x) (decimal y) (encode a) (encode b)
        (digits-Without_a (decimal x) (decimal-digits x))
        (digits-Without_a (decimal y) (decimal-digits y)) h in
    let number = decimal_inj x y first in
    let others = encode_inj a b later in λ i. number i ∷ others i

encode-IsBase64 : IsBase64 encode
encode-IsBase64 = record {
  body = encode;
  padding = λ bytes. [];
  encoded = λ bytes. sym (append-nil (encode bytes));
  alphabet = encode-alphabet;
  padded = λ bytes. unfold all in refl;
  body_inj = encode_inj;
}

abbrev sevens : List ℕ
sevens = 7 ∷ []

abbrev eights : List ℕ
eights = 8 ∷ []

base64_url-faithful_example :
    (all is_url_safe (base64_url encode sevens) ≡ true)
    × (base64_url encode sevens ≡ base64_url encode eights → sevens ≡ eights)
base64_url-faithful_example = base64_url-faithful encode encode-IsBase64 sevens eights
