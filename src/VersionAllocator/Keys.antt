-- ===== src/VersionAllocator/Keys.antt =====
-- The keys and the version texts of src/version-allocator.ts name what they are built from.
use jsrproxy.Common.{ℕ, ◌≡◌, refl, true, false, [], ◌∷◌, ◌++◌, Text, arith, All, codes}
use jsrproxy.Common.Decimal.{is_digit, decimal, decimal-digits, decimal_inj}
use jsrproxy.Common.Separators.{Without, append_first_inj, append_last_inj}
use jsrproxy.VersionAllocator.{key, version_text}

digits-Without :
    (c : ℕ) (s : Text) → is_digit c ≡ false → All (λ x. is_digit x ≡ true) s → Without c s
digits-Without c [] h a = tt
digits-Without c (x ∷ s) h a = ((λ e. ground arith), digits-Without c s h a.1)

-- No two pairs of a commit and an attempt share a key, whatever the text of the commit.
pub key_inj : (s t : Text) (m n : ℕ) → key s m ≡ key t n → (s ≡ t) × (m ≡ n)
unfolding key
key_inj s t m n e =
    let (same, digits) =
      append_last_inj 0 s t (decimal m) (decimal n)
        (digits-Without 0 (decimal m) refl (decimal-digits m))
        (digits-Without 0 (decimal n) refl (decimal-digits n)) e in
    (same, decimal_inj m n digits)

-- A version text determines its major and its sequence.
pub version_text_inj : (m n s t : ℕ) → version_text m s ≡ version_text n t → (m ≡ n) × (s ≡ t)
unfolding version_text
version_text_inj m n s t e =
    let (majors, rest) =
      append_first_inj b'.' (decimal m) (decimal n) (codes "1." ++ decimal s)
        (codes "1." ++ decimal t) (digits-Without b'.' (decimal m) refl (decimal-digits m))
        (digits-Without b'.' (decimal n) refl (decimal-digits n)) e in
    let digits : decimal s ≡ decimal t = cc in (decimal_inj m n majors, decimal_inj s t digits)
