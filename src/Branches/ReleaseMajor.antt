-- ===== src/Branches/ReleaseMajor.antt =====
-- `releaseMajor` of src/branches.ts: a release branch is `v` and a canonical numeral.
use mathlib.Core.List.{foldl, append-nil, append_assoc}
use jsrproxy.Common.{
  ℕ, zero, suc, ◌%◌, ◌/◌, ◌+◌, ◌≤◌, ◌<◌, ◌≡◌, sym, ap, ◌∙◌, ◌↔◌, inl, inr, true, some, [], ◌∷◌,
  ◌++◌, Text, arith, ltb, Bool-cases, max_safe_integer,
}
use jsrproxy.Common.Decimal.{
  is_digit, number, push_digit, decimal, decimal-digit, decimal-push, number-decimal,
}
use jsrproxy.Branches.{all_digits, is_numeral, safe_number, release_major}

all_digits-snoc :
    (s : Text) (c : ℕ) → all_digits s ≡ true → is_digit c ≡ true → all_digits (s ++ c ∷ []) ≡ true
unfolding all_digits
all_digits-snoc [] c h d = ground arith
all_digits-snoc (a ∷ s) c h d = ground (arith, all_digits-snoc s c)

-- Digits behind a positive number are printed as they were read.
decimal-foldl :
    (m : ℕ) (s : Text)
    → 0 < m
    → all_digits s ≡ true
    → decimal (foldl push_digit m s) ≡ decimal m ++ s
unfolding all_digits
decimal-foldl m [] h d = sym (append-nil (decimal m))
decimal-foldl m (c ∷ s) h d =
    decimal-foldl (push_digit m c) s (ground arith) (ground arith)
    ∙ rw (decimal-push m c h (ground arith)) (append_assoc (decimal m) (c ∷ []) s)

decimal-first : (c : ℕ) → is_digit c ≡ true → decimal (push_digit 0 c) ≡ c ∷ []
decimal-first c h =
    let same : b'0' + push_digit 0 c ≡ c = ground arith in
    decimal-digit (push_digit 0 c) (ground arith) ∙ ap (λ x. x ∷ []) same

-- Reading a canonical numeral and printing it gives it back.
decimal-number : (s : Text) → is_numeral s ≡ true → decimal (number s) ≡ s
unfolding is_numeral number
decimal-number [] h = cc
decimal-number (c ∷ []) h = decimal-first c h
decimal-number (c ∷ d ∷ s) h =
    let first : is_digit c ≡ true = ground arith in
    decimal-foldl (push_digit 0 c) (d ∷ s) (ground arith) (ground arith)
    ∙ rw (decimal-first c first)

is_numeral-snoc :
    (s : Text) (c : ℕ)
    → is_numeral s ≡ true
    → 0 < number s
    → is_digit c ≡ true
    → is_numeral (s ++ c ∷ []) ≡ true
unfolding is_numeral number
is_numeral-snoc [] c h p d = cc
is_numeral-snoc (a ∷ []) c h p d = ground arith
is_numeral-snoc (a ∷ b ∷ s) c h p d = ground (arith, all_digits-snoc (b ∷ s) c)

is_numeral-decimal_below : (k n : ℕ) → n < k → is_numeral (decimal n) ≡ true
is_numeral-decimal_below zero n h = elim h [ ]
is_numeral-decimal_below (suc k) n h = elim (Bool-cases (ltb n 10)) [
  | inl small ↦ rw (decimal-digit n (ground arith)) (unfold is_numeral in ground arith)
  | inr large ↦
      let c : ℕ = b'0' + n % 10 in
      let whole : push_digit (n / 10) c ≡ n = omega arith in
      rw (← whole, decimal-push (n / 10) c (ground arith) (ground arith))
        (is_numeral-snoc (decimal (n / 10)) c (is_numeral-decimal_below k (n / 10) (ground arith))
          (rw (number-decimal (n / 10)) (ground arith)) (ground arith))
]

is_numeral-decimal : (n : ℕ) → is_numeral (decimal n) ≡ true
is_numeral-decimal n = is_numeral-decimal_below (suc n) n (omega arith)

release_major-decimal : (n : ℕ) → n ≤ max_safe_integer → release_major (b'v' ∷ decimal n) ≡ some n
unfolding release_major safe_number
release_major-decimal n h = rw (is_numeral-decimal n, number-decimal n) (ground arith)

release_major_inv :
    (branch : Text) (n : ℕ)
    → release_major branch ≡ some n
    → (branch ≡ b'v' ∷ decimal n) × (n ≤ max_safe_integer)
unfolding release_major safe_number
release_major_inv [] n h = cc
release_major_inv (c ∷ s) n h = ground (arith, decimal-number s)

-- A branch owns major `n` exactly when it is named `v` and the decimal numeral of `n`, with no
-- leading zero, and `n` is a safe integer.
pub release_major_iff :
    (branch : Text) (n : ℕ)
    → (release_major branch ≡ some n) ↔ ((branch ≡ b'v' ∷ decimal n) × (n ≤ max_safe_integer))
release_major_iff branch n = (release_major_inv branch n, λ h. rw h.0 (release_major-decimal n h.1))
