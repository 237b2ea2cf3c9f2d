-- ===== src/Common/Decimal.antt =====
-- `${n}` and `Number(s)` for the whole numbers below 10 ^ 21, which print in full.
use Prim.Native.Nat.{ℕ, zero, suc, ◌+◌, ◌-◌, ◌*◌, ◌/◌, ◌%◌, ◌<◌}
use mathlib.Core.Bool.{Bool, true, false, ◌&&◌}
use mathlib.Core.List.{[], ◌∷◌, ◌++◌, foldl, foldl-append}
use mathlib.Core.Logic.{inl, inr}
use mathlib.Core.Path.{◌≡◌, refl, ap, sym, ◌∙◌}
use native.Mathlib.Omega.{arith}
use jsrproxy.Common.Lists.{All}
use jsrproxy.Common.Tests.{leb, ltb, if◌then◌else◌, Bool-cases}
use jsrproxy.Common.Texts.{Text}

-- [0-9]
abbrev pub is_digit : ℕ → Bool
is_digit c = leb b'0' c && leb c b'9'

-- The digits of `n`, on fuel that `n + 1` suffices for.
decimal_on : ℕ → ℕ → Text
decimal_on zero n = []
decimal_on (suc fuel) n =
    let rest = decimal_on fuel (n / 10) in
    if ltb n 10 then (b'0' + n) ∷ [] else rest ++ ((b'0' + n % 10) ∷ [])

unfoldable pub decimal : ℕ → Text
unfolding decimal_on
decimal n = decimal_on (suc n) n

abbrev pub push_digit : ℕ → ℕ → ℕ
push_digit n c = n * 10 + (c - b'0')

-- The number that a text of digits denotes.
unfoldable pub number : Text → ℕ
number = foldl push_digit 0

number-snoc : (s : Text) (c : ℕ) → number (s ++ c ∷ []) ≡ number s * 10 + (c - b'0')
unfolding number
number-snoc s c = rw foldl-append

number-digit : (c : ℕ) → number (c ∷ []) ≡ c - b'0'
unfolding number
number-digit c = omega arith

number-decimal_on : (fuel n : ℕ) → n < fuel → number (decimal_on fuel n) ≡ n
unfolding decimal_on
number-decimal_on zero n h = elim h [ ]
number-decimal_on (suc fuel) n h = elim (Bool-cases (ltb n 10)) [
  | inl small ↦ rw small (number-digit (b'0' + n) ∙ omega arith)
  | inr large ↦ rw large (
      number-snoc (decimal_on fuel (n / 10)) (b'0' + n % 10)
      ∙ rw (number-decimal_on fuel (n / 10) (ground arith)) (omega arith))
]

-- Printing loses nothing.
pub number-decimal : (n : ℕ) → number (decimal n) ≡ n
unfolding decimal
number-decimal n = number-decimal_on (suc n) n (omega arith)

pub decimal_inj : (m n : ℕ) → decimal m ≡ decimal n → m ≡ n
decimal_inj m n h = sym (number-decimal m) ∙ ap number h ∙ number-decimal n

All-digit-append :
    (s t : Text)
    → All (λ c. is_digit c ≡ true) s
    → All (λ c. is_digit c ≡ true) t
    → All (λ c. is_digit c ≡ true) (s ++ t)
All-digit-append [] t hs ht = ht
All-digit-append (c ∷ s) t hs ht = (hs.0, All-digit-append s t hs.1 ht)

decimal_on-digits : (fuel n : ℕ) → All (λ c. is_digit c ≡ true) (decimal_on fuel n)
unfolding decimal_on
decimal_on-digits zero n = tt
decimal_on-digits (suc fuel) n = elim (Bool-cases (ltb n 10)) [
  | inl small ↦ rw small (ground arith, tt)
  | inr large ↦ rw large (
      All-digit-append (decimal_on fuel (n / 10)) _ (decimal_on-digits fuel (n / 10))
        (ground arith, tt))
]

pub decimal-digits : (n : ℕ) → All (λ c. is_digit c ≡ true) (decimal n)
unfolding decimal
decimal-digits n = decimal_on-digits (suc n) n

-- The fuel does not show in the digits.
decimal_on_fuel : (f g n : ℕ) → n < f → n < g → decimal_on f n ≡ decimal_on g n
unfolding decimal_on
decimal_on_fuel zero g n hf hg = elim hf [ ]
decimal_on_fuel (suc f) zero n hf hg = elim hg [ ]
decimal_on_fuel (suc f) (suc g) n hf hg = elim (Bool-cases (ltb n 10)) [
  | inl small ↦ rw small refl
  | inr large ↦ rw large (
      ap (λ s. s ++ (b'0' + n % 10) ∷ [])
        (decimal_on_fuel f g (n / 10) (ground arith) (ground arith)))
]

pub decimal-digit : (n : ℕ) → n < 10 → decimal n ≡ (b'0' + n) ∷ []
unfolding decimal decimal_on
decimal-digit n h = ground arith

-- A further digit is printed behind the others.
pub decimal-push :
    (m c : ℕ) → 0 < m → is_digit c ≡ true → decimal (push_digit m c) ≡ decimal m ++ c ∷ []
unfolding decimal decimal_on
decimal-push m c h d =
    let n : ℕ = m * 10 + (c - b'0') in
    let large : ltb n 10 ≡ false = ground arith in
    let quotient : n / 10 ≡ m = ground arith in
    let digit : b'0' + n % 10 ≡ c = ground arith in
    rw (large, quotient, digit)
      (ap (λ s. s ++ c ∷ []) (decimal_on_fuel n (suc m) m (ground arith) (omega arith)))
