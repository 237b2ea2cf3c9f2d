-- ===== src/Common/Scanning.antt =====
-- What a regular expression takes from a text: a literal prefix, and the longest run of a class.
use Prim.Native.Nat.{ℕ}
use mathlib.Core.Bool.{Bool, true, false, ◌&&◌}
use mathlib.Core.List.{[], ◌∷◌, ◌++◌}
use mathlib.Core.Logic.{inl, inr}
use mathlib.Core.Option.{Option, none, some}
use mathlib.Core.Path.{◌≡◌, refl, sym}
use native.Mathlib.Omega.{arith}
use jsrproxy.Common.Tests.{nat_beq, nat_beq_iff, if◌then◌else◌, Bool-cases}
use jsrproxy.Common.Texts.{Text}

unfoldable pub all : (ℕ → Bool) → Text → Bool
all p [] = true
all p (c ∷ s) = p c && all p s

-- The longest run of units of the class `p`, and what follows it.
unfoldable pub span : (ℕ → Bool) → Text → Text × Text
span p [] = ([], [])
span p (c ∷ s) = let (run, rest) = span p s in if p c then (c ∷ run, rest) else ([], c ∷ s)

unfoldable pub strip_prefix : Text → Text → Option Text
strip_prefix [] s = some s
strip_prefix (c ∷ prefix) [] = none
strip_prefix (c ∷ prefix) (d ∷ s) =
    let rest = strip_prefix prefix s in if nat_beq c d then rest else none

-- A text that is empty or begins outside the class `p`.
abbrev pub EndsRun : (ℕ → Bool) → Text → Type 0
EndsRun p [] = Unit
EndsRun p (c ∷ s) = p c ≡ false

-- A run of the class is taken whole if nothing of the class follows.
pub span-append :
    (p : ℕ → Bool) (run rest : Text)
    → all p run ≡ true
    → EndsRun p rest
    → span p (run ++ rest) ≡ (run, rest)
unfolding span all
span-append p [] [] inside ends = refl
span-append p [] (c ∷ s) inside ends = rw ends refl
span-append p (c ∷ run) rest inside ends =
    let first : p c ≡ true = ground arith in
    let later : all p run ≡ true = ground arith in
    rw (first, span-append p run rest later ends) refl

pub strip_prefix-append : (prefix s : Text) → strip_prefix prefix (prefix ++ s) ≡ some s
unfolding strip_prefix
strip_prefix-append [] s = refl
strip_prefix-append (c ∷ prefix) s =
    rw ((nat_beq_iff c c).1 refl, strip_prefix-append prefix s) refl

pub strip_prefix-eq :
    (prefix s rest : Text) → strip_prefix prefix s ≡ some rest → s ≡ prefix ++ rest
unfolding strip_prefix
strip_prefix-eq [] s rest h = cc
strip_prefix-eq (c ∷ prefix) [] rest h = cc
strip_prefix-eq (c ∷ prefix) (d ∷ s) rest h = elim (Bool-cases (nat_beq c d)) [
  | inl e ↦
      let same : c ≡ d = (nat_beq_iff c d).0 e in
      let later = strip_prefix-eq prefix s rest (rw e at h) in λ i. sym same i ∷ later i
  | inr e ↦ let refused = rw e at h in absurd (cc)
]

pub all-append :
    (p : ℕ → Bool) (s t : Text) → all p s ≡ true → all p t ≡ true → all p (s ++ t) ≡ true
unfolding all
all-append p [] t left right = right
all-append p (c ∷ s) t left right = ground (arith, all-append p s t)

-- `if (!match) return undefined`
infixl 5 ◌>>=◌ ◌>>◌
abbrev pub ◌>>=◌ {ℓ κ} : {A : Type ℓ} {B : Type κ} → Option A → (A → Option B) → Option B
none >>= f = none
some a >>= f = f a

abbrev pub ◌>>◌ {ℓ} : {B : Type ℓ} → Option (Unit {0}) → Option B → Option B
m >> k = m >>= λ _. k

abbrev pub guard : Bool → Option (Unit {0})
guard true = some tt
guard false = none
