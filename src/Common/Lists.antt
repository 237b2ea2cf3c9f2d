-- ===== src/Common/Lists.antt =====
-- Lists as JavaScript arrays.
use Prim.Native.Nat.{ℕ, suc}
use mathlib.Core.Bool.{Bool, false, ◌||◌}
use mathlib.Core.List.{List, [], ◌∷◌, ◌++◌}
use mathlib.Core.Logic.{◌⊎◌, inl, inr}
use mathlib.Core.Option.{Option, none, some}
use mathlib.Core.Path.{◌≡◌, refl, subst}
use jsrproxy.Common.Tests.{if◌then◌else◌}

module _ {ℓ} {A : Type ℓ} where
  -- `a.length`
  abbrev pub length : List A → ℕ
  length [] = 0
  length (x ∷ xs) = suc (length xs)

  -- `a.filter(p)`
  unfoldable pub filter : (A → Bool) → List A → List A
  filter p [] = []
  filter p (x ∷ xs) = if p x then x ∷ filter p xs else filter p xs

  -- `a.some(p)`
  unfoldable pub any : (A → Bool) → List A → Bool
  any p [] = false
  any p (x ∷ xs) = p x || any p xs

  -- `a[0]`
  abbrev pub head? : List A → Option A
  head? [] = none
  head? (x ∷ xs) = some x

  -- `a.sort(c)`, which is stable: `le x y` stands for `c(x, y) <= 0`.
  unfoldable pub insert_by : (A → A → Bool) → A → List A → List A
  insert_by le x [] = x ∷ []
  insert_by le x (y ∷ ys) = if le x y then x ∷ y ∷ ys else y ∷ insert_by le x ys

  unfoldable pub sort_by : (A → A → Bool) → List A → List A
  unfolding insert_by
  sort_by le [] = []
  sort_by le (x ∷ xs) = insert_by le x (sort_by le xs)

  -- A predicate of each item.
  abbrev pub All {κ} : (A → Type κ) → List A → Type κ
  All P [] = Unit
  All P (x ∷ xs) = P x × All P xs

  -- An item of a list, by its place.
  pub data In (x : A) : List A → Type ℓ where
    here : {xs : List A} → In x (x ∷ xs)
    there : {y : A} {xs : List A} → In x xs → In x (y ∷ xs)

module _ {ℓ} {A : Type ℓ} where
  pub In-append_left : {x : A} {xs : List A} (ys : List A) → In x xs → In x (xs ++ ys)
  In-append_left ys here = here
  In-append_left ys (there m) = there (In-append_left ys m)

  pub In-append_right : {x : A} {ys : List A} (xs : List A) → In x ys → In x (xs ++ ys)
  In-append_right [] m = m
  In-append_right (y ∷ xs) m = there (In-append_right xs m)

  pub In-append_cases : {x : A} (xs : List A) {ys : List A} → In x (xs ++ ys) → In x xs ⊎ In x ys
  In-append_cases [] m = inr m
  In-append_cases (y ∷ xs) here = inl here
  In-append_cases (y ∷ xs) (there m) = elim (In-append_cases xs m) [
    | inl l ↦ inl (there l)
    | inr r ↦ inr r
  ]

  pub not-In-nil : {x : A} → ¬ In x []
  not-In-nil m = elim m [ ]

  pub In-cons_cases : {x y : A} {xs : List A} → In x (y ∷ xs) → (x ≡ y) ⊎ In x xs
  In-cons_cases here = inl refl
  In-cons_cases (there m) = inr m

-- `a.flatMap(f)`
unfoldable pub flat_map {ℓ κ} : {A : Type ℓ} {B : Type κ} → (A → List B) → List A → List B
flat_map f [] = []
flat_map f (x ∷ xs) = f x ++ flat_map f xs

module _ {ℓ κ} {A : Type ℓ} {B : Type κ} (f : A → List B) where
  pub In-flat_map_to : (xs : List A) {y : B} → In y (flat_map f xs) → (x : A) × In x xs × In y (f x)
  unfolding flat_map
  In-flat_map_to [] m = absurd (not-In-nil m)
  In-flat_map_to (x ∷ xs) m = elim (In-append_cases (f x) m) [
    | inl own ↦ (x, here, own)
    | inr rest ↦ let (z, i, j) = In-flat_map_to xs rest in (z, there i, j)
  ]

  pub In-flat_map_from : (xs : List A) {x : A} {y : B} → In x xs → In y (f x) → In y (flat_map f xs)
  unfolding flat_map
  In-flat_map_from [] i j = absurd (not-In-nil i)
  In-flat_map_from (z ∷ xs) {x} {y} i j = elim (In-cons_cases i) [
    | inl same ↦ In-append_left (flat_map f xs) (subst (λ w. In y (f w)) same j)
    | inr later ↦ In-append_right (f z) (In-flat_map_from xs later j)
  ]
