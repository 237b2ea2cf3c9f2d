-- ===== src/Common/Sorting.antt =====
-- What `a.sort(c)[0]` and `a.filter(p)` return.
use mathlib.Core.Bool.{Bool, true, false≢true}
use mathlib.Core.List.{List, [], ◌∷◌}
use mathlib.Core.Logic.{◌⊎◌, inl, inr}
use mathlib.Core.Option.{Option, none, some}
use mathlib.Core.Path.{◌≡◌, refl, sym, ◌∙◌, subst}
use jsrproxy.Common.Lists.{
  In, here, there, In-cons_cases, not-In-nil, filter, insert_by, sort_by, head?,
}
use jsrproxy.Common.Tests.{Bool-cases, if◌then◌else◌}

module _ {ℓ} {A : Type ℓ} where
  pub In-filter_to :
      (p : A → Bool) (xs : List A) {x : A} → In x (filter p xs) → In x xs × (p x ≡ true)
  unfolding filter
  In-filter_to p [] m = absurd (not-In-nil m)
  In-filter_to p (y ∷ ys) {x} m = elim (Bool-cases (p y)) [
    | inl e ↦ elim (In-cons_cases (rw (e, filter) at m)) [
      | inl same ↦ rw same (here, e)
      | inr later ↦ let (i, q) = In-filter_to p ys later in (there i, q)
    ]
    | inr e ↦ let (i, q) = In-filter_to p ys (rw (e, filter) at m) in (there i, q)
  ]

  pub In-filter_from :
      (p : A → Bool) (xs : List A) {x : A} → In x xs → p x ≡ true → In x (filter p xs)
  unfolding filter
  In-filter_from p [] m h = absurd (not-In-nil m)
  In-filter_from p (y ∷ ys) {x} m h = elim (In-cons_cases m) [
    | inl same ↦ let e : p y ≡ true = subst (λ z. p z ≡ true) same h in rw (e, filter, same) here
    | inr later ↦ elim (Bool-cases (p y)) [
      | inl e ↦ rw (e, filter) (there (In-filter_from p ys later h))
      | inr e ↦ rw (e, filter) (In-filter_from p ys later h)
    ]
  ]

-- `le` stands for a comparator that is consistent: it is total and transitive.
pub record IsTotalOrder {ℓ} {A : Type ℓ} (le : A → A → Bool) : Type ℓ where
  pub total : (x y : A) → (le x y ≡ true) ⊎ (le y x ≡ true)
  pub trans : (x y z : A) → le x y ≡ true → le y z ≡ true → le x z ≡ true

module _ {ℓ} {A : Type ℓ} (le : A → A → Bool) where
  -- The first of a list that `x` was put into.
  first : A → Option A → A
  first x none = x
  first x (some y) = if le x y then x else y

  head-insert_by : (x : A) (xs : List A) → head? (insert_by le x xs) ≡ some (first x (head? xs))
  unfolding insert_by first
  head-insert_by x [] = refl
  head-insert_by x (y ∷ ys) = elim (Bool-cases (le x y)) [
    | inl e ↦ rw (e, insert_by) refl
    | inr e ↦ rw (e, insert_by) refl
  ]

  pub sort_by-none : (xs : List A) → head? (sort_by le xs) ≡ none → xs ≡ []
  unfolding sort_by
  sort_by-none [] h = refl
  sort_by-none (x ∷ xs) h = cc (head-insert_by x (sort_by le xs))

  first-In :
      (x : A) (xs : List A) (o : Option A)
      → ((y : A) → o ≡ some y → In y xs)
      → In (first x o) (x ∷ xs)
  unfolding first
  first-In x xs none h = here
  first-In x xs (some y) h = elim (Bool-cases (le x y)) [
    | inl e ↦ rw e here
    | inr e ↦ rw e (there (h y refl))
  ]

  -- The first of a sorted array is an item of the array.
  pub head-sort_by-In : (xs : List A) (m : A) → head? (sort_by le xs) ≡ some m → In m xs
  unfolding sort_by
  head-sort_by-In [] m h = cc
  head-sort_by-In (x ∷ xs) m h =
      let same : first x (head? (sort_by le xs)) ≡ m = cc (head-insert_by x (sort_by le xs)) in
      subst (λ z. In z (x ∷ xs)) same
        (first-In x xs (head? (sort_by le xs)) (λ y e. head-sort_by-In xs y e))

  le_self : IsTotalOrder le → (x : A) → le x x ≡ true
  le_self order x = elim (order.total x x) [ inl h ↦ h | inr h ↦ h ]

  first-least :
      IsTotalOrder le
      → (x : A) (xs : List A) (o : Option A) → (o ≡ none → xs ≡ [])
      → ((y : A) → o ≡ some y → (z : A) → In z xs → le y z ≡ true)
      → (z : A) → In z (x ∷ xs)
      → le (first x o) z ≡ true
  unfolding first
  first-least order x xs none empty least z m = elim (In-cons_cases m) [
    | inl same ↦ rw same (le_self order x)
    | inr later ↦ absurd (not-In-nil (subst (In z) (empty refl) later))
  ]
  first-least order x xs (some y) empty least z m = elim (Bool-cases (le x y)) [
    | inl e ↦ rw e (elim (In-cons_cases m) [
      | inl same ↦ rw same (le_self order x)
      | inr later ↦ order.trans x y z e (least y refl z later)
    ])
    | inr e ↦ rw e (elim (In-cons_cases m) [
      | inl same ↦ rw same (elim (order.total x y) [
        | inl forth ↦ absurd (false≢true (sym e ∙ forth))
        | inr back ↦ back
      ])
      | inr later ↦ least y refl z later
    ])
  ]

  -- The first of an array that a consistent comparator sorts comes before all its items.
  pub head-sort_by-least :
      IsTotalOrder le
      → (xs : List A) (m : A) → head? (sort_by le xs) ≡ some m
      → (z : A) → In z xs
      → le m z ≡ true
  unfolding sort_by
  head-sort_by-least order [] m h z i = cc
  head-sort_by-least order (x ∷ xs) m h z i =
      let same : first x (head? (sort_by le xs)) ≡ m = cc (head-insert_by x (sort_by le xs)) in
      subst (λ w. le w z ≡ true) same
        (first-least order x xs (head? (sort_by le xs)) (sort_by-none xs)
          (λ y e w j. head-sort_by-least order xs y e w j) z i)

module _ {ℓ} {A : Type ℓ} (le : A → A → Bool) where
  In-insert_by_to : (x : A) (ys : List A) {z : A} → In z (insert_by le x ys) → In z (x ∷ ys)
  unfolding insert_by
  In-insert_by_to x [] m = m
  In-insert_by_to x (y ∷ ys) m = elim (Bool-cases (le x y)) [
    | inl e ↦ rw (e, insert_by) at m
    | inr e ↦ elim (In-cons_cases (rw (e, insert_by) at m)) [
      | inl same ↦ rw same (there here)
      | inr later ↦ elim (In-cons_cases (In-insert_by_to x ys later)) [
        | inl same ↦ rw same here
        | inr i ↦ there (there i)
      ]
    ]
  ]

  In-insert_by_from : (x : A) (ys : List A) {z : A} → In z (x ∷ ys) → In z (insert_by le x ys)
  unfolding insert_by
  In-insert_by_from x [] m = m
  In-insert_by_from x (y ∷ ys) m = elim (Bool-cases (le x y)) [
    | inl e ↦ rw (e, insert_by) m
    | inr e ↦
        rw (e, insert_by)
          (elim (In-cons_cases m) [
            | inl same ↦ there (In-insert_by_from x ys (rw same here))
            | inr later ↦ elim (In-cons_cases later) [
              | inl same ↦ rw same here
              | inr i ↦ there (In-insert_by_from x ys (there i))
            ]
          ])
  ]

  -- Sorting adds and drops no item.
  pub In-sort_by_to : (xs : List A) {z : A} → In z (sort_by le xs) → In z xs
  unfolding sort_by
  In-sort_by_to [] m = m
  In-sort_by_to (x ∷ xs) m = elim (In-cons_cases (In-insert_by_to x (sort_by le xs) m)) [
    | inl same ↦ rw same here
    | inr later ↦ there (In-sort_by_to xs later)
  ]

  pub In-sort_by_from : (xs : List A) {z : A} → In z xs → In z (sort_by le xs)
  unfolding sort_by
  In-sort_by_from [] m = m
  In-sort_by_from (x ∷ xs) m = elim (In-cons_cases m) [
    | inl same ↦ In-insert_by_from x (sort_by le xs) (rw same here)
    | inr later ↦ In-insert_by_from x (sort_by le xs) (there (In-sort_by_from xs later))
  ]
