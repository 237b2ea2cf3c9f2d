-- ===== src/Common/Map.antt =====
-- A JavaScript `Map`: its entries in the order of insertion. A write to a key that is there keeps
-- the key's place.
use mathlib.Core.Bool.{Bool, true, false}
use mathlib.Core.List.{List, [], ◌∷◌, map}
use mathlib.Core.Logic.{◌⊎◌, inl, inr, ◌≢◌}
use mathlib.Core.Option.{Option, none, some}
use mathlib.Core.Path.{◌≡◌, refl, ap, sym, subst, ◌∙◌}
use native.Mathlib.Omega.{arith}
use jsrproxy.Common.Lists.{In, here, there, In-cons_cases}
use jsrproxy.Common.Tests.{Eq, ◌==◌, if◌then◌else◌, Bool-cases}

abbrev pub Map {ℓ κ} : Type ℓ → Type κ → Type (ℓ ⊔ κ)
Map K V = List (K × V)

module _ {ℓ κ} {K : Type ℓ} {V : Type κ} ⦃e : Eq K⦄ where
  -- `m.get(k)`
  unfoldable pub get : Map K V → K → Option V
  get [] k = none
  get ((j, v) ∷ m) k = if j == k then some v else get m k

  -- `m.has(k)`
  abbrev pub has : Map K V → K → Bool
  has m k = elim (get m k) [ none ↦ false | some v ↦ true ]

  -- `m.set(k, v)`
  unfoldable pub set : Map K V → K → V → Map K V
  set [] k v = (k, v) ∷ []
  set ((j, w) ∷ m) k v = if j == k then (j, v) ∷ m else (j, w) ∷ set m k v

  pub get-set :
      (m : Map K V) (k j : K) (v : V) → get (set m k v) j ≡ (if k == j then some v else get m j)
  unfolding get set
  get-set [] k j v = refl
  get-set ((i, w) ∷ m) k j v =
      ground (arith, e.beq_iff k j, e.beq_iff i k, e.beq_iff i j, get-set m k j v)

  pub get-set_self : (m : Map K V) (k : K) (v : V) → get (set m k v) k ≡ some v
  get-set_self m k v = ground (arith, get-set m k k v, e.beq_iff k k)

-- `[...m.values()]`
abbrev pub values {ℓ κ} : {K : Type ℓ} {V : Type κ} → Map K V → List V
values = map (λ p. p.1)

-- The keys of a `Map` are distinct.
abbrev pub IsMap {ℓ κ} : {K : Type ℓ} {V : Type κ} ⦃e : Eq K⦄ → Map K V → Type (ℓ ⊔ κ)
IsMap [] = Unit
IsMap ((k, v) ∷ m) = (get m k ≡ none) × IsMap m

module _ {ℓ κ} {K : Type ℓ} {V : Type κ} ⦃e : Eq K⦄ where
  -- So each entry is the one that `get` finds.
  pub In-get : (m : Map K V) {k : K} {v : V} → IsMap m → In (k, v) m → get m k ≡ some v
  unfolding get
  In-get [] distinct i = elim i [ ]
  In-get ((j, w) ∷ m) {k} {v} distinct i = elim (In-cons_cases i) [
    | inl same ↦
        let name : k ≡ j = ap (λ p. p.0) same in
        let value : v ≡ w = ap (λ p. p.1) same in
        rw ((e.beq_iff j k).1 (sym name), get) (ap some (sym value))
    | inr later ↦
        let found = In-get m distinct.1 later in
        elim (Bool-cases (j == k)) [
          | inl same ↦
              let name : j ≡ k = (e.beq_iff j k).0 same in
              absurd (cc (distinct.0, ap (get m) name, found))
          | inr different ↦ rw (different, get) found
        ]
  ]

  pub IsMap-set : (m : Map K V) (k : K) (v : V) → IsMap m → IsMap (set m k v)
  unfolding get set
  IsMap-set [] k v distinct = (refl, tt)
  IsMap-set ((j, w) ∷ m) k v distinct = elim (Bool-cases (j == k)) [
    | inl same ↦ rw (same, set) distinct
    | inr different ↦
        rw (different, set)
          (
            ground (arith, get-set m k j v, e.beq_iff k j, e.beq_iff j k, distinct.0),
            IsMap-set m k v distinct.1,
          )
  ]

-- What is found after a write is what was written, or was there under another key.
pub get-set_cases {ℓ κ} :
    {K : Type ℓ} {V : Type κ} ⦃e : Eq K⦄ (m : Map K V) (k j : K) (v : V) {w : V}
    → get (set m k v) j ≡ some w
    → ((j ≡ k) × (w ≡ v)) ⊎ ((k ≢ j) × (get m j ≡ some w))
get-set_cases ⦃e⦄ m k j v {w} h =
    let step : get (set m k v) j ≡ (if k == j then some v else get m j) = get-set m k j v in
    elim (Bool-cases (k == j)) [
      | inl same ↦
          let found : some v ≡ some w = sym (rw same at step) ∙ h in
          inl (sym ((e.beq_iff k j).0 same), cc)
      | inr other ↦ inr (λ same. cc ((e.beq_iff k j).1 same), sym (rw other at step) ∙ h)
    ]

pub In-values_key {ℓ κ} :
    {K : Type ℓ} {V : Type κ} (m : Map K V) {v : V} → In v (values m) → (k : K) × In (k, v) m
In-values_key [] i = elim i [ ]
In-values_key ((j, w) ∷ m) {v} i = elim (In-cons_cases i) [
  | inl same ↦ (j, subst (λ x. In (j, x) ((j, w) ∷ m)) (sym same) here)
  | inr later ↦ let (k, found) = In-values_key m later in (k, there found)
]

pub get-In-values {ℓ κ} :
    {K : Type ℓ} {V : Type κ} ⦃e : Eq K⦄ (m : Map K V) (k : K) {v : V}
    → get m k ≡ some v
    → In v (values m)
unfolding get
get-In-values [] k h = cc
get-In-values ⦃e⦄ ((j, w) ∷ m) k {v} h = elim (Bool-cases (j == k)) [
  | inl same ↦
      let found : some w ≡ some v = rw (same, get) at h in
      let value : w ≡ v = cc in subst (λ x. In x (w ∷ values m)) value here
  | inr different ↦ there (get-In-values m k (rw (different, get) at h))
]
