-- ===== src/Identity/RepositoryNames.antt =====
-- Which repository names `proxyableRepositoryName` of src/identity.ts maps, and to what.
use jsrproxy.Common.{
  ℕ, ◌+◌, ◌≤◌, ◌≡◌, ◌≢◌, ◌↔◌, ◌⊎◌, refl, sym, ap, subst, inl, inr, true, Bool-cases, ◌&&◌, some, [],
  ◌∷◌, ◌++◌, Text, arith, nat_eq, length, All, leb, ◌==◌,
}
use jsrproxy.Common.Scanning.{all}
use jsrproxy.Identity.{
  to_lower_unit, to_lower_case, is_start, is_part, is_name, has_double_hyphen,
  proxyable_repository_name,
}
use jsrproxy.Identity.Names.{IsName, proxyable_repository_name_tests}

-- `d` is the unit that stands for `c` in lower case: an ASCII capital becomes its small letter, the
-- Kelvin sign a `k`, and no other unit changes.
abbrev pub IsLowerOf : ℕ → ℕ → Type 0
IsLowerOf c d =
    ((65 ≤ c) × (c ≤ 90) × (d ≡ c + 32))
    ⊎ ((c ≡ 8_490) × (d ≡ 107))
    ⊎ ((¬ ((65 ≤ c) × (c ≤ 90))) × (c ≢ 8_490) × (d ≡ c))

-- Unit by unit.
abbrev pub LowerCase : Text → Text → Type 0
LowerCase [] [] = Unit
LowerCase (c ∷ s) (d ∷ t) = IsLowerOf c d × LowerCase s t
LowerCase _ _ = ⊥

-- A small letter or a digit.
abbrev pub IsLetterOrDigit : ℕ → Type 0
IsLetterOrDigit c = ((97 ≤ c) × (c ≤ 122)) ⊎ ((48 ≤ c) × (c ≤ 57))

-- From 2 to 58 small letters, digits and hyphens, with no hyphen in front and no two side by side.
pub record IsRepositoryName (name : Text) : Type 0 where
  pub first : ℕ
  pub rest : Text
  pub name_eq : name ≡ first ∷ rest
  pub starts : IsLetterOrDigit first
  pub units : All (λ c. IsLetterOrDigit c ⊎ (c ≡ 45)) rest
  pub short : 2 ≤ length name
  pub long : length name ≤ 58
  pub single : (before after : Text) → name ≢ before ++ 45 ∷ 45 ∷ after

IsLowerOf-to_lower_unit : (c : ℕ) → IsLowerOf c (to_lower_unit c)
unfolding to_lower_unit
IsLowerOf-to_lower_unit c = elim (Bool-cases (leb b'A' c && leb c b'Z')) [
  | inl e ↦ rw e (inl (ground (arith, e), ground (arith, e), refl))
  | inr e ↦ rw e (elim (Bool-cases (c == 8_490)) [
    | inl kelvin ↦ rw kelvin (inr (inl (ground (arith, kelvin), refl)))
    | inr other ↦
        rw other (inr (inr (λ h. ground (arith, e, h), λ h. ground (arith, other, h), refl)))
  ])
]

to_lower_unit-eq : (c d : ℕ) → IsLowerOf c d → d ≡ to_lower_unit c
unfolding to_lower_unit
to_lower_unit-eq c d (inl (from, to, e)) = ground arith
to_lower_unit-eq c d (inr (inl (kelvin, e))) = ground arith
to_lower_unit-eq c d (inr (inr (other, plain, e))) = elim (Bool-cases (leb b'A' c && leb c b'Z')) [
  | inl capital ↦ absurd (other (ground arith, ground arith))
  | inr small ↦ rw small (elim (Bool-cases (c == 8_490)) [
    | inl kelvin ↦ absurd (plain (ground arith))
    | inr different ↦ rw different e
  ])
]

LowerCase-to_lower_case : (s : Text) → LowerCase s (to_lower_case s)
LowerCase-to_lower_case [] = tt
LowerCase-to_lower_case (c ∷ s) = (IsLowerOf-to_lower_unit c, LowerCase-to_lower_case s)

to_lower_case-eq : (s t : Text) → LowerCase s t → t ≡ to_lower_case s
to_lower_case-eq [] [] h = refl
to_lower_case-eq [] (d ∷ t) h = absurd h
to_lower_case-eq (c ∷ s) [] h = absurd h
to_lower_case-eq (c ∷ s) (d ∷ t) h = rw (to_lower_unit-eq c d h.0, to_lower_case-eq s t h.1) refl

start_unit : (c : ℕ) → is_start c ≡ true → IsLetterOrDigit c
start_unit c h = elim (Bool-cases (leb b'a' c && leb c b'z')) [
  | inl e ↦ inl (ground arith, ground arith)
  | inr e ↦ inr (ground arith, ground arith)
]

unit_start : (c : ℕ) → IsLetterOrDigit c → is_start c ≡ true
unit_start c (inl (from, to)) = ground arith
unit_start c (inr (from, to)) = ground arith

part_units : (s : Text) → all is_part s ≡ true → All (λ c. IsLetterOrDigit c ⊎ (c ≡ 45)) s
unfolding all
part_units [] h = tt
part_units (c ∷ s) h = (
  elim (Bool-cases (is_start c)) [ inl e ↦ inl (start_unit c e) | inr e ↦ inr (ground arith) ],
  part_units s (ground arith),
)

units_part : (s : Text) → All (λ c. IsLetterOrDigit c ⊎ (c ≡ 45)) s → all is_part s ≡ true
unfolding all
units_part [] h = refl
units_part (c ∷ s) (inl e, h) = ground (arith, unit_start c e, units_part s h)
units_part (c ∷ s) (inr e, h) = ground (arith, e, units_part s h)

-- The test for two hyphens finds them wherever they stand.
double_hyphen_found : (before after : Text) → has_double_hyphen (before ++ 45 ∷ 45 ∷ after) ≡ true
unfolding has_double_hyphen
double_hyphen_found [] after = refl
double_hyphen_found (c ∷ []) after = ground arith
double_hyphen_found (c ∷ d ∷ before) after =
    let later = double_hyphen_found (d ∷ before) after in ground (arith, later)

double_hyphen_split :
    (s : Text)
    → has_double_hyphen s ≡ true
    → (before : Text) × (after : Text) × (s ≡ before ++ 45 ∷ 45 ∷ after)
unfolding has_double_hyphen
double_hyphen_split [] h = absurd (cc)
double_hyphen_split (c ∷ []) h = absurd (cc)
double_hyphen_split (c ∷ d ∷ s) h = elim (Bool-cases ((c == b'-') && (d == b'-'))) [
  | inl e ↦
      let at_c : c ≡ 45 = ground arith in
      let at_d : d ≡ 45 = ground arith in ([], s, rw (at_c, at_d) refl)
  | inr e ↦
      let (before, after, split) = double_hyphen_split (d ∷ s) (rw e at h) in
      (c ∷ before, after, ap (λ t. c ∷ t) split)
]

IsRepositoryName-of : (name : Text) → IsName name → IsRepositoryName name
unfolding is_name
IsRepositoryName-of [] valid = let named = valid.named in absurd (cc)
IsRepositoryName-of (c ∷ s) valid =
    let named = valid.named in
    record {
      first = c;
      rest = s;
      name_eq = refl;
      starts = start_unit c (ground arith);
      units = part_units s (ground arith);
      short = ground arith;
      long = ground arith;
      single = λ before after e.
          absurd (cc (valid.single, ap has_double_hyphen e, double_hyphen_found before after));
    }

IsName-of : (name : Text) → IsRepositoryName name → IsName name
unfolding is_name
IsName-of name valid = record {
  named = is_named;
  single = elim (Bool-cases (has_double_hyphen name)) [
    | inl e ↦
        let (before, after, h) = double_hyphen_split name e in absurd (valid.single before after h)
    | inr e ↦ e
  ];
}
  where
    is_named : is_name name ≡ true
    is_named =
        let starts = unit_start valid.first valid.starts in
        let parts = units_part valid.rest valid.units in
        let short = subst (λ n. 2 ≤ length n) valid.name_eq valid.short in
        let long = subst (λ n. length n ≤ 58) valid.name_eq valid.long in
        rw valid.name_eq (ground (arith, starts, parts, short, long))

-- A repository name is mapped exactly to the text that is its lower case unit by unit, if that text
-- has from 2 to 58 units, each a small letter, a digit or a hyphen, begins with no hyphen and has no
-- two hyphens side by side; any other repository name is mapped to nothing. Lower case is that of
-- the ASCII capitals and the Kelvin sign.
pub proxyable_repository_name_iff :
    (repository name : Text)
    → (proxyable_repository_name repository ≡ some name)
      ↔ (LowerCase repository name × IsRepositoryName name)
proxyable_repository_name_iff repository name = (
  λ h.
      let (lower, valid) = (proxyable_repository_name_tests repository name).0 h in
      (
        subst (LowerCase repository) (sym lower) (LowerCase-to_lower_case repository),
        IsRepositoryName-of name valid,
      ),
  λ (lower, valid).
      (proxyable_repository_name_tests repository name).1
        (to_lower_case-eq repository name lower, IsName-of name valid),
)
