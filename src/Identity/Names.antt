-- ===== src/Identity/Names.antt =====
-- The repository names of src/identity.ts.
use jsrproxy.Common.{
  ℕ, ◌≡◌, ◌↔◌, refl, sym, inl, inr, true, false, Bool-cases, not, ◌&&◌, some, [], ◌∷◌, Text, arith,
  nat_eq,
}
use jsrproxy.Common.Scanning.{all}
use jsrproxy.Identity.{
  to_lower_unit, to_lower_case, is_part, is_name, is_scope, has_double_hyphen,
  proxyable_repository_name,
}

to_lower_unit_again : (c : ℕ) → to_lower_unit (to_lower_unit c) ≡ to_lower_unit c
unfolding to_lower_unit
to_lower_unit_again c = ground arith

to_lower_case_again : (s : Text) → to_lower_case (to_lower_case s) ≡ to_lower_case s
to_lower_case_again [] = refl
to_lower_case_again (c ∷ s) = rw (to_lower_unit_again c, to_lower_case_again s) refl

-- Repositories whose names have the same lower case have the same identity or none.
pub proxyable_repository_name-to_lower_case :
    (repository : Text)
    → proxyable_repository_name (to_lower_case repository) ≡ proxyable_repository_name repository
unfolding proxyable_repository_name
proxyable_repository_name-to_lower_case repository = rw (to_lower_case_again repository) refl

-- A text that may be a name.
pub record IsName (s : Text) : Type 0 where
  pub named : is_name s ≡ true
  pub single : has_double_hyphen s ≡ false

-- A name is returned if it is the lower case and passes the tests of the code.
pub proxyable_repository_name_tests :
    (repository name : Text)
    → (proxyable_repository_name repository ≡ some name)
      ↔ ((name ≡ to_lower_case repository) × IsName name)
unfolding proxyable_repository_name
proxyable_repository_name_tests repository name = (to, from)
  where
    to :
        proxyable_repository_name repository ≡ some name
        → (name ≡ to_lower_case repository) × IsName name
    to h =
        elim (Bool-cases (
          is_name (to_lower_case repository)
          && not (has_double_hyphen (to_lower_case repository)))) [
            | inl e ↦
                let returned = rw e at h in
                let same : to_lower_case repository ≡ name = cc in
                let named : is_name (to_lower_case repository) ≡ true = ground (arith, e) in
                let single : has_double_hyphen (to_lower_case repository) ≡ false =
                  ground (arith, e) in
                (sym same, record { named = rw same at named; single = rw same at single })
            | inr e ↦ let refused = rw e at h in absurd (cc)
          ]

    from :
        (name ≡ to_lower_case repository) × IsName name
        → proxyable_repository_name repository ≡ some name
    from (e, valid) = rw (← e, valid.named, valid.single) refl

lower_of_part : (c : ℕ) → is_part c ≡ true → to_lower_unit c ≡ c
unfolding to_lower_unit
lower_of_part c h = ground arith

lower_of_parts : (s : Text) → all is_part s ≡ true → to_lower_case s ≡ s
unfolding all
lower_of_parts [] h = refl
lower_of_parts (c ∷ s) h = rw (lower_of_part c (ground arith), lower_of_parts s (ground arith)) refl

pub is_name-parts : (s : Text) → is_name s ≡ true → all is_part s ≡ true
unfolding is_name all
is_name-parts [] h = absurd (cc)
is_name-parts (c ∷ s) h = ground arith

pub is_scope-parts : (s : Text) → is_scope s ≡ true → all is_part s ≡ true
unfolding is_scope all
is_scope-parts [] h = absurd (cc)
is_scope-parts (c ∷ s) h = ground arith

-- A valid name is its own identity.
pub IsName-proxyable : (name : Text) → IsName name → proxyable_repository_name name ≡ some name
IsName-proxyable name valid =
    (proxyable_repository_name_tests name name).1
      (sym (lower_of_parts name (is_name-parts name valid.named)), valid)
