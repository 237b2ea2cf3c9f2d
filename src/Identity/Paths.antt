-- ===== src/Identity/Paths.antt =====
-- The paths of src/identity.ts: what is parsed from a path that was made of valid parts.
use jsrproxy.Common.{
  ℕ, ◌+◌, ◌%◌, ltb, ◌≡◌, ◌≢◌, refl, ap, sym, subst, ◌∙◌, ◌↔◌, ◌⊎◌, inl, inr, Bool, true, false,
  Bool-cases, not, ◌&&◌, ◌||◌, Option, none, some, List, [], ◌∷◌, ◌++◌, Text, codes, All,
  if◌then◌else◌, arith, nat_eq, text_eq, ◌==◌, text_beq_iff,
}
use jsrproxy.Common.Decimal.{decimal, is_digit, decimal-digits}
use jsrproxy.Common.Scanning.{all, strip_prefix, EndsRun, span-append, strip_prefix-append}
use jsrproxy.VersionAllocator.{version_text}
use jsrproxy.Identity.{
  is_part, is_name, is_scope, scope_and_name, ends_segment, match_version, version_segment,
  optional_version, parse_package_identity, parse_package_status_path, parse_package_recovery_path,
}
use jsrproxy.Identity.Names.{IsName, is_name-parts, is_scope-parts, IsName-proxyable}

-- A path below the package of a scope and a name, behind a literal.
abbrev pub path_of : Text → Text → Text → Text → Text
path_of prefix scope name rest = prefix ++ (scope ++ (b'/' ∷ (name ++ rest)))

name_not_empty : (name : Text) → is_name name ≡ true → not (name == []) ≡ true
unfolding is_name
name_not_empty [] h = absurd (cc)
name_not_empty (c ∷ s) h = unfold jsrproxy.Common.text_beq in refl

module _ (prefix scope name rest : Text) (valid_scope : is_scope scope ≡ true)
    (valid_name : IsName name) (ends : EndsRun is_part rest) where
  scope_and_name-path_of :
      scope_and_name prefix (path_of prefix scope name rest) ≡ some (scope, (name, rest))
  unfolding scope_and_name strip_prefix
  scope_and_name-path_of =
      rw
        (
          strip_prefix-append prefix (scope ++ (b'/' ∷ (name ++ rest))),
          span-append is_part scope (b'/' ∷ (name ++ rest)) (is_scope-parts scope valid_scope) refl,
          valid_scope,
          span-append is_part name rest (is_name-parts name valid_name.named) ends,
          name_not_empty name valid_name.named,
        )
        refl

ends_segment-EndsRun : (rest : Text) → ends_segment rest ≡ true → EndsRun is_part rest
unfolding ends_segment
ends_segment-EndsRun [] h = tt
ends_segment-EndsRun (c ∷ s) h = ground arith

-- A valid scope and name are parsed back from every path of their package.
pub parse_package_identity-path_of :
    (scope name rest : Text)
    → is_scope scope ≡ true
    → IsName name
    → ends_segment rest ≡ true
    → parse_package_identity (path_of (codes "/@") scope name rest)
      ≡ some (record { scope = scope; name = name })
unfolding parse_package_identity
parse_package_identity-path_of scope name rest valid_scope valid_name ends =
    rw
      (
        scope_and_name-path_of (codes "/@") scope name rest valid_scope valid_name
            (ends_segment-EndsRun rest ends),
        ends,
        IsName-proxyable name valid_name,
      )
      refl

all-digits : (s : Text) → All (λ c. is_digit c ≡ true) s → all is_digit s ≡ true
unfolding all
all-digits [] h = refl
all-digits (c ∷ s) h = rw (h.0, all-digits s h.1) refl

append_last-not_empty : (s : Text) (c : ℕ) → not ((s ++ c ∷ []) == []) ≡ true
unfolding jsrproxy.Common.text_beq
append_last-not_empty [] c = refl
append_last-not_empty (d ∷ s) c = refl

decimal-not_empty : (n : ℕ) → not (decimal n == []) ≡ true
unfolding decimal
decimal-not_empty n = elim (Bool-cases (ltb n 10)) [
  | inl small ↦ rw small (append_last-not_empty [] (b'0' + n))
  | inr large ↦ rw large (append_last-not_empty _ (b'0' + n % 10))
]

match_version-parts :
    (major minor patch : Text)
    → all is_digit major ≡ true
    → all is_digit minor ≡ true
    → all is_digit patch ≡ true
    → not (major == []) ≡ true
    → not (minor == []) ≡ true
    → not (patch == []) ≡ true
    → match_version (major ++ (b'.' ∷ (minor ++ (b'.' ∷ patch)))) ≡ some tt
unfolding match_version strip_prefix
match_version-parts major minor patch p q r p' q' r' =
    rw
      (
        span-append is_digit major (b'.' ∷ (minor ++ (b'.' ∷ patch))) p refl,
        span-append is_digit minor (b'.' ∷ patch) q refl,
        p',
        q',
        r',
        r,
      )
      refl

-- The version texts of the allocator have the form that the paths take.
match_version-version_text :
    (major sequence : ℕ) → match_version (version_text major sequence) ≡ some tt
unfolding version_text all jsrproxy.Common.text_beq
match_version-version_text major sequence =
    match_version-parts (decimal major) (codes "1") (decimal sequence)
      (all-digits (decimal major) (decimal-digits major)) refl
      (all-digits (decimal sequence) (decimal-digits sequence)) (decimal-not_empty major) refl
      (decimal-not_empty sequence)

version_segment-version_text :
    (major sequence : ℕ)
    → version_segment (b'/' ∷ version_text major sequence) ≡ some (version_text major sequence)
unfolding version_segment strip_prefix
version_segment-version_text major sequence = rw (match_version-version_text major sequence) refl

-- The recovery path of a version that the allocator made is parsed back to its package and version.
pub parse_package_recovery_path-path_of :
    (scope name : Text) (major sequence : ℕ)
    → is_scope scope ≡ true
    → IsName name
    → parse_package_recovery_path
        (path_of (codes "/-/recover/@") scope name (b'/' ∷ version_text major sequence))
      ≡ some (record {
        identity = record { scope = scope; name = name };
        version = version_text major sequence;
      })
unfolding parse_package_recovery_path
parse_package_recovery_path-path_of scope name major sequence valid_scope valid_name =
    rw
      (
        scope_and_name-path_of (codes "/-/recover/@") scope name
            (b'/' ∷ version_text major sequence) valid_scope valid_name refl,
        version_segment-version_text major sequence,
        IsName-proxyable name valid_name,
      )
      refl

-- The status path of a package, and that of a version that the allocator made, are parsed back to
-- the package with no version and with that one.
pub parse_package_status_path-path_of :
    (scope name : Text) (major sequence : ℕ)
    → is_scope scope ≡ true
    → IsName name
    → (parse_package_status_path (path_of (codes "/-/status/@") scope name [])
        ≡ some (record { identity = record { scope = scope; name = name }; version = none }))
      × (parse_package_status_path
            (path_of (codes "/-/status/@") scope name (b'/' ∷ version_text major sequence))
          ≡ some (record {
            identity = record { scope = scope; name = name };
            version = some (version_text major sequence);
          }))
unfolding parse_package_status_path optional_version
parse_package_status_path-path_of scope name major sequence valid_scope valid_name = (
  rw
      (
        scope_and_name-path_of (codes "/-/status/@") scope name [] valid_scope valid_name tt,
        IsName-proxyable name valid_name,
      )
      refl,
  rw
      (
        scope_and_name-path_of (codes "/-/status/@") scope name (b'/' ∷ version_text major sequence)
            valid_scope valid_name refl,
        version_segment-version_text major sequence,
        IsName-proxyable name valid_name,
      )
      refl,
)
