-- ===== src/Identity.antt =====
-- src/identity.ts: the names of synthetic packages and the paths that carry them.
pub mod Names
pub mod RepositoryNames
pub mod Paths
mod Examples
use jsrproxy.Common.{
  ℕ, ◌+◌, Bool, true, false, not, ◌&&◌, ◌||◌, Option, none, some, List, [], ◌∷◌, Text, codes, map,
  length, leb, if◌then◌else◌, ◌==◌, nat_eq, text_eq,
}
use jsrproxy.Common.Decimal.{is_digit}
use jsrproxy.Common.Scanning.{all, span, strip_prefix, guard, ◌>>=◌, ◌>>◌}

pub record PackageIdentity : Type 0 where
  pub scope : Text
  pub name : Text

pub record PackageStatusPath : Type 0 where
  pub identity : PackageIdentity
  pub version : Option Text

pub record PackageRecoveryPath : Type 0 where
  pub identity : PackageIdentity
  pub version : Text

-- `toLowerCase` by code unit. Outside ASCII only the Kelvin sign has an ASCII letter for its lower
-- case; every other unit outside ASCII is left, since the pattern refuses it in either case.
unfoldable pub to_lower_unit : ℕ → ℕ
to_lower_unit c = if leb b'A' c && leb c b'Z' then c + 32 else (if c == 8_490 then b'k' else c)

abbrev pub to_lower_case : Text → Text
to_lower_case = map to_lower_unit

-- [a-z0-9]
abbrev pub is_start : ℕ → Bool
is_start c = (leb b'a' c && leb c b'z') || is_digit c

-- [a-z0-9-]
abbrev pub is_part : ℕ → Bool
is_part c = is_start c || (c == b'-')

-- /^[a-z0-9][a-z0-9-]{1,57}$/
unfoldable pub is_name : Text → Bool
is_name [] = false
is_name (c ∷ s) = is_start c && (all is_part s && (leb 1 (length s) && leb (length s) 57))

-- `name.includes("--")`
unfoldable pub has_double_hyphen : Text → Bool
has_double_hyphen [] = false
has_double_hyphen (c ∷ []) = false
has_double_hyphen (c ∷ d ∷ s) = ((c == b'-') && (d == b'-')) || has_double_hyphen (d ∷ s)

unfoldable pub proxyable_repository_name : Text → Option Text
proxyable_repository_name repository =
    let name = to_lower_case repository in
    if is_name name && not (has_double_hyphen name) then some name else none

-- [a-z0-9][a-z0-9-]*
unfoldable pub is_scope : Text → Bool
is_scope [] = false
is_scope (c ∷ s) = is_start c && all is_part s

-- The groups `([a-z0-9][a-z0-9-]*)\/([a-z0-9-]+)` behind a literal, and what follows them. No class
-- has the slash that ends the first group, so the longest run is the only match.
unfoldable pub scope_and_name : Text → Text → Option (Text × (Text × Text))
scope_and_name prefix pathname = do
  behind ← strip_prefix prefix pathname
  let (scope, after_scope) = span is_part behind
  guard (is_scope scope)
  segment ← strip_prefix (codes "/") after_scope
  let (name, rest) = span is_part segment
  guard (not (name == []))
  some (scope, (name, rest))

-- (?:\/|$)
unfoldable pub ends_segment : Text → Bool
ends_segment [] = true
ends_segment (c ∷ s) = c == b'/'

unfoldable pub parse_package_identity : Text → Option PackageIdentity
parse_package_identity pathname = do
  (scope, (segment, rest)) ← scope_and_name (codes "/@") pathname
  guard (ends_segment rest)
  name ← proxyable_repository_name segment
  some (record { scope = scope; name = name })

-- /^[0-9]+\.[0-9]+\.[0-9]+$/
unfoldable pub match_version : Text → Option (Unit {0})
match_version version = do
  let (major, after_major) = span is_digit version
  guard (not (major == []))
  behind_major ← strip_prefix (codes ".") after_major
  let (minor, after_minor) = span is_digit behind_major
  guard (not (minor == []))
  patch ← strip_prefix (codes ".") after_minor
  guard (not (patch == []) && all is_digit patch)

-- `\/([0-9]+\.[0-9]+\.[0-9]+)$`
unfoldable pub version_segment : Text → Option Text
version_segment rest = do
  version ← strip_prefix (codes "/") rest
  match_version version
  some version

-- `(?:\/([0-9]+\.[0-9]+\.[0-9]+))?$`
unfoldable pub optional_version : Text → Option (Option Text)
optional_version [] = some none
optional_version (c ∷ s) = do version ← version_segment (c ∷ s); some (some version)

unfoldable pub parse_package_status_path : Text → Option PackageStatusPath
parse_package_status_path pathname = do
  (scope, (segment, rest)) ← scope_and_name (codes "/-/status/@") pathname
  version ← optional_version rest
  name ← proxyable_repository_name segment
  some (record { identity = record { scope = scope; name = name }; version = version })

unfoldable pub parse_package_recovery_path : Text → Option PackageRecoveryPath
parse_package_recovery_path pathname = do
  (scope, (segment, rest)) ← scope_and_name (codes "/-/recover/@") pathname
  version ← version_segment rest
  name ← proxyable_repository_name segment
  some (record { identity = record { scope = scope; name = name }; version = version })
