-- ===== src/Config/Laws.antt =====
-- What a configuration that src/config.ts accepted holds.
use jsrproxy.Common.{
  ◌≡◌, refl, ap, subst, ◌∙◌, inl, inr, true, false, not, Option, none, some, List, [], ◌∷◌, Text,
  codes, arith, ok, >>=-eq-ok, ◌==◌, text_eq, All, or_throw, require, invalid_trusted_users,
  invalid_json, property_of_null, ◌⊎◌, ℕ,
}
use jsrproxy.Common.Json.{Json, str, obj, Members, entries, field, member_of, as_string, as_array}
use jsrproxy.Common.Map.{Map, get, set, IsMap, get-set_cases}
use jsrproxy.Identity.{is_scope}
use jsrproxy.Config.{
  GitHubScope, ProxyConfig, no_config, is_null, object_entries, parse_entry, parse_scopes,
  user_names, trusted_users, parse_config,
}
use jsrproxy.Config.Scopes.{or_throw-ok, OwnerOf, Configured, parse_scopes-get}

-- A scope and an owner that the code accepts.
pub record IsScope (scope : Text) (parsed : GitHubScope) : Type 0 where
  pub scope_valid : is_scope scope ≡ true
  pub owner_nonempty : (parsed.owner == []) ≡ false

parse_entry-IsScope :
    (scope : Text) (entry : Json) (parsed : GitHubScope)
    → parse_entry scope entry ≡ ok parsed
    → IsScope scope parsed
unfolding parse_entry
parse_entry-IsScope scope entry parsed h = record {
  scope_valid = ground arith;
  owner_nonempty = ground arith;
}

parse_scopes-All :
    (es : List (Text × Json)) (before after : Map Text GitHubScope)
    → ((k : Text) (s : GitHubScope) → get before k ≡ some s → IsScope k s)
    → parse_scopes es before ≡ ok after
    → (k : Text) (s : GitHubScope) → get after k ≡ some s
    → IsScope k s
unfolding parse_scopes
parse_scopes-All [] before after valid h k s found =
    let same : before ≡ after = cc in valid k s (ap (λ m. get m k) same ∙ found)
parse_scopes-All ((scope, entry) ∷ rest) before after valid h k s found =
    let (parsed, e, later) = >>=-eq-ok (parse_entry scope entry) _ h in
    parse_scopes-All rest (set before scope parsed) after
      (λ j r at_j. elim (get-set_cases before scope j parsed at_j) [
        | inl (at_scope, same) ↦ rw (at_scope, same) (parse_entry-IsScope scope entry parsed e)
        | inr (_, old) ↦ valid j r old
      ])
      later k s found

-- No name of the list is empty.
abbrev pub AreNames : List Text → Type 0
AreNames = All (λ name. (name == []) ≡ false)

user_names-AreNames :
    (users : List Json) (names : List Text) → user_names users ≡ ok names → AreNames names
unfolding user_names
user_names-AreNames [] names h = let same : [] ≡ names = cc in subst AreNames same tt
user_names-AreNames (user ∷ users) names h =
    let (name, _, tested) =
      >>=-eq-ok (or_throw (as_string (some user)) invalid_trusted_users) _ h in
    let (_, nonempty, further) =
      >>=-eq-ok (require (not (name == [])) invalid_trusted_users) _ tested in
    let (rest, e, last) = >>=-eq-ok (user_names users) _ further in
    let same : name ∷ rest ≡ names = cc in
    subst AreNames same (ground (arith, nonempty), user_names-AreNames users rest e)

trusted_users-AreNames :
    (value : Option Json) (names : List Text) → trusted_users value ≡ ok names → AreNames names
unfolding trusted_users
trusted_users-AreNames none names h = let same : [] ≡ names = cc in subst AreNames same tt
trusted_users-AreNames (some value) names h =
    let (users, _, named) =
      >>=-eq-ok (or_throw (as_array (some value)) invalid_trusted_users) _ h in
    user_names-AreNames users names named

-- The parts of a configuration that was parsed from a text.
record Parsed (parse : Text → Option Json) (value : Text) (config : ProxyConfig) : Type 0 where
  raw : Json
  parsed : parse value ≡ some raw
  scopes : parse_scopes (object_entries (field (some raw) (codes "scopes"))) [] ≡ ok config.scopes
  users :
      trusted_users (field (some raw) (codes "trusted_github_users"))
      ≡ ok config.trusted_github_users

parse_config-Parsed :
    (parse : Text → Option Json) (c : ℕ) (s : Text) (config : ProxyConfig)
    → parse_config parse (some (c ∷ s)) ≡ ok config
    → Parsed parse (c ∷ s) config
unfolding parse_config
parse_config-Parsed parse c s config h =
    let (raw, parsed, tested) = >>=-eq-ok (or_throw (parse (c ∷ s)) invalid_json) _ h in
    let (_, _, read) = >>=-eq-ok (require (not (is_null raw)) property_of_null) _ tested in
    let (scopes, of_scopes, further) =
      >>=-eq-ok (parse_scopes (object_entries (field (some raw) (codes "scopes"))) []) _ read in
    let (users, of_users, last) =
      >>=-eq-ok (trusted_users (field (some raw) (codes "trusted_github_users"))) _ further in
    let same : record { scopes = scopes; trusted_github_users = users } ≡ config = cc in
    subst (Parsed parse (c ∷ s)) same (record {
      raw = raw;
      parsed = or_throw-ok (parse (c ∷ s)) invalid_json parsed;
      scopes = of_scopes;
      users = of_users;
    })

-- The scopes have valid names and owners, and the trusted users have names.
abbrev pub IsValid : ProxyConfig → Type 0
IsValid config =
    ((scope : Text) (s : GitHubScope) → get config.scopes scope ≡ some s → IsScope scope s)
    × AreNames config.trusted_github_users

no_config-IsValid : (config : ProxyConfig) → ok no_config ≡ ok config → IsValid config
no_config-IsValid config h =
    let same : no_config ≡ config = cc in subst IsValid same ((λ k s e. unfold get in cc), tt)

-- Whatever text is configured, with whatever parser: a configuration that is accepted has only
-- scopes of the form `[a-z0-9][a-z0-9-]*`, each with an owner that is not empty, and no trusted user
-- without a name.
pub parse_config-IsValid :
    (parse : Text → Option Json) (value : Option Text) (config : ProxyConfig)
    → parse_config parse value ≡ ok config
    → IsValid config
parse_config-IsValid parse none config h = no_config-IsValid config (unfold parse_config in h)
parse_config-IsValid parse (some []) config h = no_config-IsValid config (unfold parse_config in h)
parse_config-IsValid parse (some (c ∷ s)) config h =
    let parts = parse_config-Parsed parse c s config h in
    (
      parse_scopes-All _ [] config.scopes (λ k s e. unfold get in cc) parts.scopes,
      trusted_users-AreNames _ config.trusted_github_users parts.users,
    )

-- If the text is an object whose `scopes` is an object and the configuration is accepted, then
-- exactly the scopes of that object are configured, and the entry of each has type "github" and
-- gives its owner: the text of `owner`, or the name of the scope where `owner` is missing or `null`.
pub parse_config-scopes :
    (parse : Text → Option Json) (c : ℕ) (s : Text) (config : ProxyConfig)
    (members listed : Members)
    → parse (c ∷ s) ≡ some (obj members)
    → member_of (codes "scopes") members ≡ some (obj listed)
    → IsMap (entries listed)
    → parse_config parse (some (c ∷ s)) ≡ ok config
    → (scope : Text)
    → ((get (entries listed) scope ≡ none) × (get config.scopes scope ≡ none))
      ⊎ ((entry : Json) × (parsed : GitHubScope) × (get (entries listed) scope ≡ some entry)
          × (get config.scopes scope ≡ some parsed)
          × (field (some entry) (codes "type") ≡ some (str (codes "github")))
          × OwnerOf (field (some entry) (codes "owner")) scope parsed.owner)
unfolding field object_entries get
parse_config-scopes parse c s config members listed at_text at_scopes distinct h scope =
    let parts = parse_config-Parsed parse c s config h in
    let raw : parts.raw ≡ obj members = cc (parts.parsed, at_text) in
    let read : parse_scopes (entries listed) [] ≡ ok config.scopes =
      subst (λ o. parse_scopes (object_entries o) [] ≡ ok config.scopes) at_scopes
        (subst
          (λ r.
            parse_scopes (object_entries (field (some r) (codes "scopes"))) [] ≡ ok config.scopes)
          raw parts.scopes) in
    configured_cases (get (entries listed) scope) refl
      (parse_scopes-get (entries listed) [] config.scopes scope distinct read)
  where
    configured_cases :
        (o : Option Json)
        → get (entries listed) scope ≡ o
        → Configured o scope none (get config.scopes scope)
        → ((get (entries listed) scope ≡ none) × (get config.scopes scope ≡ none))
          ⊎ ((entry : Json) × (parsed : GitHubScope) × (get (entries listed) scope ≡ some entry)
              × (get config.scopes scope ≡ some parsed)
              × (field (some entry) (codes "type") ≡ some (str (codes "github")))
              × OwnerOf (field (some entry) (codes "owner")) scope parsed.owner)
    configured_cases none e absent = inl (e, absent)
    configured_cases (some entry) e (parsed, found, (typed, owned)) =
        inr (entry, parsed, e, found, typed, owned)
