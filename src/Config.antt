-- ===== src/Config.antt =====
-- src/config.ts: the scopes and the trusted users that a deployment configures.
pub mod Scopes
pub mod Laws
mod Examples
use jsrproxy.Common.{
  ℕ, ◌+◌, Bool, true, false, not, Option, none, some, List, [], ◌∷◌, ◌++◌, Text, codes, map, Result,
  ok, err, invalid_json, invalid_scope, unknown_scope_type, invalid_owner, invalid_trusted_users,
  property_of_null, or_throw, require, ◌>>=◌, ◌>>◌, ◌==◌, text_eq,
}
use jsrproxy.Common.Decimal.{decimal}
use jsrproxy.Common.Json.{Json, null, str, arr, obj, elements, entries, field, as_string, as_array}
use jsrproxy.Common.Map.{Map, set}
use jsrproxy.Identity.{is_scope}

-- `type` is always "github".
pub record GitHubScope : Type 0 where
  pub owner : Text

pub record ProxyConfig : Type 0 where
  pub scopes : Map Text GitHubScope
  pub trusted_github_users : List Text

abbrev pub is_null : Json → Bool
is_null null = true
is_null _ = false

-- `Object.entries` of an array or a text, from index `i`.
unfoldable pub index_entries : ℕ → List Json → List (Text × Json)
index_entries i [] = []
index_entries i (v ∷ vs) = (decimal i, v) ∷ index_entries (i + 1) vs

-- `Object.entries(value ?? {})`
unfoldable pub object_entries : Option Json → List (Text × Json)
unfolding index_entries
object_entries (some (obj ms)) = entries ms
object_entries (some (arr vs)) = index_entries 0 (elements vs)
object_entries (some (str s)) = index_entries 0 (map (λ c. str (c ∷ [])) s)
object_entries _ = []

-- `value === expected`, for a text.
abbrev pub is_text : Option Json → Text → Bool
is_text value expected = elim (as_string value) [ none ↦ false | some s ↦ s == expected ]

-- `value ?? scope`, if that is a text.
unfoldable pub owner_or : Option Json → Text → Option Text
owner_or none scope = some scope
owner_or (some null) scope = some scope
owner_or (some value) scope = as_string (some value)

-- One round of the loop over the scopes: the pattern of a scope is that of src/identity.ts.
unfoldable pub parse_entry : Text → Json → Result GitHubScope
unfolding owner_or
parse_entry scope entry = do
  require (is_scope scope) (invalid_scope scope)
  require (not (is_null entry)) property_of_null
  require (is_text (field (some entry) (codes "type")) (codes "github")) (unknown_scope_type scope)
  owner ← or_throw (owner_or (field (some entry) (codes "owner")) scope) (invalid_owner scope)
  require (not (owner == [])) (invalid_owner scope)
  ok (record { owner = owner })

unfoldable pub parse_scopes :
    List (Text × Json) → Map Text GitHubScope → Result (Map Text GitHubScope)
parse_scopes [] scopes = ok scopes
parse_scopes ((scope, entry) ∷ rest) scopes = do
  parsed ← parse_entry scope entry
  parse_scopes rest (set scopes scope parsed)

-- The users, if each is a text that is not empty.
unfoldable pub user_names : List Json → Result (List Text)
user_names [] = ok []
user_names (user ∷ users) = do
  name ← or_throw (as_string (some user)) invalid_trusted_users
  require (not (name == [])) invalid_trusted_users
  names ← user_names users
  ok (name ∷ names)

unfoldable pub trusted_users : Option Json → Result (List Text)
trusted_users none = ok []
trusted_users (some value) = do
  users ← or_throw (as_array (some value)) invalid_trusted_users
  user_names users

abbrev pub no_config : ProxyConfig
no_config = record { scopes = []; trusted_github_users = [] }

-- `JSON.parse` is `parse`, with `none` where it throws.
unfoldable pub parse_config : (Text → Option Json) → Option Text → Result ProxyConfig
parse_config parse none = ok no_config
parse_config parse (some []) = ok no_config
parse_config parse (some (c ∷ s)) = do
  raw ← or_throw (parse (c ∷ s)) invalid_json
  require (not (is_null raw)) property_of_null
  scopes ← parse_scopes (object_entries (field (some raw) (codes "scopes"))) []
  users ← trusted_users (field (some raw) (codes "trusted_github_users"))
  ok (record { scopes = scopes; trusted_github_users = users })
