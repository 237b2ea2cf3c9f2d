-- ===== src/Config/Examples.antt =====
-- The laws of src/config.ts at one configuration.
use jsrproxy.Common.{
  ◌≡◌, ◌⊎◌, refl, Bool, Option, none, some, [], ◌∷◌, Text, codes, Result, ok, text_eq, All, ◌==◌,
  err, invalid_owner, invalid_trusted_users, unknown_scope_type,
}
use jsrproxy.Common.Json.{
  Json, null, str, arr, obj, element, nil, member, end, Members, entries, member_of, num, other,
  field,
}
use jsrproxy.Common.Map.{get, IsMap}
use jsrproxy.Config.{GitHubScope, ProxyConfig, parse_config}
use jsrproxy.Config.Laws.{IsScope, parse_config-IsValid, parse_config-scopes}
use jsrproxy.Config.Scopes.{OwnerOf}

abbrev github : Text → Members
github owner = member (codes "type") (str (codes "github")) (member (codes "owner") (str owner) end)

abbrev listed : Members
listed =
    member (codes "acme") (obj (github (codes "AcmeCorp")))
      (member (codes "solo") (obj (member (codes "type") (str (codes "github")) end)) end)

abbrev members : Members
members =
    member (codes "scopes") (obj listed)
      (member (codes "trusted_github_users") (arr (element (str (codes "ann")) nil)) end)

abbrev parse : Text → Option Json
parse s = some (obj members)

abbrev config : ProxyConfig
config = record {
  scopes =
      (codes "acme", record { owner = codes "AcmeCorp" })
      ∷ (codes "solo", record { owner = codes "solo" })
      ∷ [];
  trusted_github_users = codes "ann" ∷ [];
}

accepted : parse_config parse (some (codes "{}")) ≡ ok config
unfolding parse_config jsrproxy.Config.parse_scopes jsrproxy.Config.object_entries
    jsrproxy.Common.Json.field jsrproxy.Common.text_beq entries jsrproxy.Config.parse_entry
    jsrproxy.Identity.is_scope jsrproxy.Common.Scanning.all jsrproxy.Common.Json.as_string
    jsrproxy.Config.trusted_users jsrproxy.Common.Json.as_array jsrproxy.Config.user_names
    jsrproxy.Common.Map.set
accepted = refl

parse_config-IsValid_example : IsScope (codes "solo") (record { owner = codes "solo" })
unfolding get jsrproxy.Common.text_beq
parse_config-IsValid_example =
    (parse_config-IsValid parse (some (codes "{}")) config accepted).0 (codes "solo")
      (record { owner = codes "solo" }) refl

listed-IsMap : IsMap (entries listed)
unfolding get jsrproxy.Common.text_beq entries
listed-IsMap = (refl, (refl, tt))

parse_config-scopes_example :
    ((get (entries listed) (codes "acme") ≡ none) × (get config.scopes (codes "acme") ≡ none))
    ⊎ ((entry : Json) × (parsed : GitHubScope) × (get (entries listed) (codes "acme") ≡ some entry)
        × (get config.scopes (codes "acme") ≡ some parsed)
        × (field (some entry) (codes "type") ≡ some (str (codes "github")))
        × OwnerOf (field (some entry) (codes "owner")) (codes "acme") parsed.owner)
unfolding member_of jsrproxy.Common.text_beq
parse_config-scopes_example =
    parse_config-scopes parse 123 (codes "}") config members listed refl refl listed-IsMap accepted
      (codes "acme")

-- A `trusted_github_users` that is `null`, or has an empty name, is refused.
null_refused :
    parse_config
      (λ s. some (obj (member (codes "trusted_github_users") null end)))
      (some (codes "{}"))
    ≡ err invalid_trusted_users
unfolding parse_config jsrproxy.Config.parse_scopes jsrproxy.Config.object_entries
    jsrproxy.Common.Json.field jsrproxy.Common.text_beq jsrproxy.Config.trusted_users
    jsrproxy.Common.Json.as_array
null_refused = refl
