-- ===== src/Config/Scopes.antt =====
-- What the loop over the scopes of src/config.ts reads from an entry.
use jsrproxy.Common.{
  ◌≡◌, refl, sym, ap, subst, ◌∙◌, inl, inr, true, not, Bool-cases, Option, none, some, List, [],
  ◌∷◌, Text, codes, ok, >>=-eq-ok, ◌==◌, text_eq, or_throw, require, require-ok, Error,
  property_of_null, invalid_scope, unknown_scope_type, invalid_owner, text_beq-eq,
}
use jsrproxy.Common.Json.{Json, null, str, num, bool, arr, obj, field, as_string}
use jsrproxy.Common.Map.{Map, get, set, get-set, IsMap}
use jsrproxy.Identity.{is_scope}
use jsrproxy.Config.{GitHubScope, is_null, is_text, owner_or, parse_entry, parse_scopes}

pub or_throw-ok {ℓ} :
    {A : Type ℓ} (o : Option A) (e : Error) {a : A} → or_throw o e ≡ ok a → o ≡ some a
or_throw-ok none e h = cc
or_throw-ok (some b) e h = cc

-- The owner that an entry gives to a scope: the text that it has, or the name of the scope where it
-- has none or `null`. No other value gives an owner.
abbrev pub OwnerOf : Option Json → Text → Text → Type 0
OwnerOf none scope owner = owner ≡ scope
OwnerOf (some null) scope owner = owner ≡ scope
OwnerOf (some (str s)) scope owner = owner ≡ s
OwnerOf (some _) scope owner = ⊥

owner_or-OwnerOf :
    (value : Option Json) (scope owner : Text)
    → owner_or value scope ≡ some owner
    → OwnerOf value scope owner
unfolding owner_or as_string
owner_or-OwnerOf none scope owner h = cc
owner_or-OwnerOf (some null) scope owner h = cc
owner_or-OwnerOf (some (str s)) scope owner h = cc
owner_or-OwnerOf (some (num n)) scope owner h = cc
owner_or-OwnerOf (some (arr vs)) scope owner h = cc
owner_or-OwnerOf (some (obj ms)) scope owner h = cc
owner_or-OwnerOf (some (bool b)) scope owner h = cc

is_text-eq :
    (value : Option Json) (expected : Text)
    → is_text value expected ≡ true
    → value ≡ some (str expected)
unfolding as_string
is_text-eq none expected h = cc
is_text-eq (some null) expected h = cc
is_text-eq (some (str s)) expected h = ap (λ x. some (str x)) (text_beq-eq s expected h)
is_text-eq (some (num n)) expected h = cc
is_text-eq (some (arr vs)) expected h = cc
is_text-eq (some (obj ms)) expected h = cc
is_text-eq (some (bool b)) expected h = cc

-- What an entry of the JSON says of its scope: it has type "github" and gives the owner.
abbrev pub Describes : Json → Text → GitHubScope → Type 0
Describes entry scope parsed =
    (field (some entry) (codes "type") ≡ some (str (codes "github")))
    × OwnerOf (field (some entry) (codes "owner")) scope parsed.owner

parse_entry-Describes :
    (scope : Text) (entry : Json) (parsed : GitHubScope)
    → parse_entry scope entry ≡ ok parsed
    → Describes entry scope parsed
unfolding parse_entry
parse_entry-Describes scope entry parsed h =
    let (_, _, h1) = >>=-eq-ok (require (is_scope scope) (invalid_scope scope)) _ h in
    let (_, _, h2) = >>=-eq-ok (require (not (is_null entry)) property_of_null) _ h1 in
    let (_, typed, h3) =
      >>=-eq-ok
        (require (is_text (field (some entry) (codes "type")) (codes "github"))
          (unknown_scope_type scope))
        _ h2 in
    let (owner, owned, h4) =
      >>=-eq-ok
        (or_throw (owner_or (field (some entry) (codes "owner")) scope) (invalid_owner scope)) _
        h3 in
    let (_, _, h5) = >>=-eq-ok (require (not (owner == [])) (invalid_owner scope)) _ h4 in
    let same : owner ≡ parsed.owner = cc in
    (
      is_text-eq (field (some entry) (codes "type")) (codes "github") (require-ok _ _ typed),
      subst (OwnerOf (field (some entry) (codes "owner")) scope) same (
          owner_or-OwnerOf (field (some entry) (codes "owner")) scope owner
            (or_throw-ok _ (invalid_owner scope) owned)),
    )

-- Which scopes the entries of the JSON configure: one with an entry is as its entry says, one
-- without is as it was.
abbrev pub Configured : Option Json → Text → Option GitHubScope → Option GitHubScope → Type 0
Configured none scope before found = found ≡ before
Configured (some entry) scope before found =
    (parsed : GitHubScope) × (found ≡ some parsed) × Describes entry scope parsed

pub parse_scopes-get :
    (es : List (Text × Json)) (before after : Map Text GitHubScope) (scope : Text)
    → IsMap es
    → parse_scopes es before ≡ ok after
    → Configured (get es scope) scope (get before scope) (get after scope)
unfolding parse_scopes get
parse_scopes-get [] before after scope distinct h =
    let same : before ≡ after = cc in ap (λ m. get m scope) (sym same)
parse_scopes-get ((k, entry) ∷ rest) before after scope distinct h =
    let (parsed, e, later) = >>=-eq-ok (parse_entry k entry) _ h in
    let behind = parse_scopes-get rest (set before k parsed) after scope distinct.1 later in
    elim (Bool-cases (k == scope)) [
      | inl same ↦
          let name : k ≡ scope = text_beq-eq k scope same in
          let alone : get rest scope ≡ none = ap (get rest) (sym name) ∙ distinct.0 in
          let last : Configured none scope (get (set before k parsed) scope) (get after scope) =
            subst (λ o. Configured o scope (get (set before k parsed) scope) (get after scope))
              alone behind in
          let at_scope : get after scope ≡ some parsed =
            last ∙ rw (get-set before k scope parsed, same) refl in
          rw same (
            parsed,
            at_scope,
            subst (λ s. Describes entry s parsed) name (parse_entry-Describes k entry parsed e),
          )
      | inr different ↦
          let kept : get (set before k parsed) scope ≡ get before scope =
            rw (get-set before k scope parsed, different) refl in
          rw different
            (subst (λ o. Configured (get rest scope) scope o (get after scope)) kept behind)
    ]
