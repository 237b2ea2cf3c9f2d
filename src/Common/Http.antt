-- ===== src/Common/Http.antt =====
-- The parts of a Fetch API request and response that the code reads and writes.
use Prim.Native.Nat.{ℕ}
use mathlib.Core.Bool.{Bool, ◌&&◌}
use mathlib.Core.List.{List, ◌∷◌}
use mathlib.Core.Option.{Option, none, some}
use jsrproxy.Common.Json.{Json}
use jsrproxy.Common.Map.{Map}
use jsrproxy.Common.Tests.{leb}
use jsrproxy.Common.Texts.{Text, text_eq, codes}

-- A parsed `URL`.
pub record Url : Type 0 where
  pub protocol : Text
  pub hostname : Text
  pub port : Text
  pub pathname : Text
  pub search : Text

-- Header names are in lower case, as the code writes them and as `Headers` compares them. The body
-- is given as its two readers return it: `json()`, with `none` where it rejects, and
-- `arrayBuffer()`.
pub record Request : Type 0 where
  pub method : Text
  pub url : Url
  pub headers : Map Text Text
  pub json : Option Json
  pub bytes : List ℕ

-- A body, by what it was made from; that of a foreign response is `json` if it parses.
pub data Content : Type 0 where
  empty : Content
  text : Text → Content
  json : Json → Content
  octets : List ℕ → Content

pub record Response : Type 0 where
  pub status : ℕ
  pub headers : Map Text Text
  pub content : Content

-- `response.ok`
unfoldable pub is_ok : Response → Bool
is_ok response = leb 200 response.status && leb response.status 299

-- `response.json().catch(() => undefined)`
unfoldable pub json_of : Response → Option Json
json_of response = elim response.content [ json v ↦ some v | _ ↦ none ]

-- `new Response(message, { status, headers })`
abbrev pub text_response : ℕ → Map Text Text → Text → Response
text_response status headers message = record {
  status = status;
  headers = (codes "content-type", codes "text/plain;charset=UTF-8") ∷ headers;
  content = text message;
}

-- `Response.json(value, { status, headers })`
abbrev pub json_response : ℕ → Map Text Text → Json → Response
json_response status headers value = record {
  status = status;
  headers = (codes "content-type", codes "application/json") ∷ headers;
  content = json value;
}

-- `new Response(null, { status, headers })`
abbrev pub empty_response : ℕ → Map Text Text → Response
empty_response status headers = record { status = status; headers = headers; content = empty }
