-- ===== src/Auth.antt =====
-- src/auth.ts: the credentials of a caller, and what GitHub's response to them says.
pub mod Decisions
pub mod Credentials
mod Examples
use jsrproxy.Common.{
  ℕ, ◌+◌, ◌-◌, ◌*◌, ◌/◌, Bool, true, false, not, ◌&&◌, ◌||◌, Option, none, some, List, [], ◌∷◌,
  Text, codes, map, leb, if◌then◌else◌, ◌==◌, nat_eq, text_eq, max,
}
use jsrproxy.Common.Decimal.{is_digit, number}
use jsrproxy.Common.Http.{Response, is_ok}
use jsrproxy.Common.Map.{Map, get}
use jsrproxy.Common.Scanning.{all, strip_prefix}

-- \s
unfoldable pub is_space : ℕ → Bool
is_space c =
    (leb 9 c && leb c 13)
    || (c == 32)
    || (c == 160)
    || (c == 0x1680)
    || (leb 0x2000 c && leb c 0x200a)
    || (c == 0x2028)
    || (c == 0x2029)
    || (c == 0x202f)
    || (c == 0x205f)
    || (c == 0x3000)
    || (c == 0xfeff)

-- `headers.get(name) ?? ""`
abbrev pub or_empty : Option Text → Text
or_empty none = []
or_empty (some value) = value

-- /^Bearer ([^\s]+)$/ on the authorization header.
unfoldable pub bearer : Text → Option Text
bearer header = elim (strip_prefix (codes "Bearer ") header) [
  | none ↦ none
  | some token ↦ if not (token == []) && all (λ c. not (is_space c)) token then some token else none
]

unfoldable pub github_pat : Map Text Text → Option Text
github_pat headers = bearer (or_empty (get headers (codes "authorization")))

pub record GitHubDecision : Type 0 where
  pub granted : Bool
  pub expires_at : ℕ

-- `retryAfterSeconds` in milliseconds, since a reset time gives fractions of a second.
pub data GitHubResult : Type 0 where
  decision : GitHubDecision → GitHubResult
  unavailable : Option ℕ → GitHubResult

-- /^\d+$/
unfoldable pub is_numeric : Text → Bool
is_numeric s = not (s == []) && all is_digit s

-- `value && /^\d+$/.test(value)`, and then `Number(value)`, exact up to `max_safe_integer`.
unfoldable pub numeric_header : Map Text Text → Text → Option ℕ
unfolding is_numeric
numeric_header headers name = elim (get headers name) [
  | none ↦ none
  | some value ↦ if is_numeric value then some (number value) else none
]

-- `Math.max(1, reset * 1000 - now + 1000)`, where `-` on ℕ stops at 0 and so below 1.
unfoldable pub until_reset : ℕ → ℕ → ℕ
until_reset reset now = max 1 (reset * 1_000 + 1_000 - now)

unfoldable pub retry_after : Response → ℕ → Option ℕ
unfolding numeric_header until_reset
retry_after response now = elim (numeric_header response.headers (codes "retry-after")) [
  | some seconds ↦ some (seconds * 1_000)
  | none ↦ elim (numeric_header response.headers (codes "x-ratelimit-reset")) [
    | some reset ↦ some (until_reset reset now)
    | none ↦ none
  ]
]

unfoldable pub classify_github_response : Response → ℕ → GitHubResult
unfolding is_ok
classify_github_response response now =
    if (response.status == 401) || (response.status == 404)
    then decision (record { granted = false; expires_at = now + 60_000 })
    else if not (is_ok response) || (response.status == 403) || (response.status == 429)
    then unavailable (retry_after response now)
    else decision (record { granted = true; expires_at = now + 60_000 })

-- `replaceAll("+", "-").replaceAll("/", "_")`
unfoldable pub url_unit : ℕ → ℕ
url_unit c = if c == b'+' then b'-' else if c == b'/' then b'_' else c

-- `replace(/=+$/, "")`
unfoldable pub trim_padding : Text → Text
trim_padding [] = []
trim_padding (c ∷ s) =
    let rest = trim_padding s in if (c == b'=') && (rest == []) then [] else c ∷ rest

-- `base64Url`, with the `btoa` of the platform.
unfoldable pub base64_url : (List ℕ → Text) → List ℕ → Text
unfolding url_unit trim_padding
base64_url btoa bytes = trim_padding (map url_unit (btoa bytes))

-- `hmac` is the HMAC with SHA-256 of the platform over the UTF-8 of its arguments.
unfoldable pub fingerprint_pat :
    (List ℕ → Text) → (Text → Text → List ℕ) → (secret pat : Text) → Text
unfolding base64_url
fingerprint_pat btoa hmac secret pat = base64_url btoa (hmac secret pat)
