-- ===== src/Auth/Decisions.antt =====
-- Which responses of GitHub grant, refuse or decide nothing, by src/auth.ts.
use jsrproxy.Common.{
  ℕ, ◌+◌, ◌*◌, ◌≤◌, ◌<◌, ◌≡◌, ◌↔◌, ◌⊎◌, true, false, none, some, arith, codes, text_eq,
}
use jsrproxy.Common.Http.{Response}
use jsrproxy.Auth.{
  GitHubDecision, decision, classify_github_response, retry_after, numeric_header, until_reset,
}

-- A response grants access exactly if its status is from 200 to 299, and refuses it exactly if the
-- status is 401 or 404; it decides nothing with any other. A decision holds for a minute from `now`.
pub classify_github_response_iff :
    (response : Response) (now : ℕ) (d : GitHubDecision)
    → (classify_github_response response now ≡ decision d) ↔ (
        (d.expires_at ≡ now + 60_000)
        × (((d.granted ≡ true) × (200 ≤ response.status) × (response.status ≤ 299))
            ⊎ ((d.granted ≡ false) × ((response.status ≡ 401) ⊎ (response.status ≡ 404)))))
unfolding classify_github_response
classify_github_response_iff response now d = (λ h. ground arith, λ h. ground arith)

-- Whatever headers GitHub sends, a wait that is derived from the reset time of the rate limit ends
-- after that time, and is not zero.
pub retry_after-reset :
    (response : Response) (now reset ms : ℕ)
    → numeric_header response.headers (codes "retry-after") ≡ none
    → numeric_header response.headers (codes "x-ratelimit-reset") ≡ some reset
    → retry_after response now ≡ some ms
    → (0 < ms) × (reset * 1_000 < now + ms)
unfolding retry_after until_reset
retry_after-reset response now reset ms no_retry at_reset h = ground arith
