-- ===== src/Requests/Exchange.antt =====
-- mcp/toolbridge_mcp/auth/token_exchange.py
use Prim.Native.String.{◌++◌ as ◌<>◌}
use toolbridge_api.Prelude.{ℕ, ◌+◌, String, Option, none, some, [], ◌∷◌, nat_eq, if◌then◌else◌}
use toolbridge_api.Prelude.Text.{join_with}
use toolbridge_api.Errors.{Exc, Result, ok, err, exc_text}
use toolbridge_api.Notes.Types.{Json}
use toolbridge_api.Requests.Transport.{handle_async_request}
use toolbridge_api.Requests.Types.{
  AccessToken, Settings, Method, Request, Response, Body, Http, Claims, Jose, truthy, Action,
}

-- `x or y` on optional texts
abbrev pub text_or_else : Option String → Option String → Option String
text_or_else x y = elim (truthy x) [ none ↦ y | some s ↦ some s ]

abbrev pub exchange_request : Settings → AccessToken → Request
exchange_request settings token = record {
  method = Method.post;
  url = settings.go_api_base_url <> "/auth/token-exchange";
  headers = ("Authorization", "Bearer " <> token.token) ∷ ("Content-Type", "application/json") ∷ [];
  params = [];
  json = some (
      ("audience", Json.text settings.backend_api_audience)
      ∷ ("grant_type", Json.text "urn:ietf:params:oauth:grant-type:token-exchange")
      ∷ []);
}

-- The token of a 200 answer; everything else goes on to the next option.
abbrev pub exchanged_body : Result Body → Option String
exchanged_body (ok body) = body.access_token
exchanged_body (err e) = none

abbrev pub exchanged : Result Response → Option String
exchanged (ok response) =
    if nat_eq response.status_code 200 then exchanged_body response.json else none
exchanged (err e) = none

abbrev pub backend_claims : Settings → ℕ → AccessToken → Claims
backend_claims settings now token = record {
  sub = token.sub;
  iss = "toolbridge-mcp";
  aud = settings.backend_api_audience;
  exp = now + 3600;
  iat = now;
  nbf = now;
  email = token.email;
  tenant_id = text_or_else token.tenant_id settings.tenant_id;
  scope = join_with " " token.scopes;
  token_type = "backend";
  exchanged_from = "mcp_oauth";
}

abbrev pub signed : Result String → Result String
signed (ok backend_jwt) = ok backend_jwt
signed (err e) = err (Exc.token_exchange_error ("Failed to sign backend JWT: " <> exc_text e))

-- `issue_backend_jwt`; the clock stands still within a call
abbrev pub issue_backend_jwt : Jose → Settings → ℕ → AccessToken → Result String
issue_backend_jwt jose settings now token = elim (truthy settings.jwt_signing_key) [
  | none ↦ err (Exc.token_exchange_error "JWT_SIGNING_KEY not configured")
  | some key ↦ signed (jose.encode (backend_claims settings now token) key)
]

abbrev pub text_or_none : Option String → String
text_or_none none = "None"
text_or_none (some s) = s

abbrev pub no_exchange : Settings → AccessToken → Exc
no_exchange settings token = Exc.token_exchange_error (
    "Token exchange failed. Either:\n1. Implement backend /auth/token-exchange endpoint (recommended), OR\n"
    <> ("2. Set TOOLBRIDGE_JWT_SIGNING_KEY environment variable to enable MCP-issued JWTs\n"
        <> ("Backend endpoint: "
            <> (settings.go_api_base_url
                <> ("/auth/token-exchange\nUser: " <> text_or_none token.sub)))))

-- the second and the third option
abbrev pub issue_or_fail : Jose → Settings → ℕ → AccessToken → Result String
issue_or_fail jose settings now token = elim (truthy settings.jwt_signing_key) [
  | none ↦ err (no_exchange settings token)
  | some key ↦ issue_backend_jwt jose settings now token
]

module _ (http : Http) (jose : Jose) (settings : Settings) (now : ℕ) where
  unfoldable pub exchange_for_backend_jwt : AccessToken → Action http.State String
  exchange_for_backend_jwt token w =
      let (response, w') = handle_async_request http jose (exchange_request settings token) w in
      elim (exchanged response) [
        | some backend_jwt ↦ (ok backend_jwt, w')
        | none ↦ (issue_or_fail jose settings now token, w')
      ]
