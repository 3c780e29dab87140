-- ===== src/Requests/Calls.antt =====
-- mcp/toolbridge_mcp/utils/requests.py, with `create_session` of utils/session.py.
use Prim.Native.String.{◌++◌ as ◌<>◌}
use toolbridge_api.Prelude.{ℕ, String, Option, none, some, [], ◌∷◌, if◌then◌else◌}
use toolbridge_api.Prelude.Text.{str}
use toolbridge_api.Errors.{Exc, Result, ok, err, exc_text, ◌>>=◌}
use toolbridge_api.Dict.{Dict, lookup, insert}
use toolbridge_api.Notes.Types.{Json}
use toolbridge_api.Requests.Types.{
  AccessToken, Settings, Method, Request, Response, Body, Http, Jose, truthy, Action, ◌>>>=◌, lift,
  reraise, cache_tenant, cache_jwt,
}
use toolbridge_api.Requests.Transport.{handle_async_request}
use toolbridge_api.Requests.Exchange.{exchange_for_backend_jwt}
use toolbridge_api.Requests.Tenant.{resolve_tenant}

-- the two `except` clauses of `ensure_tenant_resolved`
abbrev pub tenant_error : Exc → Exc
tenant_error (Exc.tenant_resolution_error s) =
    Exc.authorization_error ("Failed to resolve tenant ID: " <> s)
tenant_error (Exc.multi_organization_error n) =
    Exc.authorization_error
      ("Failed to resolve tenant ID: " <> exc_text (Exc.multi_organization_error n))
tenant_error e = Exc.authorization_error ("Tenant resolution error: " <> exc_text e)

-- the two `except` clauses of `get_backend_auth_header`
abbrev pub exchange_error : Exc → Exc
exchange_error (Exc.token_exchange_error s) =
    Exc.authorization_error
      "Failed to exchange MCP token for backend JWT. Check token exchange configuration."
exchange_error e = Exc.authorization_error ("Token exchange error: " <> exc_text e)

-- both `except` clauses of `create_session`
abbrev pub session_failed : Exc → Exc
session_failed e = Exc.session_error ("Session creation failed: " <> exc_text e)

abbrev pub raise_for_status : Response → Result Response
raise_for_status r =
    if r.is_success then ok r else err (Exc.http_status_error r.status_code r.text r.message)

abbrev pub session_headers : Body → Result (Dict String)
session_headers body = elim body.session_id [
  | none ↦ err (Exc.key_error "'id'")
  | some id ↦ elim body.session_epoch [
    | none ↦ err (Exc.key_error "'epoch'")
    | some epoch ↦ ok (("X-Sync-Session", id) ∷ ("X-Sync-Epoch", str epoch) ∷ [])
  ]
]

abbrev pub if_match_header : Option ℕ → Dict String → Dict String
if_match_header none headers = headers
if_match_header (some version) headers = insert "If-Match" (str version) headers

-- the request of `create_session`
abbrev pub session_request : String → Request
session_request auth_header = record {
  method = Method.post;
  url = "/v1/sync/sessions";
  headers = ("Authorization", auth_header) ∷ [];
  params = [];
  json = none;
}

module _ (http : Http) (jose : Jose) where
  -- `ensure_session`, which calls `create_session`; the user of the JWT is only logged
  unfoldable pub ensure_session : String → Action http.State (Dict String)
  ensure_session auth_header w = reraise session_failed (
      (handle_async_request http jose (session_request auth_header) >>>= λ response.
      lift (raise_for_status response >>= λ r. r.json >>= session_headers))
        w)

-- `token` is what `get_access_token()` gives throughout a call
module _ (http : Http) (jose : Jose) (settings : Settings) (now : ℕ)
    (token : Result AccessToken) where
  -- after the cache misses: the configured tenant, or the one that the backend resolves
  unfoldable pub new_tenant : AccessToken → String → Action http.State String
  new_tenant t user_id w = elim (truthy settings.tenant_id) [
    | some tenant_id ↦ (ok tenant_id, cache_tenant user_id tenant_id w)
    | none ↦
        (resolve_tenant http t.token settings.go_api_base_url >>>= λ tenant_id w'.
        (ok tenant_id, cache_tenant user_id tenant_id w'))
          w
  ]

  -- the exchange, and the new JWT in its cache
  unfoldable pub refresh_jwt : AccessToken → String → Action http.State String
  refresh_jwt t user_id w =
      (exchange_for_backend_jwt http jose settings now t >>>= λ backend_jwt w'.
      (ok backend_jwt, cache_jwt user_id backend_jwt w'))
        w

  unfoldable pub resolve_for : AccessToken → String → Action http.State String
  resolve_for t user_id w = elim (truthy (lookup user_id w.tenant_cache)) [
    | some cached_tenant ↦ elim (truthy (lookup user_id w.jwt_cache)) [
      | some cached_jwt ↦ (ok cached_tenant, w)
      | none ↦ (refresh_jwt t user_id >>>= λ backend_jwt w'. (ok cached_tenant, w')) w
    ]
    | none ↦ (refresh_jwt t user_id >>>= λ backend_jwt. new_tenant t user_id) w
  ]

  unfoldable pub resolve_with : AccessToken → Action http.State String
  resolve_with t w = elim (truthy t.sub) [
    | none ↦ (err (Exc.authorization_error "MCP token missing 'sub' claim"), w)
    | some user_id ↦ resolve_for t user_id w
  ]

  unfoldable pub ensure_tenant_resolved : Action http.State String
  ensure_tenant_resolved w = reraise tenant_error ((lift token >>>= resolve_with) w)

  abbrev pub bearer : Action http.State String → Action http.State String
  bearer m w = (m >>>= λ backend_jwt w'. (ok ("Bearer " <> backend_jwt), w')) w

  unfoldable pub header_for : AccessToken → Action http.State String
  header_for t w = elim (truthy t.sub) [
    | none ↦ bearer (exchange_for_backend_jwt http jose settings now t) w
    | some user_id ↦ elim (lookup user_id w.jwt_cache) [
      | some cached_jwt ↦ (ok ("Bearer " <> cached_jwt), w)
      | none ↦ bearer (exchange_for_backend_jwt http jose settings now t) w
    ]
  ]

  unfoldable pub get_backend_auth_header : Action http.State String
  get_backend_auth_header w = reraise exchange_error ((lift token >>>= header_for) w)

  -- The five call functions, which differ in the method and in what they send.
  unfoldable pub call :
      Method → String → Dict Json → Option (Dict Json) → Option ℕ → Action http.State Response
  call method path params json if_match w =
      (ensure_tenant_resolved >>>= λ tenant_id. get_backend_auth_header >>>= λ auth_header.
      ensure_session http jose auth_header >>>= λ headers.
      handle_async_request http jose (record {
        method = method;
        url = path;
        headers = if_match_header if_match (("Authorization", auth_header) ∷ headers);
        params = params;
        json = json;
      })
      >>>= λ response. lift (raise_for_status response))
        w

  abbrev pub call_get : String → Dict Json → Action http.State Response
  call_get path params = call Method.get path params none none

  abbrev pub call_post : String → Dict Json → Action http.State Response
  call_post path json = call Method.post path [] (some json) none

  abbrev pub call_put : String → Dict Json → Option ℕ → Action http.State Response
  call_put path json if_match = call Method.put path [] (some json) if_match

  abbrev pub call_patch : String → Dict Json → Action http.State Response
  call_patch path json = call Method.patch path [] (some json) none

  abbrev pub call_delete : String → Action http.State Response
  call_delete path = call Method.delete path [] none none
