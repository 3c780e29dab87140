-- ===== src/Requests/Transport.antt =====
-- mcp/toolbridge_mcp/transports/tenant_direct.py, with the lookup in the cache of tenants and the
-- subject of a JWT that mcp/toolbridge_mcp/auth/token_exchange.py reads.
use toolbridge_api.Prelude.{String, Option, none, some}
use toolbridge_api.Prelude.Text.{strip_prefix}
use toolbridge_api.Errors.{ok}
use toolbridge_api.Dict.{lookup, insert}
use toolbridge_api.Requests.Types.{Request, Response, Http, Jose, World, truthy, Action, plain_send}

-- `extract_user_id_from_backend_jwt`: "unknown" when the token does not decode or has no subject
abbrev pub extract_user_id : Jose → String → String
extract_user_id jose backend_jwt = elim (jose.decode_sub backend_jwt) [
  | ok (some sub) ↦ sub
  | _ ↦ "unknown"
]

abbrev pub get_cached_tenant_id : {S : Type 0} → String → World S → Option String
get_cached_tenant_id user_id w = lookup user_id w.tenant_cache

abbrev pub get_cached_backend_jwt : {S : Type 0} → String → World S → Option String
get_cached_backend_jwt user_id w = lookup user_id w.jwt_cache

module _ (http : Http) (jose : Jose) where
  -- the tenant that the transport looks up for a request
  unfoldable pub tenant_for : Request → World http.State → Option String
  tenant_for request w = elim (lookup "Authorization" request.headers) [
    | none ↦ none
    | some auth_header ↦ elim (strip_prefix "Bearer " auth_header) [
      | none ↦ none
      | some backend_jwt ↦ truthy (get_cached_tenant_id (extract_user_id jose backend_jwt) w)
    ]
  ]

  -- `TenantDirectTransport.handle_async_request`
  unfoldable pub handle_async_request : Request → Action http.State Response
  handle_async_request request w = elim (tenant_for request w) [
    | none ↦ plain_send http request w
    | some tenant_id ↦
        plain_send http
          (record request { headers = insert "X-TB-Tenant-ID" tenant_id request.headers }) w
  ]
