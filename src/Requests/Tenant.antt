-- ===== src/Requests/Tenant.antt =====
-- mcp/toolbridge_mcp/auth/tenant_resolver.py
use Prim.Native.String.{◌++◌ as ◌<>◌}
use toolbridge_api.Prelude.{String, none, some, [], ◌∷◌, nat_eq, if◌then◌else◌}
use toolbridge_api.Prelude.Text.{str}
use toolbridge_api.Errors.{Exc, Result, ok, err, ◌>>=◌}
use toolbridge_api.Requests.Types.{
  Method, Request, Response, Body, Http, truthy, Action, plain_send,
}

abbrev pub tenant_request : String → String → Request
tenant_request id_token api_base_url = record {
  method = Method.get;
  url = api_base_url <> "/v1/auth/tenant";
  headers = ("Authorization", "Bearer " <> id_token) ∷ ("Accept", "application/json") ∷ [];
  params = [];
  json = none;
}

abbrev pub resolution_error : String → Result String
resolution_error s = err (Exc.tenant_resolution_error s)

-- the tenant that the body names
abbrev pub body_tenant : Body → Result String
body_tenant body =
    if body.requires_selection
    then err (Exc.multi_organization_error body.organizations)
    else elim (truthy body.tenant_id) [
      | none ↦ resolution_error "Response missing tenant_id field"
      | some tenant_id ↦ ok tenant_id
    ]

-- The checks on the status, and the body.
unfoldable pub response_tenant : Response → Result String
response_tenant response =
    if nat_eq response.status_code 401
    then resolution_error "Authentication failed. Token may be expired or invalid."
    else if nat_eq response.status_code 403
    then resolution_error "User not authorized to access any organizations."
    else if nat_eq response.status_code 200
    then response.json >>= body_tenant
    else resolution_error (
        "Tenant resolution failed with status "
        <> (str response.status_code <> (": " <> response.text)))

-- `except httpx.HTTPError`
abbrev pub connection_failed : Exc → Exc
connection_failed (Exc.http_error s) =
    Exc.tenant_resolution_error ("Failed to connect to tenant resolution endpoint: " <> s)
connection_failed (Exc.http_status_error code text s) =
    Exc.tenant_resolution_error ("Failed to connect to tenant resolution endpoint: " <> s)
connection_failed e = e

abbrev pub resolved_tenant : Result Response → Result String
resolved_tenant (ok response) = response_tenant response
resolved_tenant (err e) = err (connection_failed e)

module _ (http : Http) where
  unfoldable pub resolve_tenant : String → String → Action http.State String
  resolve_tenant id_token api_base_url w =
      let (response, w') = plain_send http (tenant_request id_token api_base_url) w in
      (resolved_tenant response, w')
