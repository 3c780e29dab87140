-- ===== src/Tests/RequestRuns.antt =====
-- mcp/toolbridge_mcp/utils/requests.py against a server that answers every request alike.
use Prim.Native.String.{◌++◌ as ◌<>◌}
use toolbridge_api.Prelude.{
  ℕ, ◌+◌, String, ◌≡◌, ◌≢◌, refl, true, false, none, some, [], ◌∷◌, eq_iff,
}
use mathlib.Core.Option.{some-injective}
use toolbridge_api.Tests.Fixtures.{sample_note}
use toolbridge_api.Errors.{Exc, ok, err}
use toolbridge_api.Dict.{lookup, insert}
use toolbridge_api.Requests.Transport.{handle_async_request, tenant_for}
use toolbridge_api.Requests.Types.{
  AccessToken, Settings, Method, Request, Response, Http, Jose, World, plain_send,
}
use toolbridge_api.Requests.Exchange.{exchange_for_backend_jwt}
use toolbridge_api.Requests.Tenant.{resolve_tenant, response_tenant}
use toolbridge_api.Requests.Calls.{
  ensure_tenant_resolved, resolve_with, resolve_for, refresh_jwt, new_tenant,
  get_backend_auth_header, call,
}
use toolbridge_api.Requests.Isolation.{caller, call-isolates}
use toolbridge_api.Requests.Caching.{OnlyAuthorizationError, authorization-errors}
use toolbridge_api.Requests.Carried.{resolved-carried}

abbrev pub user_token : AccessToken
user_token = record {
  sub = some "u1";
  email = none;
  tenant_id = none;
  scopes = "notes" ∷ [];
  token = "t1";
}

abbrev pub multi_tenant : Settings
multi_tenant = record {
  tenant_id = none;
  jwt_signing_key = some "key";
  go_api_base_url = "http://localhost";
  backend_api_audience = "api";
}

abbrev answer : Response
answer = record {
  status_code = 200;
  is_success = true;
  text = "{}";
  message = "";
  note = ok sample_note;
  notes = ok (record { items = sample_note ∷ []; next_cursor = none });
  json = ok (record {
    access_token = some "jwt1";
    requires_selection = false;
    organizations = 0;
    tenant_id = some "org1";
    session_id = some "s1";
    session_epoch = some 3;
  });
}

-- The server counts the requests.
abbrev pub counting_http : Http
counting_http = record { State = ℕ; send = λ request n. (ok answer, n + 1) }

abbrev pub plain_jose : Jose
plain_jose = record { encode = λ claims key. ok "signed"; decode_sub = λ token. ok (some "u1") }

abbrev empty_world : World ℕ
empty_world = record { tenant_cache = []; jwt_cache = []; net = 0 }

-- another user's entries
abbrev pub shared_world : World ℕ
shared_world = record {
  tenant_cache = ("u2", "org2") ∷ [];
  jwt_cache = ("u2", "jwt2") ∷ [];
  net = 0;
}

abbrev pub warm_world : World ℕ
warm_world = record { tenant_cache = ("u1", "org1") ∷ []; jwt_cache = ("u1", "jwt1") ∷ []; net = 2 }

-- two requests: the exchange and the tenant
resolves :
    ensure_tenant_resolved counting_http plain_jose multi_tenant 100 (ok user_token) empty_world
    ≡ (ok "org1", warm_world)
unfolding ensure_tenant_resolved resolve_with resolve_for refresh_jwt new_tenant
    exchange_for_backend_jwt resolve_tenant response_tenant lookup insert handle_async_request
    tenant_for
resolves = refl

pub other_user : caller (ok user_token) ≢ some "u2"
other_user = λ e. let b : false ≡ true = (eq_iff "u1" "u2").1 (some-injective "u1" "u2" e) in cc

call-isolates_example :
    let w' =
      (call counting_http plain_jose multi_tenant 100
        (ok user_token)
        Method.get
        "/v1/notes"
        []
        none
        none
        shared_world).1 in
    (lookup "u2" w'.tenant_cache ≡ lookup "u2" shared_world.tenant_cache)
    × (lookup "u2" w'.jwt_cache ≡ lookup "u2" shared_world.jwt_cache)
call-isolates_example =
    call-isolates counting_http plain_jose multi_tenant 100 "u2" (ok user_token) Method.get
      "/v1/notes" [] none none shared_world other_user

authorization-errors_example :
    OnlyAuthorizationError
      (ensure_tenant_resolved counting_http plain_jose multi_tenant 100
        (err (Exc.runtime_error "no token"))
        empty_world).0
    × OnlyAuthorizationError
        (get_backend_auth_header counting_http plain_jose multi_tenant 100
          (err (Exc.runtime_error "no token"))
          empty_world).0
authorization-errors_example =
    authorization-errors counting_http plain_jose multi_tenant 100
      (err (Exc.runtime_error "no token")) empty_world

resolved-carried_example :
    (backend_jwt : String) × (get_backend_auth_header counting_http plain_jose multi_tenant 100
        (ok user_token)
        warm_world
      ≡ (ok ("Bearer " <> backend_jwt), warm_world))
    × ((request : Request)
        → lookup "Authorization" request.headers ≡ some ("Bearer " <> backend_jwt)
        → plain_jose.decode_sub backend_jwt ≡ ok (some "u1")
        → handle_async_request counting_http plain_jose request warm_world
          ≡ plain_send counting_http
              (record request { headers = insert "X-TB-Tenant-ID" "org1" request.headers })
              warm_world)
resolved-carried_example =
    resolved-carried counting_http plain_jose multi_tenant 100 user_token "u1" empty_world
      warm_world "org1" refl resolves
