-- ===== src/Requests/Caching.antt =====
-- What the caches are good for, and what the two functions that read them raise.
use Prim.Native.String.{◌++◌ as ◌<>◌}
use toolbridge_api.Prelude.{ℕ, String, ◌≡◌, Option, none, some, arith}
use toolbridge_api.Errors.{Exc, Result, ok, err}
use toolbridge_api.Dict.{lookup}
use toolbridge_api.Requests.Types.{AccessToken, Settings, Http, Jose, World, truthy, reraise}
use toolbridge_api.Requests.Calls.{
  tenant_error, exchange_error, ensure_tenant_resolved, header_for, get_backend_auth_header,
}

-- a value, or an `AuthorizationError`
abbrev pub OnlyAuthorizationError : Result String → Type 0
OnlyAuthorizationError (ok a) = Unit
OnlyAuthorizationError (err (Exc.authorization_error s)) = Unit
OnlyAuthorizationError (err _) = ⊥

reraise-Only :
    {S : Type 0} (f : Exc → Exc) (r : Result String × World S)
    → ((e : Exc) → OnlyAuthorizationError (err (f e)))
    → OnlyAuthorizationError (reraise f r).0
reraise-Only f (ok a, w) h = tt
reraise-Only f (err e, w) h = h e

tenant_error-Only : (e : Exc) → OnlyAuthorizationError (err (tenant_error e))
tenant_error-Only (Exc.tenant_resolution_error s) = tt
tenant_error-Only (Exc.multi_organization_error n) = tt
tenant_error-Only _ = tt

exchange_error-Only : (e : Exc) → OnlyAuthorizationError (err (exchange_error e))
exchange_error-Only (Exc.token_exchange_error s) = tt
exchange_error-Only _ = tt

pub truthy-some : (o : Option String) (s : String) → truthy o ≡ some s → o ≡ some s
truthy-some none s e = e
truthy-some (some x) s e = ground (arith, e)

module _ (http : Http) (jose : Jose) (settings : Settings) (now : ℕ) where
  -- Whatever the token, the network and the signing do, `ensure_tenant_resolved` and
  -- `get_backend_auth_header` raise nothing but `AuthorizationError`.
  pub authorization-errors :
      (token : Result AccessToken) (w : World http.State)
      → OnlyAuthorizationError (ensure_tenant_resolved http jose settings now token w).0
        × OnlyAuthorizationError (get_backend_auth_header http jose settings now token w).0
  unfolding ensure_tenant_resolved get_backend_auth_header
  authorization-errors token w = (
    reraise-Only tenant_error _ tenant_error-Only,
    reraise-Only exchange_error _ exchange_error-Only,
  )

  module _ (t : AccessToken) (user_id : String) (named : truthy t.sub ≡ some user_id) where
    pub header-hit :
        (w : World http.State) (backend_jwt : String)
        → lookup user_id w.jwt_cache ≡ some backend_jwt
        → get_backend_auth_header http jose settings now (ok t) w
          ≡ (ok ("Bearer " <> backend_jwt), w)
    unfolding get_backend_auth_header header_for
    header-hit w backend_jwt e = rw (get_backend_auth_header, header_for, named, e)
