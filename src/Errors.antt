-- ===== src/Errors.antt =====
-- Exceptions as values: a function that may raise returns a `Result`.
use Prim.Native.String.{◌++◌ as ◌<>◌}
use toolbridge_api.Prelude.{ℕ, String, ◌≡◌, refl, ◌⊎◌, inl, inr}
use toolbridge_api.Prelude.Text.{str}

-- The exceptions that the modelled code raises or catches, with their messages.
pub data Exc : Type 0 where
  value_error : String → Exc
  key_error : String → Exc
  type_error : String → Exc
  -- `httpx.HTTPStatusError`: the status code, the body of the response, and httpx's message
  http_status_error : ℕ → String → String → Exc
  -- any other `httpx.HTTPError`
  http_error : String → Exc
  token_exchange_error : String → Exc
  tenant_resolution_error : String → Exc
  -- `MultiOrganizationError`, a subclass of `TenantResolutionError`
  multi_organization_error : ℕ → Exc
  authorization_error : String → Exc
  session_error : String → Exc
  -- any other exception
  runtime_error : String → Exc

pub data Result {ℓ} (A : Type ℓ) : Type ℓ where
  ok : A → Result A
  err : Exc → Result A

infixl 5 ◌>>=◌ ◌>>◌
abbrev pub ◌>>=◌ {ℓ κ} : {A : Type ℓ} {B : Type κ} → Result A → (A → Result B) → Result B
ok a >>= f = f a
err e >>= f = err e

abbrev pub ◌>>◌ {ℓ κ} : {A : Type ℓ} {B : Type κ} → Result A → Result B → Result B
m >> k = m >>= λ _. k

pub Result-cases {ℓ} :
    {A : Type ℓ} (r : Result A) → ((a : A) × (r ≡ ok a)) ⊎ ((e : Exc) × (r ≡ err e))
Result-cases (ok a) = inl (a, refl)
Result-cases (err e) = inr (e, refl)

-- `str(e)`
unfoldable pub exc_text : Exc → String
exc_text (Exc.value_error s) = s
exc_text (Exc.key_error s) = s
exc_text (Exc.type_error s) = s
exc_text (Exc.http_status_error code text s) = s
exc_text (Exc.http_error s) = s
exc_text (Exc.token_exchange_error s) = s
exc_text (Exc.tenant_resolution_error s) = s
exc_text (Exc.multi_organization_error n) =
    "User belongs to " <> (str n <> " organizations. Organization selection not yet implemented.")
exc_text (Exc.authorization_error s) = s
exc_text (Exc.session_error s) = s
exc_text (Exc.runtime_error s) = s
