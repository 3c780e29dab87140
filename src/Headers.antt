-- ===== src/Headers.antt =====
-- mcp/toolbridge_mcp/utils/headers.py: `TenantHeaderSigner`. `hmac` gives the hexadecimal HMAC-SHA256
-- of a message under a secret; `now` is the clock in milliseconds.
use Prim.Native.String.{◌++◌ as ◌<>◌}
use toolbridge_api.Prelude.{
  ℕ, ◌+◌, ◌-◌, ◌*◌, String, Bool, true, false, ◌&&◌, code, Option, none, some, [], ◌∷◌, ◌==◌, ltb,
  if◌then◌else◌,
}
use toolbridge_api.Prelude.Text.{str}
use toolbridge_api.Errors.{Exc, Result, ok, err}
use toolbridge_api.Dict.{Dict}
use toolbridge_api.Requests.Types.{truthy}

pub record TenantHeaderSigner : Type 0 where
  pub secret : String
  pub tenant_id : String
  pub skew_seconds : ℕ

-- `tenant_id_override or self.tenant_id`
abbrev pub effective_tenant : TenantHeaderSigner → Option String → String
effective_tenant signer override = elim (truthy override) [
  | none ↦ signer.tenant_id
  | some tenant_id ↦ tenant_id
]

-- the text that is signed
abbrev pub message : String → ℕ → String
message tenant_id timestamp_ms = tenant_id <> (":" <> str timestamp_ms)

-- `abs(a - b)`
abbrev pub distance : ℕ → ℕ → ℕ
distance a b = (a - b) + (b - a)

-- Whether every character is below 128.
unfoldable pub is_ascii : String → Bool
is_ascii String.[] = true
is_ascii (String.◌∷◌ c s) = ltb (code c) 128 && is_ascii s

abbrev pub compare_error : Exc
compare_error = Exc.type_error "comparing strings with non-ASCII characters is not supported"

-- `hmac.compare_digest` of two texts, which raises unless both are ASCII
unfoldable pub compare_digest : String → String → Result Bool
compare_digest a b = if is_ascii a && is_ascii b then ok (a == b) else err compare_error

module _ (hmac : String → String → String) where
  unfoldable pub sign : TenantHeaderSigner → Option String → ℕ → Dict String
  sign signer override now =
      let tenant_id = effective_tenant signer override in
      ("X-TB-Tenant-ID", tenant_id)
      ∷ ("X-TB-Timestamp", str now)
      ∷ ("X-TB-Signature", hmac signer.secret (message tenant_id now))
      ∷ []

  unfoldable pub verify : TenantHeaderSigner → ℕ → String → ℕ → String → Result Bool
  verify signer now tenant_id timestamp_ms signature =
      if ltb (signer.skew_seconds * 1000) (distance now timestamp_ms)
      then ok false
      else compare_digest (hmac signer.secret (message tenant_id timestamp_ms)) signature
