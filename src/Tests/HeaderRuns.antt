-- ===== src/Tests/HeaderRuns.antt =====
-- mcp/toolbridge_mcp/utils/headers.py with a toy HMAC.
use Prim.Native.String.{◌++◌ as ◌<>◌}
use toolbridge_api.Prelude.{String, ◌≡◌, refl, true, false, ◌==◌, if◌then◌else◌}
use toolbridge_api.Prelude.Text.{str}
use toolbridge_api.Errors.{ok, err}
use toolbridge_api.Headers.{TenantHeaderSigner, is_ascii, compare_error, compare_digest, verify}

abbrev joined : String → String → String
joined secret message = secret <> message

abbrev acme_signer : TenantHeaderSigner
acme_signer = record { secret = "k"; tenant_id = "acme"; skew_seconds = 300 }

-- after six minutes
late : verify joined acme_signer 360001 "acme" 0 "kacme:0" ≡ ok false
unfolding verify
late = refl

in_time : verify joined acme_signer 1000 "acme" 0 "kacme:0" ≡ ok true
unfolding verify compare_digest is_ascii str
in_time = refl

not_ascii : verify joined acme_signer 1000 "acme" 0 "é" ≡ err compare_error
unfolding verify compare_digest is_ascii str
not_ascii = refl

-- a digest of hexadecimal digits
abbrev toy_digest : String → String → String
toy_digest secret text = if text == "acme:5" then "a1" else "0f"
