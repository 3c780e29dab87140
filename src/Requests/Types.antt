-- ===== src/Requests/Types.antt =====
-- What mcp/toolbridge_mcp/utils/requests.py works on: the token of the caller, the settings, the two
-- caches, and the network. A computation keeps its changes to the caches also when it raises.
use toolbridge_api.Prelude.{ℕ, String, Bool, Option, none, some, List, ◌==◌, if◌then◌else◌}
use toolbridge_api.Errors.{Exc, Result, ok, err}
use toolbridge_api.Dict.{Dict, insert}
use toolbridge_api.Notes.Types.{Json, Note, NotesListResponse}

-- FastMCP's access token: three of its claims, its scopes and its text
pub record AccessToken : Type 0 where
  pub sub : Option String
  pub email : Option String
  pub tenant_id : Option String
  pub scopes : List String
  pub token : String

-- the settings of mcp/toolbridge_mcp/config.py that the calls read
pub record Settings : Type 0 where
  pub tenant_id : Option String
  pub jwt_signing_key : Option String
  pub go_api_base_url : String
  pub backend_api_audience : String

pub data Method : Type 0 where
  get post put patch delete : Method

pub record Request : Type 0 where
  pub method : Method
  pub url : String
  pub headers : Dict String
  pub params : Dict Json
  pub json : Option (Dict Json)

-- The fields that the code reads of a JSON answer, with the types that the Go API gives them.
pub record Body : Type 0 where
  pub access_token : Option String
  pub requires_selection : Bool
  pub organizations : ℕ
  pub tenant_id : Option String
  pub session_id : Option String
  pub session_epoch : Option ℕ

-- `json` is the outcome of `response.json()`, `note` and `notes` what pydantic makes of it as a note or
-- as a list of notes, `is_success` what `raise_for_status` tests and `message` what it says.
pub record Response : Type 0 where
  pub status_code : ℕ
  pub is_success : Bool
  pub text : String
  pub message : String
  pub json : Result Body
  pub note : Result Note
  pub notes : Result NotesListResponse

-- httpx, over the state of everything behind it
pub record Http : Type 1 where
  pub State : Type 0
  pub send : Request → State → Result Response × State

-- the claims of a backend JWT; times in seconds
pub record Claims : Type 0 where
  pub sub : Option String
  pub iss : String
  pub aud : String
  pub exp : ℕ
  pub iat : ℕ
  pub nbf : ℕ
  pub email : Option String
  pub tenant_id : Option String
  pub scope : String
  pub token_type : String
  pub exchanged_from : String

-- python-jose: signing with a key, and the `sub` claim of a token that is not verified
pub record Jose : Type 0 where
  pub encode : Claims → String → Result String
  pub decode_sub : String → Result (Option String)

-- `_tenant_cache`, `_jwt_cache` and the network
pub record World (S : Type 0) : Type 0 where
  pub tenant_cache : Dict String
  pub jwt_cache : Dict String
  pub net : S

-- a text that is there and not empty
abbrev pub truthy : Option String → Option String
truthy none = none
truthy (some s) = if s == "" then none else some s

-- a computation with the caches and the network
abbrev pub Action : Type 0 → Type 0 → Type 0
Action S A = World S → Result A × World S

module _ {S : Type 0} where
  -- on with the value, or the exception that ends the computation
  abbrev pub proceed : {A B : Type 0} → Result A × World S → (A → Action S B) → Result B × World S
  proceed (ok a, w) f = f a w
  proceed (err e, w) f = (err e, w)

  infixl 5 ◌>>>=◌
  abbrev pub ◌>>>=◌ : {A B : Type 0} → Action S A → (A → Action S B) → Action S B
  ◌>>>=◌ m f w = proceed (m w) f

  abbrev pub lift : {A : Type 0} → Result A → Action S A
  lift r w = (r, w)

  -- `except … as e: raise f(e) from e`
  abbrev pub reraise : {A : Type 0} → (Exc → Exc) → Result A × World S → Result A × World S
  reraise f (ok a, w) = (ok a, w)
  reraise f (err e, w) = (err (f e), w)

  -- `_tenant_cache[user_id] = tenant_id`
  abbrev pub cache_tenant : String → String → World S → World S
  cache_tenant user_id tenant_id w = record w {
    tenant_cache = insert user_id tenant_id w.tenant_cache;
  }

  -- `_jwt_cache[user_id] = backend_jwt`
  abbrev pub cache_jwt : String → String → World S → World S
  cache_jwt user_id backend_jwt w = record w { jwt_cache = insert user_id backend_jwt w.jwt_cache }

-- a request past the transport, with nothing added
abbrev pub plain_send : (http : Http) → Request → Action http.State Response
plain_send http request w = let (r, net) = http.send request w.net in (r, record w { net = net })
