-- ===== src/Entities/Answered.antt =====
-- mcp/toolbridge_mcp/tools/ over mcp/toolbridge_mcp/utils/requests.py: a call and what is read
-- from its answer.
use toolbridge_api.Prelude.{ℕ, String, ◌≢◌, refl, Option, some, []}
use toolbridge_api.Errors.{Result}
use toolbridge_api.Dict.{Dict}
use toolbridge_api.Notes.Types.{Json}
use toolbridge_api.Requests.Types.{
  AccessToken, Settings, Method, Response, Http, Jose, World, ◌>>>=◌, lift,
}
use toolbridge_api.Requests.Calls.{call}
use toolbridge_api.Requests.Isolation.{SameEntry, proceed-SameEntry, caller, call-isolates}
use toolbridge_api.Entities.Shapes.{entity}

module _ (http : Http) (jose : Jose) (settings : Settings) (j : String) where
  module _ (now : ℕ) (token : Result AccessToken) where
    -- a call and what is read from its answer
    pub answered-SameEntry :
        {A : Type 0} (method : Method) (path : String) (params : Dict Json)
        (json : Option (Dict Json)) (if_match : Option ℕ) (read : Response → Result A)
        (w : World http.State)
        → caller token ≢ some j
        → SameEntry j w
            ((call http jose settings now token method path params json if_match >>>= λ response.
                lift (read response))
              w).1
    answered-SameEntry method path params json if_match read w n =
        proceed-SameEntry j w (call http jose settings now token method path params json if_match w)
          _ (call-isolates http jose settings now j token method path params json if_match w n)
          (λ response v. (refl, refl))

    -- the same after a payload that may not decode
    pub written-SameEntry :
        (method : Method) (path : String) (if_match : Option ℕ) (payload : Result (Dict Json))
        (w : World http.State)
        → caller token ≢ some j
        → SameEntry j w
            ((lift payload >>>= λ json.
                entity (call http jose settings now token method path [] (some json) if_match))
              w).1
    written-SameEntry method path if_match payload w n =
        proceed-SameEntry j w (payload, w) _ (refl, refl)
          (λ json v. answered-SameEntry method path [] (some json) if_match (λ r. r.note) v n)
