-- ===== src/Notes/Types.antt =====
-- mcp/toolbridge_mcp/tools/notes.py: `Note` and `NotesListResponse`.
use toolbridge_api.Prelude.{ℕ, String, Bool, true, false, not, Option, none, some, List, ◌==◌}
use toolbridge_api.Errors.{Exc, Result, ok, err}
use toolbridge_api.Dict.{Dict, lookup}

-- A value of a JSON payload. Of what is no text the code asks only whether it is truthy; `other`
-- has that, and the value's JSON text.
pub data Json : Type 0 where
  null : Json
  text : String → Json
  other : Bool → String → Json

abbrev pub is_truthy : Json → Bool
is_truthy Json.null = false
is_truthy (Json.text s) = not (s == "")
is_truthy (Json.other b s) = b

pub record Note : Type 0 where
  pub uid : String
  pub version : ℕ
  pub updated_at : String
  pub deleted_at : Option String
  pub payload : Dict Json

pub record NotesListResponse : Type 0 where
  pub items : List Note
  pub next_cursor : Option String

-- A value on which a method of `str` is called.
abbrev pub as_text : Json → Result String
as_text (Json.text s) = ok s
as_text Json.null = err (Exc.runtime_error "AttributeError")
as_text (Json.other b s) = err (Exc.runtime_error "AttributeError")

-- `payload.get(key) or default`, used as a text
unfoldable pub text_or : Dict Json → String → String → Result String
unfolding lookup
text_or payload key default = elim (lookup key payload) [
  | none ↦ ok default
  | some v ↦ elim (is_truthy v) [ true ↦ as_text v | false ↦ ok default ]
]
