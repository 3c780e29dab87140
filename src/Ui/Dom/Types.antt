-- ===== src/Ui/Dom/Types.antt =====
-- mcp/toolbridge_mcp/ui/remote_dom: a node of a tree, which the code writes as a dict with the keys
-- `type`, `props`, `action` and `children`; a node without the last key has no children here.
use toolbridge_api.Prelude.{
  ℕ, String, Bool, true, false, Option, none, some, List, [], ◌∷◌, ◌++◌, ◌==◌,
}
use toolbridge_api.Dict.{Dict, lookup}

pub data Value : Type 0 where
  text : String → Value
  number : ℕ → Value
  flag : Bool → Value

-- `{"type": "tool", "payload": {"toolName": …, "params": …}}`
pub record ToolAction : Type 0 where
  pub tool_name : String
  pub params : Dict Value

mutual
  pub data Node : Type 0 where
    node : String → Dict Value → Option ToolAction → Nodes → Node

  pub data Nodes : Type 0 where
    nil : Nodes
    cons : Node → Nodes → Nodes

abbrev pub nodes : List Node → Nodes
nodes [] = Nodes.nil
nodes (n ∷ ns) = Nodes.cons n (nodes ns)

-- a node without an action
abbrev pub element : String → Dict Value → List Node → Node
element kind props children = Node.node kind props none (nodes children)

-- What a client makes of a node with an action: it can be used unless `enabled` is false.
pub record Button : Type 0 where
  pub action : ToolAction
  pub enabled : Bool

abbrev pub enabled_of : Dict Value → Bool
enabled_of props = elim (lookup "enabled" props) [
  | none ↦ true
  | some v ↦ elim v [ Value.flag b ↦ b | Value.text s ↦ true | Value.number n ↦ true ]
]

abbrev own_button : Dict Value → Option ToolAction → List Button
own_button props none = []
own_button props (some a) = record { action = a; enabled = enabled_of props } ∷ []

-- the text that a node itself shows
abbrev own_text : String → Dict Value → List String
own_text kind props = elim (kind == "text") [
  | false ↦ []
  | true ↦ elim (lookup "text" props) [
    | none ↦ []
    | some v ↦ elim v [ Value.text s ↦ s ∷ [] | Value.flag b ↦ [] | Value.number n ↦ [] ]
  ]
]

-- the buttons of a tree, from the top
unfoldable mutual
  pub buttons : Node → List Button
  buttons (Node.node kind props action children) = own_button props action ++ buttons_in children

  pub buttons_in : Nodes → List Button
  buttons_in Nodes.nil = []
  buttons_in (Nodes.cons n ns) = buttons n ++ buttons_in ns

-- the texts of a tree, from the top
unfoldable mutual
  pub texts : Node → List String
  texts (Node.node kind props action children) = own_text kind props ++ texts_in children

  pub texts_in : Nodes → List String
  texts_in Nodes.nil = []
  texts_in (Nodes.cons n ns) = texts n ++ texts_in ns
