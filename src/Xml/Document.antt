-- ===== src/Xml/Document.antt =====
-- Documents as libxml2 gives them, and what rootpa/Code/Common/xmlmessagehandler.c reads from them.
use Prim.Native.Char.{code}
use Prim.Native.String.{String}
use text.Mathlib.Text.{◌==◌}
use tee_mobicore_driver_daem.Base.{
  ℕ, ◌+◌, ◌-◌, ◌*◌, Bool, false, ◌&&◌, List, [], ◌∷◌, Option, none, some, if◌then◌else◌, leb,
}

-- xmlNode: an element with its name, attributes and children, or other content.
mutual
  pub data Node : Type 0 where
    element : String → List (String × String) → Nodes → Node
    content : String → Node

  pub data Nodes : Type 0 where
    end : Nodes
    node : Node → Nodes → Nodes

-- Is this an element of that name?
abbrev pub named : String → Node → Bool
named name (element n attributes children) = n == name
named name (content text) = false

abbrev pub children_of : Node → Nodes
children_of (element n attributes children) = children
children_of (content text) = end

-- The children of the first element of that name.
abbrev pub find_children : String → Nodes → Nodes
find_children name end = end
find_children name (node n rest) =
    let later = find_children name rest in if named name n then children_of n else later

-- The children of the document's `commands`; without a root there are none.
unfoldable pub find_first_command_node : Option Node → Nodes
find_first_command_node none = end
find_first_command_node (some root) = find_children "commands" (children_of root)

-- `getNextCommand` from here on: the commands that the loop visits.
unfoldable pub commands_of : Nodes → List Node
commands_of end = []
commands_of (node n rest) =
    let later = commands_of rest in if named "command" n then n ∷ later else later

abbrev find_attribute : String → List (String × String) → Option String
find_attribute name [] = none
find_attribute name ((n, value) ∷ attributes) =
    let later = find_attribute name attributes in if n == name then some value else later

-- `xmlGetProp`
abbrev pub get_prop : String → Node → Option String
get_prop name (element n attributes children) = find_attribute name attributes
get_prop name (content text) = none

-- UNKNOWN_ID
abbrev pub unknown_id : ℕ
unknown_id = 4294967295

-- The value of the digits at the start.
abbrev digits_from : ℕ → String → ℕ
digits_from n String.[] = n
digits_from n (String.◌∷◌ c text) =
    let more = digits_from (10 * n + (code c - 48)) text in
    if leb 48 (code c) && leb (code c) 57 then more else n

-- An id is a number without a sign in the schema.
unfoldable pub get_command_id : Node → ℕ
get_command_id n = elim (get_prop "id" n) [ none ↦ unknown_id | some text ↦ digits_from 0 text ]

-- commandtype_t
pub data CommandType : Type 0 where
  cmp so_upload tlt_upload unknown_type : CommandType

abbrev type_of : Option String → CommandType
type_of none = unknown_type
type_of (some text) =
    if text == "CMP"
    then cmp
    else if text == "SO_UPLOAD"
    then so_upload
    else if text == "TLT_UPLOAD"
    then tlt_upload
    else unknown_type

unfoldable pub get_command_type : Node → CommandType
get_command_type n = type_of (get_prop "type" n)

-- The first child of that name; `xmlNodeGetContent` is a parameter.
abbrev find_named : String → Nodes → Option Node
find_named name end = none
find_named name (node n rest) =
    let later = find_named name rest in if named name n then some n else later

unfoldable pub get_command_value : (Node → Option String) → Node → Option String
get_command_value get_content n = elim (find_named "commandValue" (children_of n)) [
  | none ↦ none
  | some value ↦ get_content value
]

unfoldable pub get_command_ignore_error : Node → Bool
get_command_ignore_error n = elim (get_prop "ignoreError" n) [
  | none ↦ false
  | some text ↦ text == "true"
]

-- What is read from a command.
pub record Values : Type 0 where
  pub command_type : CommandType
  pub id : ℕ
  pub value : Option String
  pub ignore_error : Bool

unfoldable pub get_values : (Node → Option String) → Node → Values
get_values get_content n = record {
  command_type = get_command_type n;
  id = get_command_id n;
  value = get_command_value get_content n;
  ignore_error = get_command_ignore_error n;
}
