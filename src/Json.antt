-- ===== src/Json.antt =====
-- JSON values, as `json.loads` gives them to the scripts. A number is an integer: the scripts read
-- no other. An object lists each key once.
use opl_flow.Base.{
  String, Bool, true, false, ◌&&◌, Option, none, some, List, [], ◌∷◌, ◌==◌, subset, if◌then◌else◌,
}
use opl_flow.Base.Int.{ℤ}

mutual
  pub data Value : Type 0 where
    null : Value
    flag : Bool → Value
    num : ℤ → Value
    text : String → Value
    arr : Elements → Value
    obj : Fields → Value

  pub data Elements : Type 0 where
    no_element : Elements
    element : Value → Elements → Elements

  pub data Fields : Type 0 where
    no_field : Fields
    field : String → Value → Fields → Fields

unfoldable pub get_field : String → Fields → Option Value
get_field k no_field = none
get_field k (field j v fs) = if j == k then some v else get_field k fs

unfoldable pub field_names : Fields → List String
field_names no_field = []
field_names (field j v fs) = j ∷ field_names fs

-- `value.get(k)` of a dict; there is none for another value, or for a missing key
unfoldable pub get : String → Value → Option Value
get k (obj fs) = get_field k fs
get k _ = none

-- `isinstance(value, dict) and set(value) == names`
unfoldable pub has_exactly : List String → Value → Bool
has_exactly names (obj fs) = subset names (field_names fs) && subset (field_names fs) names
has_exactly names _ = false

-- the text under a key
abbrev pub as_text : Option Value → Option String
as_text (some (text s)) = some s
as_text _ = none

-- `value.get(k) == s`, for a text
unfoldable pub is_text_at : String → String → Value → Bool
is_text_at k s v = elim (as_text (get k v)) [ none ↦ false | some t ↦ t == s ]

-- `value.get(k) is True`
abbrev pub is_true : Option Value → Bool
is_true (some (flag b)) = b
is_true _ = false

-- a list, if the value is one
abbrev pub as_items : Option Value → Option Elements
as_items (some (arr xs)) = some xs
as_items _ = none

abbrev pub is_nil : Elements → Bool
is_nil no_element = true
is_nil (element v vs) = false
