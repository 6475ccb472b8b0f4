-- ===== src/Value.antt =====
-- The Qore values that the methods take and return, as far as src/*.cpp tells them apart by
-- QoreValue::getType.
use module_nats.Common.{Option, some, ℕ, ℤ, String, Bool, List, [], ◌∷◌, if◌then◌else◌}
use text.Mathlib.Text.{◌==◌}

mutual
  pub data Value : Type 0 where
    nothing null : Value  -- NT_NOTHING, NT_NULL
    str : String → Value  -- NT_STRING
    int : ℤ → Value  -- NT_INT
    bool : Bool → Value  -- NT_BOOLEAN
    binary : List ℕ → Value  -- NT_BINARY
    list : Values → Value  -- NT_LIST
    hash : Fields → Value  -- NT_HASH
    call_reference : ℕ → Value  -- NT_FUNCREF, NT_RUNTIME_CLOSURE

  pub data Values : Type 0 where
    nil : Values
    cons : Value → Values → Values

  pub data Fields : Type 0 where
    end : Fields
    field : String → Value → Fields → Fields

-- QoreHashNode::getKeyValue
unfoldable pub get_key_value : Fields → String → Value
get_key_value end k = nothing
get_key_value (field j v fs) k = if j == k then v else get_key_value fs k

unfoldable pub items : Values → List Value
items nil = []
items (cons v vs) = v ∷ items vs

-- `if (v.getType() == NT_STRING) x = v;`, and the like for an integer and a Boolean
abbrev pub or_string : Value → Option String → Option String
or_string (Value.str s) d = some s
or_string _ d = d

abbrev pub or_int : Value → ℤ → ℤ
or_int (Value.int n) d = n
or_int _ d = d

abbrev pub or_bool : Value → Bool → Bool
or_bool (Value.bool b) d = b
or_bool _ d = d

-- a list of Qore strings
abbrev pub strings : List String → Values
strings [] = nil
strings (s ∷ ss) = cons (Value.str s) (strings ss)

-- an entry of a list of strings: `sv.getType() == NT_STRING ? strings.add(sv) : ""`
abbrev pub text_of : Value → String
text_of (Value.str s) = s
text_of _ = ""

abbrev pub texts : Values → List String
texts nil = []
texts (cons v vs) = text_of v ∷ texts vs
