-- ===== src/Json.antt =====
-- What the providers' code uses of `serde_json`: the values, their accessors, and the library's
-- reading and printing as parameters.
use multi_agent_orchestrator.Prelude.{
  ◌⊎◌, ℕ, Bool, Option, none, some, String, List, [], ◌∷◌, str_eq, if◌then◌else◌, and_then,
}
use multi_agent_orchestrator.Prelude.Float.{F64}

-- `serde_json::Value`. An object has each key once.
mutual
  pub data Value : Type 0 where
    null : Value
    bool : Bool → Value
    pos_int neg_int : ℕ → Value
    float : F64 → Value
    string : String → Value
    array : Items → Value
    object : Fields → Value

  pub data Items : Type 0 where
    nil : Items
    cons : Value → Items → Items

  pub data Fields : Type 0 where
    no_fields : Fields
    field : (key : String) (value : Value) → Fields → Fields

abbrev find_field : String → Fields → Option Value
find_field k no_fields = none
find_field k (field key value rest) =
    let later = find_field k rest in if str_eq key k then some value else later

-- `value.get(key)` of a text key: nothing but an object has one.
abbrev pub get : Value → String → Option Value
get (object fields) key = find_field key fields
get _ key = none

abbrev pub as_str : Value → Option String
as_str (string s) = some s
as_str _ = none

abbrev pub as_u64 : Value → Option ℕ
as_u64 (pos_int n) = some n
as_u64 _ = none

abbrev pub as_bool : Value → Option Bool
as_bool (bool b) = some b
as_bool _ = none

-- `value.get(key).and_then(Value::as_str)`
abbrev pub get_str : Value → String → Option String
get_str v key = and_then (get v key) as_str

-- Follows the keys one after the other, as `pointer("/a/b")` does through objects.
abbrev pub pointer : Value → List String → Option Value
pointer v [] = some v
pointer v (key ∷ keys) = and_then (get v key) (λ w. pointer w keys)

-- `from_str::<Value>`: the error's text, or the value; and `to_string`.
pub record JsonLib : Type 0 where
  pub from_str : String → String ⊎ Value
  pub to_string : Value → String
