-- ===== src/Model/Json.antt =====
-- `serde_json::Value`, the JSON values that tool calls and the protocol carry. A number is kept as
-- it is written; nothing that is modelled computes with one.
use Prim.Native.String.{String}
use arcc.Base.{Bool, List, [], ◌∷◌, Option, none, some, ◌==◌, list_Eq, if◌then◌else◌}
use arcc.Base.Text.{Text, codes}

mutual
  pub data Value : Type 0 where
    null : Value
    bool : Bool → Value
    number : Text → Value
    string : Text → Value
    array : Items → Value
    object : Fields → Value

  pub data Fields : Type 0 where
    end : Fields
    field : Text → Value → Fields → Fields

  -- The elements of an array.
  pub data Items : Type 0 where
    nil : Items
    cons : Value → Items → Items

unfoldable pub get_field : Text → Fields → Option Value
get_field k end = none
get_field k (field j v fs) = if j == k then some v else get_field k fs

-- `Map::insert`: an entry under the same key is replaced.
unfoldable pub insert_field : Text → Value → Fields → Fields
insert_field k v end = field k v end
insert_field k v (field j w fs) = if j == k then field k v fs else field j w (insert_field k v fs)

-- `Value::get` with a key: `None` on anything but an object.
unfoldable pub get_value : Text → Value → Option Value
unfolding get_field
get_value k (object fs) = get_field k fs
get_value k _ = none

unfoldable pub as_str : Value → Option Text
as_str (string s) = some s
as_str _ = none

-- `serde_json::json!` of an object, an array and a literal text.
abbrev pub fields_of : List (Text × Value) → Fields
fields_of [] = end
fields_of ((k, v) ∷ fs) = field k v (fields_of fs)

abbrev pub items_of : List Value → Items
items_of [] = nil
items_of (v ∷ vs) = cons v (items_of vs)

abbrev pub obj : List (Text × Value) → Value
obj fs = object (fields_of fs)

abbrev pub arr : List Value → Value
arr vs = array (items_of vs)

abbrev pub str : String → Value
str s = string (codes s)

infix 66 ◌:=◌
abbrev pub ◌:=◌ : String → Value → Text × Value
k := v = (codes k, v)

-- `Option<Value>` chains: `and_then(|v| v.get(k))` and `and_then(|v| v.as_str())`.
unfoldable pub and_get : Text → Option Value → Option Value
unfolding get_value
and_get k none = none
and_get k (some v) = get_value k v

unfoldable pub and_str : Option Value → Option Text
unfolding as_str
and_str none = none
and_str (some v) = as_str v

unfoldable pub as_bool : Value → Option Bool
as_bool (bool b) = some b
as_bool _ = none

unfoldable pub unwrap_or {ℓ} : {A : Type ℓ} → Option A → A → A
unwrap_or none d = d
unwrap_or (some a) d = a
