-- ===== src/Json.antt =====
-- `serde_json::Value` as the program uses it. The order of an object's members carries no meaning
-- to the code. A float is its IEEE 754 bit pattern.
pub mod Laws
pub mod Integer
use folk_around.Prelude.{ℕ, Bool, true, false, List, [], ◌∷◌, Option, none, some, if◌then◌else◌}
use folk_around.Text.{Text, text_eq}

-- `neg_int n` is -(n + 1).
pub data Number : Type 0 where
  pos_int neg_int float : ℕ → Number

mutual
  pub data Value : Type 0 where
    null : Value
    bool : Bool → Value
    number : Number → Value
    string : Text → Value
    array : Items → Value
    object : Fields → Value

  pub data Items : Type 0 where
    nil : Items
    cons : Value → Items → Items

  pub data Fields : Type 0 where
    end : Fields
    field : Text → Value → Fields → Fields

-- `Map::get`
unfoldable pub get_field : Text → Fields → Option Value
get_field key end = none
get_field key (field k v fs) = if text_eq k key then some v else get_field key fs

-- `Map::insert`
unfoldable pub insert_field : Text → Value → Fields → Fields
insert_field key v end = field key v end
insert_field key v (field k w fs) =
    if text_eq k key then field k v fs else field k w (insert_field key v fs)

unfoldable pub keys : Fields → List Text
keys end = []
keys (field k v fs) = k ∷ keys fs

-- `Value::get` at a key
unfoldable pub get : Value → Text → Option Value
get (object fs) key = get_field key fs
get _ key = none

-- `value[key] = v`. The program writes so to objects alone; at another value but null it panics.
unfoldable pub set_index : Value → Text → Value → Value
set_index (object fs) key v = object (insert_field key v fs)
set_index null key v = object (field key v end)
set_index value key v = value

abbrev pub as_str : Option Value → Option Text
as_str (some (string s)) = some s
as_str _ = none

abbrev pub as_bool : Option Value → Option Bool
as_bool (some (bool b)) = some b
as_bool _ = none

abbrev pub as_object : Value → Option Fields
as_object (object fs) = some fs
as_object _ = none

unfoldable pub items : Items → List Value
items nil = []
items (cons v vs) = v ∷ items vs

abbrev pub as_array : Option Value → Option (List Value)
as_array (some (array vs)) = some (items vs)
as_array _ = none

-- `json!({ … })` with distinct keys
abbrev pub fields_of : List (Text × Value) → Fields
fields_of [] = end
fields_of ((k, v) ∷ rest) = field k v (fields_of rest)

abbrev pub object_of : List (Text × Value) → Value
object_of pairs = object (fields_of pairs)

abbrev pub items_of : List Value → Items
items_of [] = nil
items_of (v ∷ vs) = cons v (items_of vs)

abbrev pub array_of : List Value → Value
array_of vs = array (items_of vs)
