-- ===== src/Json.antt =====
-- JSON values as the program sees them: the constructors of `serde_json::Value` that the source
-- matches on, the accessors that it calls, and the maps that it builds. A 64-bit float is kept
-- as its bit pattern. A map is an association list; the order of its keys is not modelled.
pub mod Laws
use ai_api_bridge.Prelude.{
  ℕ, String, Bool, true, false, Option, none, some, List, [], ◌∷◌, ◌==◌, string_eq, if◌then◌else◌,
  and_then, unwrap_or,
}

-- `serde_json::Number`: an unsigned integer, a negative one (`neg_int n` is -(n + 1)), or a float.
pub data Number : Type 0 where
  pos_int neg_int float : ℕ → Number

mutual
  pub data Value : Type 0 where
    null : Value
    bool : Bool → Value
    num : Number → Value
    str : String → Value
    arr : Values → Value
    obj : Fields → Value

  pub data Values : Type 0 where
    nil : Values
    cons : Value → Values → Values

  pub data Fields : Type 0 where
    end : Fields
    field : String → Value → Fields → Fields

abbrev pub items : Values → List Value
items nil = []
items (cons v vs) = v ∷ items vs

abbrev pub entries : Fields → List (String × Value)
entries end = []
entries (field k v fs) = (k, v) ∷ entries fs

abbrev pub values_of : List Value → Values
values_of [] = nil
values_of (v ∷ vs) = cons v (values_of vs)

abbrev pub fields_of : List (String × Value) → Fields
fields_of [] = end
fields_of ((k, v) ∷ fs) = field k v (fields_of fs)

-- `json!({..})` and `json!([..])`
abbrev pub object : List (String × Value) → Value
object fs = obj (fields_of fs)

abbrev pub array : List Value → Value
array vs = arr (values_of vs)

-- `json!(n)` at an unsigned integer
abbrev pub int : ℕ → Value
int n = num (pos_int n)

-- `Map::get`
abbrev pub lookup : String → Fields → Option Value
lookup k end = none
lookup k (field j v fs) = if j == k then some v else lookup k fs

-- `Map::contains_key`
abbrev pub contains_key : String → Fields → Bool
contains_key k end = false
contains_key k (field j v fs) = if j == k then true else contains_key k fs

-- `Map::insert`
abbrev pub insert : String → Value → Fields → Fields
insert k v end = field k v end
insert k v (field j w fs) = if j == k then field j v fs else field j w (insert k v fs)

-- `Map::remove`
abbrev pub remove : String → Fields → Fields
remove k end = end
remove k (field j v fs) = if j == k then remove k fs else field j v (remove k fs)

-- `Value::get` with a key
abbrev pub get : String → Value → Option Value
get k (obj fs) = lookup k fs
get k v = none

abbrev pub as_str : Value → Option String
as_str (str s) = some s
as_str v = none

abbrev pub as_bool : Value → Option Bool
as_bool (bool b) = some b
as_bool v = none

abbrev pub as_array : Value → Option (List Value)
as_array (arr vs) = some (items vs)
as_array v = none

abbrev pub as_object : Value → Option Fields
as_object (obj fs) = some fs
as_object v = none

abbrev pub as_u64 : Value → Option ℕ
as_u64 (num (pos_int n)) = some n
as_u64 v = none

abbrev pub is_null : Value → Bool
is_null null = true
is_null v = false

-- `v.get(k).and_then(|x| x.as_str())`
abbrev pub get_str : String → Value → Option String
get_str k v = and_then (get k v) as_str

-- `v.get(k).and_then(|x| x.as_u64())`
abbrev pub get_u64 : String → Value → Option ℕ
get_u64 k v = and_then (get k v) as_u64

-- `v.get(k).and_then(|v| v.as_str()).unwrap_or("")`
abbrev pub str_at : String → Value → String
str_at k v = unwrap_or (get_str k v) ""

-- The items of an array, and none of anything else.
abbrev pub array_of : Option Value → List Value
array_of v = unwrap_or (and_then v as_array) []

-- What `Value::as_f64` reads.
abbrev pub number : Value → Option Number
number (num n) = some n
number v = none
