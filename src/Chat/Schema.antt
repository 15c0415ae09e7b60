-- ===== src/Chat/Schema.antt =====
-- The repair of tool schemas (`sanitize_parameters` and `sanitize_schema` of src/wire/chat.rs).
pub mod Laws
use ai_api_bridge.Prelude.{
  Bool, true, false, not, ◌&&◌, Option, none, some, List, [], ◌∷◌, if◌then◌else◌,
}
use ai_api_bridge.Json.{
  Value, null, bool, num, str, arr, obj, Values, nil, cons, Fields, end, field, lookup, insert,
  remove, contains_key, is_null, object,
}

abbrev pub is_null_entry : Option Value → Bool
is_null_entry none = false
is_null_entry (some v) = is_null v

-- `if matches!(map.get("type"), Some(Value::Null)) { .. }`
unfoldable pub repair_null : Bool → Fields → Fields
repair_null is_root map =
    if is_null_entry (lookup "type" map)
    then (if is_root
        then insert "type" (str "object") map
        else if contains_key "properties" map
        then insert "type" (str "object") map
        else if contains_key "items" map
        then insert "type" (str "array") map
        else remove "type" map)
    else map

-- `if is_root && !map.contains_key("type") { .. }`
unfoldable pub default_root : Bool → Fields → Fields
default_root is_root map =
    if is_root && not (contains_key "type" map) then insert "type" (str "object") map else map

-- The children of a map are visited before its own `type` is repaired, so that the recursion is
-- structural. The repair reads of the children only which keys there are and whether `type` is
-- null, and it puts in only texts, which a visit leaves as they are.
unfoldable mutual
  unfolding repair_null default_root

  pub sanitize_schema : Value → Bool → Value
  sanitize_schema (obj map) is_root =
      obj (default_root is_root (repair_null is_root (sanitize_children map)))
  sanitize_schema (arr vs) is_root = arr (sanitize_items vs)
  sanitize_schema null is_root = null
  sanitize_schema (bool b) is_root = bool b
  sanitize_schema (num n) is_root = num n
  sanitize_schema (str s) is_root = str s

  pub sanitize_children : Fields → Fields
  sanitize_children end = end
  sanitize_children (field k v map) = field k (sanitize_schema v false) (sanitize_children map)

  pub sanitize_items : Values → Values
  sanitize_items nil = nil
  sanitize_items (cons v vs) = cons (sanitize_schema v false) (sanitize_items vs)

abbrev pub empty_schema : Value
empty_schema = object (("type", str "object") ∷ ("properties", obj end) ∷ [])

unfoldable pub sanitize_parameters : Value → Value
unfolding sanitize_schema
sanitize_parameters (obj map) = sanitize_schema (obj map) true
sanitize_parameters v = empty_schema
