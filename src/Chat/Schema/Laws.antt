-- ===== src/Chat/Schema/Laws.antt =====
-- What the repair of schemas in src/wire/chat.rs guarantees to a strict upstream.
use ai_api_bridge.Prelude.{
  String, Bool, true, false, not, ◌&&◌, if◌then◌else◌, ◌≡◌, refl, ap, ap₂, ◌==◌, string_eq, arith,
  Bool-cases, inl, inr, is_some,
}
use ai_api_bridge.Json.{
  Value, null, bool, num, str, arr, obj, Values, nil, cons, Fields, end, field, lookup, insert,
  remove, contains_key, is_null, get,
}
use ai_api_bridge.Json.Laws.{lookup-insert, lookup-remove}
use ai_api_bridge.Chat.Schema.{
  is_null_entry, repair_null, default_root, sanitize_schema, sanitize_children, sanitize_items,
  sanitize_parameters,
}

contains_key-lookup : (k : String) (map : Fields) → contains_key k map ≡ is_some (lookup k map)
contains_key-lookup k end = refl
contains_key-lookup k (field j v map) = ground (arith, contains_key-lookup k map)

sanitize_children-insert :
    (k s : String) (map : Fields)
    → sanitize_children (insert k (str s) map) ≡ insert k (str s) (sanitize_children map)
unfolding sanitize_children sanitize_schema
sanitize_children-insert k s end = refl
sanitize_children-insert k s (field j v map) = elim (Bool-cases (j == k)) [
  | inl e ↦ rw e refl
  | inr e ↦ rw e (ap (field j (sanitize_schema v false)) (sanitize_children-insert k s map))
]

sanitize_children-remove :
    (k : String) (map : Fields)
    → sanitize_children (remove k map) ≡ remove k (sanitize_children map)
unfolding sanitize_children
sanitize_children-remove k end = refl
sanitize_children-remove k (field j v map) = elim (Bool-cases (j == k)) [
  | inl e ↦ rw e (sanitize_children-remove k map)
  | inr e ↦ rw e (ap (field j (sanitize_schema v false)) (sanitize_children-remove k map))
]

is_null-sanitize_schema : (v : Value) → is_null (sanitize_schema v false) ≡ is_null v
unfolding sanitize_schema
is_null-sanitize_schema null = refl
is_null-sanitize_schema (bool b) = refl
is_null-sanitize_schema (num n) = refl
is_null-sanitize_schema (str s) = refl
is_null-sanitize_schema (arr vs) = refl
is_null-sanitize_schema (obj map) = refl

is_null_entry-sanitize_children :
    (k : String) (map : Fields)
    → is_null_entry (lookup k (sanitize_children map)) ≡ is_null_entry (lookup k map)
unfolding sanitize_children
is_null_entry-sanitize_children k end = refl
is_null_entry-sanitize_children k (field j v map) = elim (Bool-cases (j == k)) [
  | inl e ↦ rw e (is_null-sanitize_schema v)
  | inr e ↦ rw e (is_null_entry-sanitize_children k map)
]

contains_key-sanitize_children :
    (k : String) (map : Fields) → contains_key k (sanitize_children map) ≡ contains_key k map
unfolding sanitize_children
contains_key-sanitize_children k end = refl
contains_key-sanitize_children k (field j v map) =
    ground (arith, contains_key-sanitize_children k map)

-- The repair of a map's own `type` can be done before or after its children are visited.
pub repair_null-sanitize_children :
    (is_root : Bool) (map : Fields)
    → repair_null is_root (sanitize_children map) ≡ sanitize_children (repair_null is_root map)
unfolding repair_null
repair_null-sanitize_children is_root map = ground (
  arith,
  is_null_entry-sanitize_children "type" map,
  contains_key-sanitize_children "properties" map,
  contains_key-sanitize_children "items" map,
  sanitize_children-insert "type" "object" map,
  sanitize_children-insert "type" "array" map,
  sanitize_children-remove "type" map,
)

pub default_root-sanitize_children :
    (is_root : Bool) (map : Fields)
    → default_root is_root (sanitize_children map) ≡ sanitize_children (default_root is_root map)
unfolding default_root
default_root-sanitize_children is_root map =
    ground (
      arith,
      contains_key-sanitize_children "type" map,
      sanitize_children-insert "type" "object" map,
    )

-- No object in the value has `"type": null`.
unfoldable mutual
  pub Clean : Value → Type 0
  Clean (obj map) = (is_null_entry (lookup "type" map) ≡ false) × CleanFields map
  Clean (arr vs) = CleanValues vs
  Clean null = Unit
  Clean (bool b) = Unit
  Clean (num n) = Unit
  Clean (str s) = Unit

  pub CleanFields : Fields → Type 0
  CleanFields end = Unit
  CleanFields (field k v map) = Clean v × CleanFields map

  pub CleanValues : Values → Type 0
  CleanValues nil = Unit
  CleanValues (cons v vs) = Clean v × CleanValues vs

repaired-type :
    (is_root : Bool) (map : Fields)
    → is_null_entry (lookup "type" (default_root is_root (repair_null is_root map))) ≡ false
unfolding default_root repair_null
repaired-type is_root map = ground (
  arith,
  contains_key-lookup "type" map,
  lookup-insert "type" "type" (str "object") map,
  lookup-insert "type" "type" (str "array") map,
  lookup-remove "type" "type" map,
  contains_key-lookup "type" (insert "type" (str "object") map),
  contains_key-lookup "type" (insert "type" (str "array") map),
  contains_key-lookup "type" (remove "type" map),
)

-- The root has a type.
root-type :
    (map : Fields) → is_some (lookup "type" (default_root true (repair_null true map))) ≡ true
unfolding default_root repair_null
root-type map = ground (
  arith,
  contains_key-lookup "type" map,
  lookup-insert "type" "type" (str "object") map,
  contains_key-lookup "type" (insert "type" (str "object") map),
)

CleanFields-insert :
    (k s : String) (map : Fields) → CleanFields map → CleanFields (insert k (str s) map)
unfolding CleanFields Clean
CleanFields-insert k s end h = (tt, tt)
CleanFields-insert k s (field j v map) (c, h) = elim (Bool-cases (j == k)) [
  | inl e ↦ rw e (tt, h)
  | inr e ↦ rw e (c, CleanFields-insert k s map h)
]

CleanFields-remove : (k : String) (map : Fields) → CleanFields map → CleanFields (remove k map)
unfolding CleanFields Clean
CleanFields-remove k end h = tt
CleanFields-remove k (field j v map) (c, h) = elim (Bool-cases (j == k)) [
  | inl e ↦ rw e (CleanFields-remove k map h)
  | inr e ↦ rw e (c, CleanFields-remove k map h)
]

either :
    (b : Bool) (map map' : Fields)
    → CleanFields map
    → CleanFields map'
    → CleanFields (if b then map else map')
either true map map' h k = h
either false map map' h k = k

CleanFields-repair :
    (is_root : Bool) (map : Fields)
    → CleanFields map
    → CleanFields (default_root is_root (repair_null is_root map))
unfolding default_root repair_null
CleanFields-repair is_root map h =
    let typed = CleanFields-insert "type" "object" map h in
    let repaired =
      either (is_null_entry (lookup "type" map)) _ _
        (either is_root _ _ typed (
          either (contains_key "properties" map) _ _ typed (
            either (contains_key "items" map) _ _ (CleanFields-insert "type" "array" map h)
              (CleanFields-remove "type" map h))))
        h in
    either (is_root && not (contains_key "type" (repair_null is_root map))) _ _
      (CleanFields-insert "type" "object" (repair_null is_root map) repaired) repaired

mutual
  unfolding sanitize_schema Clean

  pub Clean-sanitize_schema : (v : Value) (is_root : Bool) → Clean (sanitize_schema v is_root)
  Clean-sanitize_schema (obj map) is_root = (
    repaired-type is_root (sanitize_children map),
    CleanFields-repair is_root (sanitize_children map) (CleanFields-sanitize_children map),
  )
  Clean-sanitize_schema (arr vs) is_root = CleanValues-sanitize_items vs
  Clean-sanitize_schema null is_root = tt
  Clean-sanitize_schema (bool b) is_root = tt
  Clean-sanitize_schema (num n) is_root = tt
  Clean-sanitize_schema (str s) is_root = tt

  CleanFields-sanitize_children : (map : Fields) → CleanFields (sanitize_children map)
  CleanFields-sanitize_children end = tt
  CleanFields-sanitize_children (field k v map) =
      (Clean-sanitize_schema v false, CleanFields-sanitize_children map)

  CleanValues-sanitize_items : (vs : Values) → CleanValues (sanitize_items vs)
  CleanValues-sanitize_items nil = tt
  CleanValues-sanitize_items (cons v vs) =
      (Clean-sanitize_schema v false, CleanValues-sanitize_items vs)

unrepaired :
    (is_root : Bool) (map : Fields)
    → is_null_entry (lookup "type" map) ≡ false
    → (if is_root then is_some (lookup "type" map) else true) ≡ true
    → default_root is_root (repair_null is_root map) ≡ map
unfolding default_root repair_null
unrepaired true map h typed = rw (h, contains_key-lookup "type" map, typed) refl
unrepaired false map h typed = rw h refl

mutual
  unfolding sanitize_schema Clean

  sanitize_schema_of_Clean : (v : Value) → Clean v → sanitize_schema v false ≡ v
  sanitize_schema_of_Clean (obj map) (t, h) =
      ap obj (rw (sanitize_children_of_Clean map h) (unrepaired false map t refl))
  sanitize_schema_of_Clean (arr vs) h = ap arr (sanitize_items_of_Clean vs h)
  sanitize_schema_of_Clean null h = refl
  sanitize_schema_of_Clean (bool b) h = refl
  sanitize_schema_of_Clean (num n) h = refl
  sanitize_schema_of_Clean (str s) h = refl

  sanitize_children_of_Clean : (map : Fields) → CleanFields map → sanitize_children map ≡ map
  sanitize_children_of_Clean end h = refl
  sanitize_children_of_Clean (field k v map) (c, h) =
      ap₂ (field k) (sanitize_schema_of_Clean v c) (sanitize_children_of_Clean map h)

  sanitize_items_of_Clean : (vs : Values) → CleanValues vs → sanitize_items vs ≡ vs
  sanitize_items_of_Clean nil h = refl
  sanitize_items_of_Clean (cons v vs) (c, h) =
      ap₂ cons (sanitize_schema_of_Clean v c) (sanitize_items_of_Clean vs h)

-- Whatever a client sends as a tool's parameters, what is forwarded is an object that has a
-- `type`, and no object in it has a `type` that is null.
pub sanitize_parameters-Clean :
    (params : Value)
    → Clean (sanitize_parameters params)
      × (is_some (get "type" (sanitize_parameters params)) ≡ true)
unfolding sanitize_parameters sanitize_schema Clean
sanitize_parameters-Clean (obj map) =
    (Clean-sanitize_schema (obj map) true, root-type (sanitize_children map))
sanitize_parameters-Clean null = ((refl, (tt, ((refl, tt), tt))), refl)
sanitize_parameters-Clean (bool b) = ((refl, (tt, ((refl, tt), tt))), refl)
sanitize_parameters-Clean (num n) = ((refl, (tt, ((refl, tt), tt))), refl)
sanitize_parameters-Clean (str s) = ((refl, (tt, ((refl, tt), tt))), refl)
sanitize_parameters-Clean (arr vs) = ((refl, (tt, ((refl, tt), tt))), refl)

-- A schema that is an object with a `type`, and in which no object has a `type` that is null, is
-- forwarded unchanged.
pub sanitize_parameters_of_Clean :
    (params : Value)
    → Clean params
    → is_some (get "type" params) ≡ true
    → sanitize_parameters params ≡ params
unfolding sanitize_parameters sanitize_schema Clean
sanitize_parameters_of_Clean (obj map) (t, h) typed =
    ap obj (rw (sanitize_children_of_Clean map h) (unrepaired true map t typed))
sanitize_parameters_of_Clean null h typed = cc
sanitize_parameters_of_Clean (bool b) h typed = cc
sanitize_parameters_of_Clean (num n) h typed = cc
sanitize_parameters_of_Clean (str s) h typed = cc
sanitize_parameters_of_Clean (arr vs) h typed = cc
