-- ===== src/Json/Laws.antt =====
-- The laws of JSON maps.
use text.Mathlib.TextEquality.{eq_iff}
use ai_api_bridge.Prelude.{
  ◌∙◌, false, string_eq, String, ◌≡◌, refl, none, some, ◌==◌, string_eq, if◌then◌else◌, arith,
}
use ai_api_bridge.Json.{Value, Fields, end, field, lookup, insert, remove}

pub lookup-insert :
    (j k : String) (v : Value) (fs : Fields)
    → lookup k (insert j v fs) ≡ (if j == k then some v else lookup k fs)
lookup-insert j k v end = refl
lookup-insert j k v (field i w fs) =
    ground (arith, eq_iff j k, eq_iff i j, eq_iff i k, lookup-insert j k v fs)

pub lookup-remove :
    (j k : String) (fs : Fields) → lookup k (remove j fs) ≡ (if j == k then none else lookup k fs)
lookup-remove j k end = ground arith
lookup-remove j k (field i w fs) =
    ground (arith, eq_iff j k, eq_iff i j, eq_iff i k, lookup-remove j k fs)

pub lookup-insert_other :
    (j k : String) (v : Value) (fs : Fields)
    → (j == k) ≡ false
    → lookup k (insert j v fs) ≡ lookup k fs
lookup-insert_other j k v fs h = lookup-insert j k v fs ∙ rw h refl

pub lookup-insert_same : (k : String) (v : Value) (fs : Fields) → lookup k (insert k v fs) ≡ some v
lookup-insert_same k v fs = lookup-insert k k v fs ∙ rw ((string_eq.decides k k).1 refl) refl
