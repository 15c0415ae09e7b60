-- ===== src/Table.antt =====
-- Tables with a primary key, as the statements of src/store.rs use them: `SELECT`, `UPDATE` and
-- `DELETE` with `WHERE <key> = ?`. A table is the list of its rows.

pub mod Laws
use ai_api_bridge.Prelude.{
  ℕ, ◌+◌, String, Bool, not, Option, none, some, List, [], ◌∷◌, map, ◌==◌, string_eq, if◌then◌else◌,
  contains,
}

module _ {A : Type 0} (key : A → String) where
  abbrev pub keys : List A → List String
  keys rows = map key rows

  abbrev pub has : String → List A → Bool
  has k rows = contains (keys rows) k

  abbrev pub select : String → List A → Option A
  select k [] = none
  select k (r ∷ rows) = if key r == k then some r else select k rows

  -- Every row with the key is changed.
  abbrev pub update : String → (A → A) → List A → List A
  update k f [] = []
  update k f (r ∷ rows) = (if key r == k then f r else r) ∷ update k f rows

  abbrev pub delete : String → List A → List A
  delete k [] = []
  delete k (r ∷ rows) = if key r == k then delete k rows else r ∷ delete k rows

  -- `rows_affected` of an update or a delete.
  abbrev pub count : String → List A → ℕ
  count k [] = 0
  count k (r ∷ rows) = (if key r == k then 1 else 0) + count k rows
