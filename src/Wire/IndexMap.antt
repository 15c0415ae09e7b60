-- ===== src/Wire/IndexMap.antt =====
-- `BTreeMap<u32, V>`, as the list of its entries in ascending order of the keys.
use ai_api_bridge.Prelude.{
  ℕ, ◌≡◌, refl, ◌+◌, Option, none, some, List, [], ◌∷◌, ◌==◌, nat_eq, ltb, if◌then◌else◌, arith,
}

abbrev pub IndexMap : Type 0 → Type 0
IndexMap V = List (ℕ × V)

module _ {V : Type 0} where
  abbrev pub find : ℕ → IndexMap V → Option V
  find k [] = none
  find k ((j, v) ∷ m) = if j == k then some v else find k m

  abbrev pub insert : ℕ → V → IndexMap V → IndexMap V
  insert k v [] = (k, v) ∷ []
  insert k v ((j, w) ∷ m) =
      let later = (j, w) ∷ insert k v m in
      if j == k then (k, v) ∷ m else if ltb k j then (k, v) ∷ (j, w) ∷ m else later

  abbrev pub remove : ℕ → IndexMap V → IndexMap V
  remove k [] = []
  remove k ((j, v) ∷ m) = if j == k then m else (j, v) ∷ remove k m

  -- `get_mut(k)` and a write through it.
  abbrev pub update : ℕ → (V → V) → IndexMap V → IndexMap V
  update k f [] = []
  update k f ((j, v) ∷ m) = if j == k then (j, f v) ∷ m else (j, v) ∷ update k f m

  -- `into_values()`
  abbrev pub values : IndexMap V → List V
  values [] = []
  values ((j, v) ∷ m) = v ∷ values m

  -- The sum of a measure of the values.
  abbrev pub total : (V → ℕ) → IndexMap V → ℕ
  total f [] = 0
  total f ((j, v) ∷ m) = f v + total f m

  pub total-insert :
      (f : V → ℕ) (k : ℕ) (v : V) (m : IndexMap V)
      → find k m ≡ none
      → total f (insert k v m) ≡ f v + total f m
  total-insert f k v [] h = refl
  total-insert f k v ((j, w) ∷ m) h = ground (arith, total-insert f k v m)

  pub total-remove :
      (f : V → ℕ) (k : ℕ) (v : V) (m : IndexMap V)
      → find k m ≡ some v
      → total f m ≡ f v + total f (remove k m)
  total-remove f k v [] h = cc
  total-remove f k v ((j, w) ∷ m) h = ground (arith, total-remove f k v m)

  pub total-update :
      (f : V → ℕ) (k : ℕ) (g : V → V) (m : IndexMap V)
      → ((v : V) → f (g v) ≡ f v)
      → total f (update k g m) ≡ total f m
  total-update f k g [] h = refl
  total-update f k g ((j, w) ∷ m) h = ground (arith, total-update f k g m h, h w)

  pub find-insert :
      (j k : ℕ) (v : V) (m : IndexMap V)
      → find k (insert j v m) ≡ (if j == k then some v else find k m)
  find-insert j k v [] = refl
  find-insert j k v ((i, w) ∷ m) = ground (arith, find-insert j k v m)

  pub find-remove : (j k : ℕ) (m : IndexMap V) → find k m ≡ none → find k (remove j m) ≡ none
  find-remove j k [] h = refl
  find-remove j k ((i, w) ∷ m) h = ground (arith, find-remove j k m)

  pub find-update :
      (j k : ℕ) (f : V → V) (m : IndexMap V) → find k m ≡ none → find k (update j f m) ≡ none
  find-update j k f [] h = refl
  find-update j k f ((i, w) ∷ m) h = ground (arith, find-update j k f m)
