-- ===== src/Table/Laws.antt =====
-- What the statements on a table keep: its keys are unique, and where rows are found.
use mathlib.Core.Option
use ai_api_bridge.Prelude.{
  String, Bool, true, false, none, some, List, [], ◌∷◌, ◌++◌, ◌==◌, string_eq, if◌then◌else◌,
  contains, ◌≡◌, refl, sym, ap, ap₂, ◌∙◌, subst, Bool-cases, inl, inr,
}
use ai_api_bridge.Table.{keys, has, select, update, delete}

abbrev pub IsUnique : List String → Type 0
IsUnique [] = Unit
IsUnique (k ∷ ks) = (contains ks k ≡ false) × IsUnique ks

pub eq_of : (a b : String) → (a == b) ≡ true → a ≡ b
eq_of a b h = (string_eq.decides a b).0 h

pub eq_same : (a : String) → (a == a) ≡ true
eq_same a = (string_eq.decides a a).1 refl

same_bool : (b c : Bool) → (b ≡ true → c ≡ true) → c ≡ false → b ≡ false
same_bool true c f h = sym (f refl) ∙ h
same_bool false c f h = refl

pub neq_sym : (a b : String) → (a == b) ≡ false → (b == a) ≡ false
neq_sym a b h =
    same_bool (b == a) (a == b) (λ e. subst (λ c. (a == c) ≡ true) (sym (eq_of b a e)) (eq_same a))
      h

pub contains-push :
    (ks : List String) (k j : String)
    → contains (ks ++ k ∷ []) j ≡ (if contains ks j then true else if k == j then true else false)
contains-push [] k j = refl
contains-push (i ∷ ks) k j = elim (Bool-cases (i == j)) [
  | inl e ↦ rw e refl
  | inr e ↦ rw e (contains-push ks k j)
]

pub contains_more :
    (ks : List String) (k j : String) → contains ks j ≡ true → contains (ks ++ k ∷ []) j ≡ true
contains_more ks k j h =
    contains-push ks k j ∙ ap (λ b. if b then true else if k == j then true else false) h

pub IsUnique-push :
    (ks : List String) (k : String) → contains ks k ≡ false → IsUnique ks → IsUnique (ks ++ k ∷ [])
IsUnique-push [] k h u = (refl, tt)
IsUnique-push (i ∷ ks) k h (f, u) = elim (Bool-cases (i == k)) [
  | inl e ↦ cc
  | inr e ↦ (
    contains-push ks k i ∙ rw (f, neq_sym i k e) refl,
    IsUnique-push ks k (sym (ap (λ b. if b then true else contains ks k) e) ∙ h) u,
  )
]

module _ {A : Type 0} (key : A → String) where
  pub keys-push : (rows : List A) (r : A) → keys key (rows ++ r ∷ []) ≡ keys key rows ++ key r ∷ []
  keys-push [] r = refl
  keys-push (s ∷ rows) r = ap (λ l. key s ∷ l) (keys-push rows r)

  pub has-push :
      (rows : List A) (r : A) (j : String)
      → has key j rows ≡ true
      → has key j (rows ++ r ∷ []) ≡ true
  has-push rows r j h =
      ap (λ l. contains l j) (keys-push rows r) ∙ contains_more (keys key rows) (key r) j h

  pub IsUnique-rows :
      (rows : List A) (r : A)
      → has key (key r) rows ≡ false
      → IsUnique (keys key rows)
      → IsUnique (keys key (rows ++ r ∷ []))
  IsUnique-rows rows r h u =
      subst IsUnique (sym (keys-push rows r)) (IsUnique-push (keys key rows) (key r) h u)

  -- An update keeps the keys.
  pub keys-update :
      (k : String) (f : A → A) (rows : List A)
      → ((r : A) → key (f r) ≡ k)
      → keys key (update key k f rows) ≡ keys key rows
  keys-update k f [] h = refl
  keys-update k f (r ∷ rows) h = elim (Bool-cases (key r == k)) [
    | inl e ↦ rw e (ap₂ (λ i l. i ∷ l) (h r ∙ sym (eq_of (key r) k e)) (keys-update k f rows h))
    | inr e ↦ rw e (ap (λ l. key r ∷ l) (keys-update k f rows h))
  ]

  pub has-delete :
      (k j : String) (rows : List A)
      → (k == j) ≡ false
      → has key j (delete key k rows) ≡ has key j rows
  has-delete k j [] h = refl
  has-delete k j (r ∷ rows) h = elim (Bool-cases (key r == k)) [
    | inl e ↦
        rw (e, subst (λ i. (i == j) ≡ false) (sym (eq_of (key r) k e)) h) (has-delete k j rows h)
    | inr e ↦ rw e (ap (λ b. if key r == j then true else b) (has-delete k j rows h))
  ]

  -- Of any other column, too.
  module _ (other : A → String) where
    pub has_fewer :
        (k j : String) (rows : List A)
        → has other j rows ≡ false
        → has other j (delete key k rows) ≡ false
    has_fewer k j [] h = refl
    has_fewer k j (r ∷ rows) h = elim (Bool-cases (other r == j)) [
      | inl e ↦ cc
      | inr e ↦
          let rest =
            has_fewer k j rows (sym (ap (λ b. if b then true else has other j rows) e) ∙ h) in
          elim (Bool-cases (key r == k)) [ inl f ↦ rw f rest | inr f ↦ rw (f, e) rest ]
    ]

    pub IsUnique-delete :
        (k : String) (rows : List A)
        → IsUnique (keys other rows)
        → IsUnique (keys other (delete key k rows))
    IsUnique-delete k [] u = tt
    IsUnique-delete k (r ∷ rows) (f, u) = elim (Bool-cases (key r == k)) [
      | inl e ↦ rw e (IsUnique-delete k rows u)
      | inr e ↦ rw e (has_fewer k (other r) rows f, IsUnique-delete k rows u)
    ]

  -- Where a row is found after each statement.
  pub select-push :
      (j : String) (rows : List A) (r : A)
      → has key (key r) rows ≡ false
      → select key j (rows ++ r ∷ []) ≡ (if key r == j then some r else select key j rows)
  select-push j [] r h = refl
  select-push j (s ∷ rows) r h = elim (Bool-cases (key s == key r)) [
    | inl e ↦ cc
    | inr e ↦
        let ih =
          select-push j rows r (sym (ap (λ b. if b then true else has key (key r) rows) e) ∙ h) in
        elim (Bool-cases (key s == j)) [
          | inl f ↦
              rw (f, neq_sym j (key r) (subst (λ i. (i == key r) ≡ false) (eq_of (key s) j f) e))
                refl
          | inr f ↦ rw f ih
        ]
  ]

  pub select-update :
      (j k : String) (f : A → A) (rows : List A)
      → ((r : A) → key (f r) ≡ k)
      → select key j (update key k f rows)
        ≡ (if k == j then Option.map f (select key j rows) else select key j rows)
  select-update j k f [] h = elim (Bool-cases (k == j)) [ inl e ↦ rw e refl | inr e ↦ rw e refl ]
  select-update j k f (r ∷ rows) h = elim (Bool-cases (key r == k)) [
    | inl e ↦ elim (Bool-cases (k == j)) [
      | inl g ↦ rw (e, h r, g, subst (λ i. (i == j) ≡ true) (sym (eq_of (key r) k e)) g) refl
      | inr g ↦
          rw (e, h r, g, subst (λ i. (i == j) ≡ false) (sym (eq_of (key r) k e)) g)
            (select-update j k f rows h ∙ rw g refl)
    ]
    | inr e ↦ elim (Bool-cases (key r == j)) [
      | inl g ↦ rw (e, g, neq_sym j k (subst (λ i. (i == k) ≡ false) (eq_of (key r) j g) e)) refl
      | inr g ↦ rw (e, g) (select-update j k f rows h)
    ]
  ]

  pub select-delete :
      (j k : String) (rows : List A)
      → select key j (delete key k rows) ≡ (if k == j then none else select key j rows)
  select-delete j k [] = elim (Bool-cases (k == j)) [ inl e ↦ rw e refl | inr e ↦ rw e refl ]
  select-delete j k (r ∷ rows) = elim (Bool-cases (key r == k)) [
    | inl e ↦ elim (Bool-cases (k == j)) [
      | inl g ↦ rw (e, g) (select-delete j k rows ∙ rw g refl)
      | inr g ↦
          rw (e, g, subst (λ i. (i == j) ≡ false) (sym (eq_of (key r) k e)) g)
            (select-delete j k rows ∙ rw g refl)
    ]
    | inr e ↦ elim (Bool-cases (key r == j)) [
      | inl g ↦ rw (e, g, neq_sym j k (subst (λ i. (i == k) ≡ false) (eq_of (key r) j g) e)) refl
      | inr g ↦ rw (e, g) (select-delete j k rows)
    ]
  ]

  pub select_absent :
      (j : String) (rows : List A) → has key j rows ≡ false → select key j rows ≡ none
  select_absent j [] h = refl
  select_absent j (r ∷ rows) h = elim (Bool-cases (key r == j)) [
    | inl e ↦ cc
    | inr e ↦ rw e (select_absent j rows (sym (ap (λ b. if b then true else has key j rows) e) ∙ h))
  ]
