-- ===== src/Store/Loading.antt =====
-- The providers that `load_into_config` of src/store.rs reads from the tables.
use mathlib.Core.Option
use ai_api_bridge.Prelude.{
  String, false, Option, none, some, or_else, List, [], ◌∷◌, ◌==◌, string_eq, nat_eq, if◌then◌else◌,
  ◌≡◌, refl, ap, ◌∙◌, subst, Bool-cases, inl, inr,
}
use ai_api_bridge.Config.{Provider, Config, Dict, find}
use ai_api_bridge.Table.{keys, has}
use ai_api_bridge.Table.Laws.{IsUnique, eq_of, neq_sym, select_absent}
use ai_api_bridge.Store.{
  Attempt, done, failed, ◌>>=◌, Codecs, ProviderRow, Database, row_to_provider,
}
use ai_api_bridge.Store.Tables.{name_of, put_entry, load_providers, load_into_config}
use ai_api_bridge.Store.Integrity.{IsConsistent, Gives, after_attempt}
use ai_api_bridge.Store.Refinement.{view_rows, view, weaken_result}

or_nothing : {A : Type 0} (o : Option A) → or_else o none ≡ o
or_nothing none = refl
or_nothing (some a) = refl

find-put_entry :
    {V : Type 0} (j k : String) (v : V) (m : Dict V)
    → find k (put_entry j v m) ≡ (if j == k then some v else find k m)
find-put_entry j k v [] = refl
find-put_entry j k v ((i, w) ∷ m) = elim (Bool-cases (i == j)) [
  | inl e ↦
      rw (e, eq_of i j e) (elim (Bool-cases (j == k)) [ inl f ↦ rw f refl | inr f ↦ rw f refl ])
  | inr e ↦ elim (Bool-cases (i == k)) [
    | inl f ↦ rw (e, f, neq_sym k j (subst (λ c. (c == j) ≡ false) (eq_of i k f) e)) refl
    | inr f ↦ rw (e, f) (find-put_entry j k v m)
  ]
]

module _ (json : Codecs) where
  abbrev Loads : List ProviderRow → Dict Provider → Dict Provider → Type 0
  Loads rows acc ps =
      (k : String)
      → Option.map done (find k ps) ≡ or_else (view_rows json rows k) (Option.map done (find k acc))

  after_row :
      (r : ProviderRow) (rows : List ProviderRow) (acc ps : Dict Provider) (p : Provider)
      → row_to_provider json r ≡ done p
      → has name_of r.name rows ≡ false
      → Loads rows (put_entry r.name p acc) ps
      → Loads (r ∷ rows) acc ps
  after_row r rows acc ps p h f g k =
      g k
      ∙ ap (λ o. or_else (view_rows json rows k) (Option.map done o))
          (find-put_entry r.name k p acc)
      ∙ elim (Bool-cases (r.name == k)) [
        | inl e ↦
            rw
              (
                e,
                h,
                select_absent name_of k rows
                    (subst (λ j. has name_of j rows ≡ false) (eq_of r.name k e) f),
              )
              refl
        | inr e ↦ rw e refl
      ]

  -- A row that can be read, then the others.
  view_row :
      (r : ProviderRow) (rows : List ProviderRow) (acc : Dict Provider) (a : Attempt Provider)
      → row_to_provider json r ≡ a
      → has name_of r.name rows ≡ false
      → ((acc' : Dict Provider) → Gives (Loads rows acc') (load_providers json rows acc'))
      → Gives (Loads (r ∷ rows) acc) (a >>= λ p. load_providers json rows (put_entry r.name p acc))
  view_row r rows acc (failed e) h f ih = tt
  view_row r rows acc (done p) h f ih =
      weaken_result (load_providers json rows (put_entry r.name p acc))
        (ih (put_entry r.name p acc)) λ ps. after_row r rows acc ps p h f

  view-load_providers :
      (rows : List ProviderRow) (acc : Dict Provider)
      → IsUnique (keys name_of rows)
      → Gives (Loads rows acc) (load_providers json rows acc)
  view-load_providers [] acc u = λ k. refl
  view-load_providers (r ∷ rows) acc (f, u) =
      view_row r rows acc (row_to_provider json r) refl f λ acc'. view-load_providers rows acc' u

  -- Where the names are unique, a configuration that is loaded has exactly the stored providers.
  pub view-load_into_config :
      (db : Database) (cfg : Config)
      → IsConsistent db
      → Gives
          (λ loaded. (k : String) → Option.map done (find k loaded.providers) ≡ view json db k)
          (load_into_config json db cfg)
  unfolding load_into_config
  view-load_into_config db cfg c =
      after_attempt _ _ (load_providers json db.providers []) _
        (view-load_providers db.providers [] c.names) λ ps g k. g k ∙ or_nothing (view json db k)
