-- ===== src/Store/Integrity.antt =====
-- The keys of the tables of src/store.rs: what every write keeps.
use ai_api_bridge.Prelude.{
  String, true, List, [], ◌∷◌, contains, ◌==◌, string_eq, nat_eq, ◌≡◌, refl, sym, ◌∙◌, subst,
  Bool-cases, inl, inr, All,
}
use ai_api_bridge.Config.{Provider}
use ai_api_bridge.Table.{keys, has, update, delete}
use ai_api_bridge.Table.Laws.{
  IsUnique, neq_sym, has-push, IsUnique-rows, keys-update, has-delete, IsUnique-delete,
}
use ai_api_bridge.Store.{Attempt, done, failed, ◌>>=◌, Codecs, ProviderRow, Database, provider_row}
use ai_api_bridge.Store.Tables.{
  name_of, alias_of, route_provider, status_of, insert_provider, update_provider, delete_provider,
}

-- The primary keys are unique, and the foreign keys refer to providers.
pub record IsConsistent (db : Database) : Type 0 where
  pub names : IsUnique (keys name_of db.providers)
  pub aliases : IsUnique (keys alias_of db.routes)
  pub statuses : IsUnique (keys status_of db.statuses)
  pub routed : All (λ r. has name_of (route_provider r) db.providers ≡ true) db.routes
  pub watched : All (λ r. has name_of (status_of r) db.providers ≡ true) db.statuses

module _ {A : Type 0} {P Q : A → Type 0} where
  All-imp : ((a : A) → P a → Q a) → (rows : List A) → All P rows → All Q rows
  All-imp f [] h = tt
  All-imp f (r ∷ rows) (p, h) = (f r p, All-imp f rows h)

module _ {A : Type 0} (key : A → String) (P : A → Type 0) where
  pub All-update :
      (k : String) (f : A → A) (rows : List A)
      → ((r : A) → P (f r))
      → All P rows
      → All P (update key k f rows)
  All-update k f [] g h = tt
  All-update k f (r ∷ rows) g (p, h) = elim (Bool-cases (key r == k)) [
    | inl e ↦ rw e (g r, All-update k f rows g h)
    | inr e ↦ rw e (p, All-update k f rows g h)
  ]

  pub All-delete : (k : String) (rows : List A) → All P rows → All P (delete key k rows)
  All-delete k [] h = tt
  All-delete k (r ∷ rows) (p, h) = elim (Bool-cases (key r == k)) [
    | inl e ↦ rw e (All-delete k rows h)
    | inr e ↦ rw e (p, All-delete k rows h)
  ]

module _ {A : Type 0} (key : A → String) where
  -- What refers to other providers than the deleted one still does.
  All-cascade :
      (name : String) (ps : List ProviderRow) (rows : List A)
      → All (λ r. has name_of (key r) ps ≡ true) rows
      → All (λ r. has name_of (key r) (delete name_of name ps) ≡ true) (delete key name rows)
  All-cascade name ps [] h = tt
  All-cascade name ps (r ∷ rows) (p, h) = elim (Bool-cases (key r == name)) [
    | inl e ↦ rw e (All-cascade name ps rows h)
    | inr e ↦ rw e (
      has-delete name_of name (key r) ps (neq_sym (key r) name e) ∙ p,
      All-cascade name ps rows h,
    )
  ]

  pub IsUnique-update :
      (k : String) (f : A → A) (rows : List A)
      → ((r : A) → key (f r) ≡ k)
      → IsUnique (keys key rows)
      → IsUnique (keys key (update key k f rows))
  IsUnique-update k f rows h u = subst IsUnique (sym (keys-update key k f rows h)) u

-- A property of every result that is not a failure.
abbrev pub Gives : {A : Type 0} → (A → Type 0) → Attempt A → Type 0
Gives P (done a) = P a
Gives P (failed e) = Unit

pub after_attempt :
    {A B : Type 0} (P : A → Type 0) (Q : B → Type 0) (a : Attempt A) (k : A → Attempt B)
    → Gives P a
    → ((x : A) → P x → Gives Q (k x))
    → Gives Q (a >>= k)
after_attempt P Q (done a) k h f = f a h
after_attempt P Q (failed e) k h f = tt

module _ (json : Codecs) (broken : String) where
  pub insert_provider_keys :
      (name : String) (p : Provider) (db : Database)
      → IsConsistent db
      → Gives IsConsistent (insert_provider json broken name p db)
  unfolding insert_provider provider_row
  insert_provider_keys name p db c = elim (Bool-cases (has name_of name db.providers)) [
    | inl e ↦ rw e tt
    | inr e ↦ rw e (record {
      names = IsUnique-rows name_of db.providers (provider_row json name p) e c.names;
      aliases = c.aliases;
      statuses = c.statuses;
      routed =
          All-imp (λ r. has-push name_of db.providers (provider_row json name p) (route_provider r))
            db.routes c.routed;
      watched =
          All-imp (λ r. has-push name_of db.providers (provider_row json name p) (status_of r))
            db.statuses c.watched;
    })
  ]

  pub update_provider_keys :
      (name : String) (p : Provider) (db : Database)
      → IsConsistent db
      → IsConsistent (update_provider json name p db).1
  unfolding update_provider provider_row
  update_provider_keys name p db c =
      let row = provider_row json name p in
      let same = keys-update name_of name (λ old. row) db.providers (λ r. refl) in
      record {
        names = subst IsUnique (sym same) c.names;
        aliases = c.aliases;
        statuses = c.statuses;
        routed =
            subst (λ ks. All (λ r. contains ks (route_provider r) ≡ true) db.routes) (sym same)
              c.routed;
        watched =
            subst (λ ks. All (λ r. contains ks (status_of r) ≡ true) db.statuses) (sym same)
              c.watched;
      }

  pub delete_provider_keys :
      (name : String) (db : Database) → IsConsistent db → IsConsistent (delete_provider name db).1
  unfolding delete_provider
  delete_provider_keys name db c = elim (Bool-cases (has name_of name db.providers)) [
    | inl e ↦ rw e (record {
      names = IsUnique-delete name_of name_of name db.providers c.names;
      aliases = IsUnique-delete route_provider alias_of name db.routes c.aliases;
      statuses = IsUnique-delete status_of status_of name db.statuses c.statuses;
      routed = All-cascade route_provider name db.providers db.routes c.routed;
      watched = All-cascade status_of name db.providers db.statuses c.watched;
    })
    | inr e ↦ rw e c
  ]
