-- ===== src/Store/Refinement.antt =====
-- The store of src/store.rs as a map from names to providers: what the writes do to it, and that the
-- configuration that is loaded is this map.
use mathlib.Core.Option
use ai_api_bridge.Prelude.{
  String, Bool, true, false, Option, none, some, List, [], ◌∷◌, ◌==◌, string_eq, nat_eq,
  if◌then◌else◌, ◌≡◌, refl, ap, ◌∙◌, subst, Bool-cases, inl, inr, All,
}
use ai_api_bridge.Config.{Provider, Route, RouteTarget, Config, Dict, normalize_usage}
use ai_api_bridge.Router.{ProviderStatus}
use ai_api_bridge.Table.{has, select, count}
use ai_api_bridge.Table.Laws.{eq_of, select-push, select-update, select-delete, select_absent}
use ai_api_bridge.Store.{
  Attempt, done, failed, ◌>>=◌, Codecs, ProviderRow, Database, provider_row, row_to_provider,
}
use ai_api_bridge.Store.Rows.{IsStorable, row_to_provider-provider_row}
use ai_api_bridge.Store.Tables.{
  name_of, insert_provider, update_provider, delete_provider, insert_route, update_route,
  delete_route, write_status, save_fallback_route, prune_usage_events, clear, insert_providers,
  insert_routes, seed_fallback, seed_from_config, alias_of,
}
use ai_api_bridge.Store.Integrity.{Gives, after_attempt}
use ai_api_bridge.Store.Writes.{
  Write, put_provider, change_provider, drop_provider, put_route, change_route, drop_route,
  put_status, put_fallback, put_usage, drop_usage, wipe, seed, run_write,
}

-- A row of the table with the name, read as a provider; reading fails at an unknown wire format.
abbrev pub Providers : Type 0
Providers = String → Option (Attempt Provider)

abbrev pub with_provider : String → Provider → Providers → Providers
with_provider name p ps k = if name == k then some (done (normalize_usage p)) else ps k

abbrev pub with_providers : Dict Provider → Providers → Providers
with_providers [] ps k = ps k
with_providers ((name, p) ∷ more) ps k = with_providers more (with_provider name p ps) k

with_providers_same :
    (more : Dict Provider) {ps qs : Providers}
    → ((k : String) → ps k ≡ qs k)
    → (k : String) → with_providers more ps k ≡ with_providers more qs k
with_providers_same [] h k = h k
with_providers_same ((name, p) ∷ more) h k =
    with_providers_same more
      (λ j. ap (λ old. if name == j then some (done (normalize_usage p)) else old) (h j)) k

pub weaken_result :
    {A : Type 0} {P Q : A → Type 0} (a : Attempt A) → Gives P a → ((x : A) → P x → Q x) → Gives Q a
weaken_result (done x) h f = f x h
weaken_result (failed e) h f = tt

-- What each write means.
abbrev pub meaning : Write → Providers → Providers
meaning (put_provider name p) ps k = with_provider name p ps k
meaning (change_provider name p) ps k =
    if name == k then Option.map (λ old. done (normalize_usage p)) (ps k) else ps k
meaning (drop_provider name) ps k = if name == k then none else ps k
meaning wipe ps k = none
meaning (seed cfg) ps k = with_providers cfg.providers ps k
meaning w ps k = ps k

module _ (json : Codecs) where
  abbrev pub AllStorable : Dict Provider → Type 0
  AllStorable ps = All (λ e. IsStorable json e.1) ps

  abbrev pub AreStorable : Write → Type 0
  AreStorable (put_provider name p) = IsStorable json p
  AreStorable (change_provider name p) = IsStorable json p
  AreStorable (seed cfg) = AllStorable cfg.providers
  AreStorable w = Unit

  abbrev pub view_rows : List ProviderRow → Providers
  view_rows rows k = Option.map (row_to_provider json) (select name_of k rows)

  abbrev pub view : Database → Providers
  view db = view_rows db.providers

  changed :
      (o : Option ProviderRow) (row : ProviderRow) {p : Provider}
      → row_to_provider json row ≡ done p
      → Option.map (row_to_provider json) (Option.map (λ old. row) o)
        ≡ Option.map (λ old. done p) (Option.map (row_to_provider json) o)
  changed none row h = refl
  changed (some old) row h = ap some h

  no_row :
      (b : Bool) (o : Option ProviderRow)
      → Option.map (row_to_provider json) (if b then none else o)
        ≡ (if b then none else Option.map (row_to_provider json) o)
  no_row true o = refl
  no_row false o = refl

  module _ (broken : String) where
    view-insert_provider :
        (name : String) (p : Provider) (db : Database)
        → IsStorable json p
        → Gives
            (λ db'. (k : String) → view db' k ≡ with_provider name p (view db) k)
            (insert_provider json broken name p db)
    unfolding insert_provider provider_row
    view-insert_provider name p db s = elim (Bool-cases (has name_of name db.providers)) [
      | inl e ↦ rw e tt
      | inr e ↦ rw e λ k.
          ap (Option.map (row_to_provider json))
            (select-push name_of k db.providers (provider_row json name p) e)
          ∙ elim (Bool-cases (name == k)) [
            | inl f ↦ rw f (ap some (row_to_provider-provider_row json name p s))
            | inr f ↦ rw f refl
          ]
    ]

    view-update_provider :
        (name : String) (p : Provider) (db : Database) (k : String)
        → IsStorable json p
        → view (update_provider json name p db).1 k ≡ meaning (change_provider name p) (view db) k
    unfolding update_provider provider_row
    view-update_provider name p db k s =
        let row = provider_row json name p in
        ap (Option.map (row_to_provider json))
          (select-update name_of k name (λ old. row) db.providers (λ r. refl))
        ∙ elim (Bool-cases (name == k)) [
          | inl e ↦ rw e (
              changed (select name_of k db.providers) row
                (row_to_provider-provider_row json name p s))
          | inr e ↦ rw e refl
        ]

    view-delete_provider :
        (name : String) (db : Database) (k : String)
        → view (delete_provider name db).1 k ≡ meaning (drop_provider name) (view db) k
    unfolding delete_provider
    view-delete_provider name db k = elim (Bool-cases (has name_of name db.providers)) [
      | inl e ↦ rw e (
          ap (Option.map (row_to_provider json)) (select-delete name_of k name db.providers)
          ∙ no_row (name == k) (select name_of k db.providers))
      | inr e ↦ rw e (elim (Bool-cases (name == k)) [
        | inl f ↦ rw f (
            ap (Option.map (row_to_provider json)) (
              select_absent name_of k db.providers
                (subst (λ j. has name_of j db.providers ≡ false) (eq_of name k f) e)))
        | inr f ↦ rw f refl
      ])
    ]

    view-insert_providers :
        (ps : Dict Provider) (db : Database)
        → AllStorable ps
        → Gives
            (λ db'. (k : String) → view db' k ≡ with_providers ps (view db) k)
            (insert_providers json broken ps db)
    view-insert_providers [] db s = λ k. refl
    view-insert_providers ((name, p) ∷ ps) db (s, more) =
        after_attempt (λ db'. (k : String) → view db' k ≡ with_provider name p (view db) k) _
          (insert_provider json broken name p db) _ (view-insert_provider name p db s)
          λ db' h.
            weaken_result (insert_providers json broken ps db') (view-insert_providers ps db' more)
              λ db'' g k. g k ∙ with_providers_same ps h k

    abbrev pub SameProviders : Database → Database → Type 0
    SameProviders db db' = db'.providers ≡ db.providers

    pub same-insert_route :
        (r : Route) (db : Database) → Gives (SameProviders db) (insert_route json broken r db)
    unfolding insert_route
    same-insert_route r db = elim (Bool-cases (has alias_of r.alias db.routes)) [
      | inl e ↦ rw e tt
      | inr e ↦ elim (Bool-cases (has name_of r.provider db.providers)) [
        | inl f ↦ rw (e, f) refl
        | inr f ↦ rw (e, f) tt
      ]
    ]

    pub same-update_route :
        (alias : String) (r : Route) (db : Database)
        → Gives (λ u. SameProviders db u.1) (update_route json broken alias r db)
    unfolding update_route
    same-update_route alias r db = elim (Bool-cases (count alias_of alias db.routes == 0)) [
      | inl e ↦ rw e refl
      | inr e ↦ elim (Bool-cases (has name_of r.provider db.providers)) [
        | inl f ↦ rw (e, f) refl
        | inr f ↦ rw (e, f) tt
      ]
    ]

    same-write_status :
        (name : String) (s : ProviderStatus) (db : Database)
        → Gives (SameProviders db) (write_status json broken name s db)
    unfolding write_status
    same-write_status name s db = elim (Bool-cases (has name_of name db.providers)) [
      | inl e ↦ rw e refl
      | inr e ↦ rw e tt
    ]

    same-insert_routes :
        (rs : List Route) (db : Database)
        → Gives (SameProviders db) (insert_routes json broken rs db)
    same-insert_routes [] db = refl
    same-insert_routes (r ∷ rs) db =
        after_attempt (SameProviders db) (SameProviders db) (insert_route json broken r db) _
          (same-insert_route r db)
          λ db' h.
            weaken_result (insert_routes json broken rs db') (same-insert_routes rs db')
              λ db'' g. g ∙ h

    same-seed_fallback :
        (fb : Option RouteTarget) (db : Database) → SameProviders db (seed_fallback json fb db)
    unfolding save_fallback_route
    same-seed_fallback none db = refl
    same-seed_fallback (some fb) db = refl

    abbrev Seeded : Dict Provider → Database → Database → Type 0
    Seeded ps db db' = (k : String) → view db' k ≡ with_providers ps (view db) k

    view-seed :
        (cfg : Config) (db : Database)
        → AllStorable cfg.providers
        → Gives (Seeded cfg.providers db) (seed_from_config json broken cfg db)
    unfolding seed_from_config
    view-seed cfg db s =
        let P = Seeded cfg.providers db in
        let routed =
          after_attempt P P (insert_providers json broken cfg.providers db)
            (insert_routes json broken cfg.routes) (view-insert_providers cfg.providers db s)
            λ db' h.
              weaken_result (insert_routes json broken cfg.routes db')
                (same-insert_routes cfg.routes db')
                λ db'' g k. ap (λ rows. view_rows rows k) g ∙ h k in
        after_attempt P P
          (insert_providers json broken cfg.providers db >>= insert_routes json broken cfg.routes) _
          routed
          λ db' h k. ap (λ rows. view_rows rows k) (same-seed_fallback cfg.fallback_route db') ∙ h k

    -- Where the providers that are written can be stored, a write that does not fail does to the map
    -- of stored providers what it means: an insert adds one, an update changes one that is there, a
    -- delete removes one, a seed adds all of the configuration, and every other write keeps the map.
    pub view-run_write :
        (w : Write) (db : Database)
        → AreStorable w
        → Gives
            (λ db'. (k : String) → view db' k ≡ meaning w (view db) k)
            (run_write json broken w db)
    unfolding prune_usage_events clear save_fallback_route delete_route
    view-run_write (put_provider name p) db s = view-insert_provider name p db s
    view-run_write (change_provider name p) db s = λ k. view-update_provider name p db k s
    view-run_write (drop_provider name) db s = λ k. view-delete_provider name db k
    view-run_write (put_route r) db s =
        weaken_result (insert_route json broken r db) (same-insert_route r db)
          λ db' g k. ap (λ rows. view_rows rows k) g
    view-run_write (change_route alias r) db s =
        after_attempt (λ u. SameProviders db u.1) _ (update_route json broken alias r db) _
          (same-update_route alias r db) λ u g k. ap (λ rows. view_rows rows k) g
    view-run_write (drop_route alias) db s = λ k. refl
    view-run_write (put_status name st) db s =
        weaken_result (write_status json broken name st db) (same-write_status name st db)
          λ db' g k. ap (λ rows. view_rows rows k) g
    view-run_write (put_fallback fb) db s = λ k. refl
    view-run_write (put_usage p ts kind amount) db s = λ k. refl
    view-run_write (drop_usage before) db s = λ k. refl
    view-run_write wipe db s = λ k. refl
    view-run_write (seed cfg) db s = view-seed cfg db s
