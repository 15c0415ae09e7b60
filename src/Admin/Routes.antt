-- ===== src/Admin/Routes.antt =====
-- The routes of the running configuration (src/server.rs) lead to providers that it has.
use mathlib.Core.Option
use ai_api_bridge.Prelude.{
  String, true, Option, none, some, List, [], ◌∷◌, map, ◌==◌, string_eq, is_some, ◌≡◌, refl, sym,
  ap, ◌∙◌, subst, Bool-cases, inl, inr, All,
}
use ai_api_bridge.Error.{ok}
use ai_api_bridge.Config.{Dict, find, Provider, Route, Config}
use ai_api_bridge.Table.{has, select}
use ai_api_bridge.Store.{
  Attempt, done, failed, Codecs, RouteRow, Database, row_to_provider, row_to_route,
}
use ai_api_bridge.Store.Tables.{name_of, route_provider, load_providers, load_into_config}
use ai_api_bridge.Store.Integrity.{Gives, after_attempt}
use ai_api_bridge.Store.Refinement.{view}
use ai_api_bridge.Store.Loading.{view-load_into_config}
use ai_api_bridge.Server.State.{
  AppState, override_all, apply_env_overrides, swap_config, reloaded, reload_with, reload_from_db,
}
use ai_api_bridge.Admin.Laws.{IsSynced}
use ai_api_bridge.Admin.Sound.{both_results}

-- A route whose provider is configured: the router does not skip it.
abbrev pub IsRouted : Config → Route → Type 0
IsRouted cfg r = is_some (find r.provider cfg.providers) ≡ true

is_some-map : {A B : Type 0} (f : A → B) (o : Option A) → is_some (Option.map f o) ≡ is_some o
is_some-map f none = refl
is_some-map f (some a) = refl

is_some-select :
    {A : Type 0} (key : A → String) (k : String) (rows : List A)
    → is_some (select key k rows) ≡ has key k rows
is_some-select key k [] = refl
is_some-select key k (r ∷ rows) = elim (Bool-cases (key r == k)) [
  | inl e ↦ rw e refl
  | inr e ↦ rw e (is_some-select key k rows)
]

nothing_known : {A : Type 0} (a : Attempt A) → Gives (λ x. Unit) a
nothing_known (done x) = tt
nothing_known (failed e) = tt

module _ (to_uppercase : String → String) (var : String → Option String) where
  find-override_all :
      (k : String) (ps : Dict Provider)
      → is_some (find k (override_all to_uppercase var ps)) ≡ is_some (find k ps)
  find-override_all k [] = refl
  find-override_all k ((name, p) ∷ ps) = elim (Bool-cases (name == k)) [
    | inl e ↦ rw e refl
    | inr e ↦ rw e (find-override_all k ps)
  ]

  module _ (json : Codecs) (broken : String) where
    -- What is loaded of a database.
    abbrev Loaded : Database → Config → Type 0
    Loaded db cfg =
        (cfg.routes ≡ map (row_to_route json) db.routes)
        × ((k : String) → Option.map done (find k cfg.providers) ≡ view json db k)

    routes_loaded :
        (db : Database) (cfg : Config)
        → Gives
            (λ loaded. loaded.routes ≡ map (row_to_route json) db.routes)
            (load_into_config json db cfg)
    unfolding load_into_config
    routes_loaded db cfg =
        after_attempt (λ ps. Unit) _ (load_providers json db.providers []) _
          (nothing_known (load_providers json db.providers [])) λ ps h. refl

    -- What a reload that succeeds leaves is what is loaded, with the overrides.
    pub from_load :
        (P : Config → Type 0) (s t : AppState) (a : Attempt Config)
        → Gives P a
        → reloaded to_uppercase var json s a ≡ (ok tt, t)
        → (cfg : Config) × P cfg × (swap_config to_uppercase var cfg s ≡ t)
    from_load P s t (done cfg) h e = (cfg, h, ap (λ r. r.1) e)
    from_load P s t (failed m) h e = cc

    all-IsRouted :
        (db : Database) (cfg : Config) (rows : List RouteRow)
        → ((k : String) → Option.map done (find k cfg.providers) ≡ view json db k)
        → All (λ r. has name_of (route_provider r) db.providers ≡ true) rows
        → All (IsRouted (apply_env_overrides to_uppercase var cfg)) (map (row_to_route json) rows)
    unfolding apply_env_overrides
    all-IsRouted db cfg [] seen h = tt
    all-IsRouted db cfg (r ∷ rows) seen (e, h) =
        let k = route_provider r in
        (
          find-override_all k cfg.providers
              ∙ sym (is_some-map done (find k cfg.providers))
              ∙ ap is_some (seen k)
              ∙ is_some-map (row_to_provider json) (select name_of k db.providers)
              ∙ is_some-select name_of k db.providers
              ∙ e,
          all-IsRouted db cfg rows seen h,
        )

    -- Where the keys of the store are right, its providers can be read, and a reload changes nothing but
    -- statuses of providers that are gone, every route of the running configuration leads to a
    -- provider that it has.
    pub IsSynced-IsRouted :
        (s : AppState)
        → IsSynced to_uppercase var json broken s
        → All (IsRouted s.config) s.config.routes
    unfolding reload_from_db swap_config
    IsSynced-IsRouted s synced =
        let db = synced.store in
        let keys = synced.sound.0 in
        let given =
          both_results (λ c. c.routes ≡ map (row_to_route json) db.routes)
            (λ c. (k : String) → Option.map done (find k c.providers) ≡ view json db k)
            (load_into_config json db s.config) (routes_loaded db s.config)
            (view-load_into_config json db s.config keys) in
        let again =
          sym (ap (reload_with to_uppercase var json s) synced.is_store) ∙ synced.loaded in
        let (cfg, (routes, seen), same) =
          from_load (Loaded db) s _ (load_into_config json db s.config) given again in
        subst (λ t. All (IsRouted t.config) t.config.routes) same
          (subst (All (IsRouted (apply_env_overrides to_uppercase var cfg))) (sym routes)
            (all-IsRouted db cfg db.routes seen keys.routed))
