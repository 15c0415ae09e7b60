-- ===== src/Server/State/Laws.antt =====
-- A reload of the runtime state (src/server.rs): when it succeeds, and that a second one changes
-- nothing.
use ai_api_bridge.Prelude.{
  String, Option, none, some, unwrap_or, List, [], ◌∷◌, map, is_some, ◌≡◌, refl, sym, ap, ◌∙◌,
  Bool-cases, inl, inr, All,
}
use ai_api_bridge.Error.{Result, ok}
use ai_api_bridge.Config.{Dict, find, Provider, Config}
use ai_api_bridge.Router.{ProviderStatus}
use ai_api_bridge.Store.{done, Codecs, ProviderRow, Database, row_to_provider, row_to_route}
use ai_api_bridge.Store.Tables.{put_entry, load_providers, load_fallback_route, load_into_config}
use ai_api_bridge.Server.State.{
  AppState, retain_known, override_all, apply_env_overrides, swap_config, reload_from_db,
}

-- A row with a known wire format.
abbrev pub IsReadable : Codecs → ProviderRow → Type 0
IsReadable json r = (p : Provider) × (row_to_provider json r ≡ done p)

abbrev pub AllReadable : Codecs → Database → Type 0
AllReadable json db = All (IsReadable json) db.providers

load_readable :
    (json : Codecs) (rows : List ProviderRow) (acc : Dict Provider)
    → All (IsReadable json) rows
    → (ps : Dict Provider) × (load_providers json rows acc ≡ done ps)
load_readable json [] acc h = (acc, refl)
load_readable json (r ∷ rows) acc ((p, e), h) =
    let rest = load_readable json rows (put_entry r.name p acc) h in (rest.0, rw e rest.1)

retain_known_idem :
    (ps : Dict Provider) (statuses : Dict ProviderStatus)
    → retain_known ps (retain_known ps statuses) ≡ retain_known ps statuses
unfolding retain_known
retain_known_idem ps [] = refl
retain_known_idem ps ((name, s) ∷ statuses) = elim (Bool-cases (is_some (find name ps))) [
  | inl e ↦ rw (e, e) (ap (λ l. (name, s) ∷ l) (retain_known_idem ps statuses))
  | inr e ↦ rw e (retain_known_idem ps statuses)
]

unwrap_or_idem : {A : Type 0} (o : Option A) (d : A) → unwrap_or o (unwrap_or o d) ≡ unwrap_or o d
unwrap_or_idem none d = refl
unwrap_or_idem (some a) d = refl

module _ (to_uppercase : String → String) (var : String → Option String) (json : Codecs) where
  abbrev pub reload : AppState → Result {0} Unit × AppState
  reload s = reload_from_db to_uppercase var json s

  -- The configuration that the store gives, with the providers of its rows.
  abbrev stored_config : Database → Dict Provider → Config → Config
  stored_config db ps cfg = record cfg {
    providers = ps;
    routes = map (row_to_route json) db.routes;
    fallback_route = unwrap_or (load_fallback_route json db) cfg.fallback_route;
  }

  reload_stored :
      (s : AppState) (db : Database) (ps : Dict Provider)
      → s.database ≡ some db
      → load_providers json db.providers [] ≡ done ps
      → reload s ≡ (ok tt, swap_config to_uppercase var (stored_config db ps s.config) s)
  unfolding reload_from_db load_into_config
  reload_stored s db ps d e = rw (d, e) refl

  swap_config_idem :
      (db : Database) (ps : Dict Provider) (s : AppState)
      → let swapped = swap_config to_uppercase var (stored_config db ps s.config) s in
        swap_config to_uppercase var (stored_config db ps swapped.config) swapped ≡ swapped
  unfolding swap_config apply_env_overrides
  swap_config_idem db ps s =
      rw
        (
          retain_known_idem (override_all to_uppercase var ps) s.status,
          unwrap_or_idem (load_fallback_route json db) s.config.fallback_route,
        )
        refl

  swap_config_database :
      (cfg : Config) (s : AppState) → (swap_config to_uppercase var cfg s).database ≡ s.database
  unfolding swap_config
  swap_config_database cfg s = refl

  swap_config_retained :
      (cfg : Config) (s : AppState)
      → let t = swap_config to_uppercase var cfg s in
        retain_known t.config.providers t.status ≡ t.status
  unfolding swap_config
  swap_config_retained cfg s = retain_known_idem _ s.status

  -- Where every stored provider can be read, a reload succeeds and keeps the database, and a second
  -- one changes nothing.
  pub reload_from_db_lem :
      (s : AppState) (db : Database)
      → s.database ≡ some db
      → AllReadable json db
      → (t : AppState) × (reload s ≡ (ok tt, t))
        × (t.database ≡ some db)
        × (reload t ≡ (ok tt, record t { status = retain_known t.config.providers t.status }))
  reload_from_db_lem s db d h =
      let (ps, e) = load_readable json db.providers [] h in
      let t = swap_config to_uppercase var (stored_config db ps s.config) s in
      let td = swap_config_database (stored_config db ps s.config) s ∙ d in
      (
        t,
        reload_stored s db ps d e,
        td,
        reload_stored t db ps td e
            ∙ ap (λ u. (ok tt, u)) (swap_config_idem db ps s)
            ∙ ap (λ l. (ok tt, record t { status = l }))
                (sym (swap_config_retained (stored_config db ps s.config) s)),
      )
