-- ===== src/Runtime/Sync.antt =====
-- Which changes of the runtime state of src/server.rs keep it in step with the store.
use mathlib.Core.Option
use ai_api_bridge.Prelude.{String, Bool, Option, some, List, ◌++◌, ◌≡◌, refl, sym, ap, ◌∙◌, subst}
use ai_api_bridge.Error.{ok}
use ai_api_bridge.Config.{Dict, Config}
use ai_api_bridge.Router.{ProviderStatus}
use ai_api_bridge.Usage.{UsageMeter}
use ai_api_bridge.Store.{Attempt, done, failed, Codecs, StatusRow, UsageRow, Database}
use ai_api_bridge.Store.Tables.{load_into_config}
use ai_api_bridge.Store.Integrity.{IsConsistent, Gives}
use ai_api_bridge.Usage.Persistence.{grow, Grown}
use ai_api_bridge.Server.State.{
  AppState, retain_known, swap_config, reloaded, reload_with, reload_from_db,
}
use ai_api_bridge.Admin.Laws.{IsSynced}
use ai_api_bridge.Admin.Routes.{from_load}

abbrev changed : Database → Dict ProviderStatus → UsageMeter → Bool → AppState → AppState
changed db statuses usage usage_on s = record s {
  database = some db;
  status = statuses;
  usage = usage;
  usage_on = usage_on;
}

its_result : {A : Type 0} (a : Attempt A) → Gives (λ x. a ≡ done x) a
its_result (done x) = refl
its_result (failed e) = tt

module _ (to_uppercase : String → String) (var : String → Option String) (json : Codecs)
    (broken : String) (s : AppState) (synced : IsSynced to_uppercase var json broken s) where
  keys_of :
      (rows : List StatusRow) (events : List UsageRow)
      → IsConsistent (record synced.store { statuses = rows })
      → IsConsistent (record synced.store { statuses = rows; usage_events = events })
  keys_of rows events k = record {
    names = k.names;
    aliases = k.aliases;
    statuses = k.statuses;
    routed = k.routed;
    watched = k.watched;
  }

  -- The configuration that was loaded.
  loaded_config :
      (cfg : Config) × (load_into_config json synced.store s.config ≡ done cfg)
      × (swap_config to_uppercase var cfg s
          ≡ record s { status = retain_known s.config.providers s.status })
  unfolding reload_from_db
  loaded_config =
      let a = load_into_config json synced.store s.config in
      from_load to_uppercase var json broken (λ c. a ≡ done c) s _ a (its_result a)
        (sym (ap (reload_with to_uppercase var json s) synced.is_store) ∙ synced.loaded)

  -- The statuses, the meter and the switch may change, and the tables of the statuses and of the usage.
  pub IsSynced-changed :
      (rows : List StatusRow) (events : List UsageRow) (statuses : Dict ProviderStatus)
      (usage : UsageMeter) (usage_on : Bool)
      → IsConsistent (record synced.store { statuses = rows })
      → IsSynced to_uppercase var json broken (record s {
        database = some (record synced.store { statuses = rows; usage_events = events });
        status = statuses;
        usage = usage;
        usage_on = usage_on;
      })
  unfolding reload_from_db load_into_config swap_config
  IsSynced-changed rows events statuses usage usage_on keys =
      let (cfg, e, same) = loaded_config in
      let db = record synced.store { statuses = rows; usage_events = events } in
      let t = changed db statuses usage usage_on s in
      let swapped =
        ap (λ v. changed db (retain_known v.config.providers statuses) usage usage_on v) same in
      record {
        store = db;
        is_store = refl;
        sound = (keys_of rows events keys, synced.sound.1);
        loaded = ap (reloaded to_uppercase var json t) e ∙ ap (λ u. (ok tt, u)) swapped;
      }

  -- The configuration and the probe tasks stay, and the database gets rows of usage.
  pub IsSynced-Grown :
      (t : AppState)
      → t.config ≡ s.config
      → t.watchers ≡ s.watchers
      → Grown s.database t.database
      → IsSynced to_uppercase var json broken t
  IsSynced-Grown t c w (rows, d) =
      let db = synced.store in
      let there = d ∙ ap (Option.map (grow rows)) synced.is_store in
      subst (λ c. IsSynced to_uppercase var json broken (record t { config = c })) (sym c)
        (subst
          (λ w.
            IsSynced to_uppercase var json broken (record t { config = s.config; watchers = w }))
          (sym w)
          (subst
            (λ d.
              IsSynced to_uppercase var json broken
                (record t { config = s.config; watchers = s.watchers; database = d }))
            (sym there)
            (IsSynced-changed db.statuses (db.usage_events ++ rows) t.status t.usage t.usage_on
              synced.sound.0)))
