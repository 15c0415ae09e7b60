-- ===== src/Server/State.antt =====
-- The shared state of the server (src/server.rs), and how it follows the store: the loading of the
-- configuration, the overrides from the environment, and the probe tasks of src/watcher.rs. A task
-- is its provider; the environment and `to_uppercase` are parameters.
pub mod Laws
use ai_api_bridge.Prelude.{
  String, Bool, true, false, Option, none, some, List, [], ◌∷◌, is_some, if◌then◌else◌, push_str,
}
use ai_api_bridge.Error.{internal, Result, ok, err}
use ai_api_bridge.Config.{Dict, find, Provider, Config, probe_enabled}
use ai_api_bridge.Router.{ProviderStatus}
use ai_api_bridge.Usage.{UsageMeter}
use ai_api_bridge.Store.{Attempt, done, failed, Codecs, Database}
use ai_api_bridge.Store.Tables.{load_into_config}

pub record AppState : Type 0 where
  pub config : Config
  pub database : Option Database
  pub status : Dict ProviderStatus
  pub watchers : Dict Provider
  pub usage : UsageMeter
  pub usage_on : Bool

-- `watcher::spawn`: a task for each provider with probes.
unfoldable pub spawn : Dict Provider → Dict Provider
unfolding probe_enabled
spawn [] = []
spawn ((name, p) ∷ providers) =
    let rest = spawn providers in if probe_enabled p then (name, p) ∷ rest else rest

-- `m.retain(|name, _| providers.contains_key(name))`
unfoldable pub retain_known : Dict Provider → Dict ProviderStatus → Dict ProviderStatus
retain_known providers [] = []
retain_known providers ((name, s) ∷ statuses) =
    let rest = retain_known providers statuses in
    if is_some (find name providers) then (name, s) ∷ rest else rest

module _ (to_uppercase : String → String) (var : String → Option String) where
  abbrev pub env_key : String → String
  env_key name = push_str "BRIDGE_PROVIDERS_" (push_str (to_uppercase name) "_API_KEY")

  abbrev pub override_key : Option String → Provider → Provider
  override_key none p = p
  override_key (some val) p = record p { api_key = some val }

  abbrev pub override_all : Dict Provider → Dict Provider
  override_all [] = []
  override_all ((name, p) ∷ ps) = (name, override_key (var (env_key name)) p) ∷ override_all ps

  unfoldable pub apply_env_overrides : Config → Config
  apply_env_overrides cfg = record cfg { providers = override_all cfg.providers }

  -- The configuration is swapped, the probe tasks are started anew, and the statuses of providers
  -- that are gone are dropped.
  unfoldable pub swap_config : Config → AppState → AppState
  unfolding apply_env_overrides spawn retain_known
  swap_config loaded s =
      let cfg = apply_env_overrides loaded in
      record s {
        config = cfg;
        watchers = spawn cfg.providers;
        status = retain_known cfg.providers s.status;
      }

  module _ (json : Codecs) where
    abbrev pub reloaded : AppState → Attempt Config → Result {0} Unit × AppState
    reloaded s (failed e) = (err (internal (push_str "reload from db: " e)), s)
    reloaded s (done cfg) = (ok tt, swap_config cfg s)

    abbrev pub reload_with : AppState → Option Database → Result {0} Unit × AppState
    reload_with s none = (err (internal "no database handle"), s)
    reload_with s (some db) = reloaded s (load_into_config json db s.config)

    unfoldable pub reload_from_db : AppState → Result {0} Unit × AppState
    unfolding load_into_config swap_config
    reload_from_db s = reload_with s s.database
