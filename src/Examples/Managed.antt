-- ===== src/Examples/Managed.antt =====
-- Runs of the store and of the admin interface.
use ai_api_bridge.Prelude.{pos, String, ◌≡◌, refl, Option, none, some, List, [], ◌∷◌, true}
use ai_api_bridge.Error.{unauthorized, ok, err}
use ai_api_bridge.Server.Auth.{check_auth}
use ai_api_bridge.Usage.{Ledger, record_amounts}
use ai_api_bridge.Usage.Charges.{horizon, Charged, record_amounts-Charged}
use ai_api_bridge.Examples.Metering.{whole_numbers}
use ai_api_bridge.Config.{
  UsageKind, count, token, ModelPrice, wire_parse, wire_as_str, RouteTarget, normalize_usage,
}
use ai_api_bridge.Store.{
  str_to_probe_source, done, Codec, Codecs, Database, provider_row, row_to_provider,
}
use ai_api_bridge.Store.Rows.{IsStorable, row_to_provider-provider_row}
use ai_api_bridge.Store.Integrity.{IsConsistent, Gives}
use ai_api_bridge.Store.Writes.{seed, run_write}
use ai_api_bridge.Store.Refinement.{meaning, view, view-run_write}
use ai_api_bridge.Server.State.{AppState, retain_known, reload_from_db}
use ai_api_bridge.Admin.Handlers.{Headers, remove_provider, authorized, handle}
use ai_api_bridge.Admin.Laws.{IsSynced, Refused, handle-Refused, handle_unauthorized}
use ai_api_bridge.Examples.Candidates.{provider, config}

-- Texts that read back as no entries.
abbrev no_entries : {A : Type 0} → Codec (List A)
no_entries = record { to_string = λ l. "[]"; from_str = λ s. some [] }

abbrev no_target : Codec (Option RouteTarget)
no_target = record { to_string = λ o. "null"; from_str = λ s. some none }

abbrev pub texts : Codecs
texts = record {
  headers = no_entries;
  cost_windows = no_entries;
  models = no_entries;
  model_prices = no_entries;
  usage = no_entries;
  targets = no_entries;
  target = no_target;
}

provider-IsStorable : IsStorable texts provider
provider-IsStorable = record {
  headers = refl;
  cost_windows = refl;
  models = refl;
  model_prices = refl;
  usage = refl;
  interval = tt;
}

row_to_provider-provider_row_example :
    row_to_provider texts (provider_row texts "a" provider) ≡ done (normalize_usage provider)
row_to_provider-provider_row_example =
    row_to_provider-provider_row texts "a" provider provider-IsStorable

abbrev empty_store : Database
empty_store = record {
  providers = [];
  routes = [];
  settings = [];
  statuses = [];
  usage_events = [];
}

view-run_write_example :
    Gives
      (λ db. (k : String) → view texts db k ≡ meaning (seed config) (view texts empty_store) k)
      (run_write texts "broken" (seed config) empty_store)
view-run_write_example =
    view-run_write texts "broken" (seed config) empty_store
      (provider-IsStorable, (provider-IsStorable, tt))

-- One provider with a route.
abbrev store : Database
store = record empty_store {
  providers = provider_row texts "a" provider ∷ [];
  routes = record { alias = "gpt"; provider = "a"; model = "large"; fallback = "[]" } ∷ [];
}

store-IsConsistent : IsConsistent store
unfolding provider_row
store-IsConsistent = record {
  names = (refl, tt);
  aliases = (refl, tt);
  statuses = tt;
  routed = (refl, tt);
  watched = tt;
}

abbrev pub upper : String → String
upper s = s

abbrev pub unset : String → Option String
unset s = none

abbrev pub running : AppState
running = record {
  config = record config {
    auth_token = some "secret";
    providers = ("a", provider) ∷ [];
    fallback_route = none;
  };
  database = some store;
  status = [];
  watchers = [];
  usage = [];
  usage_on = true;
}

abbrev pub with_token : Headers
with_token = record { authorization = none; x_api_key = some "secret" }

abbrev without_token : Headers
without_token = record { authorization = none; x_api_key = none }

running_loaded :
    reload_from_db upper unset texts running
    ≡ (ok tt, record running { status = retain_known running.config.providers running.status })
unfolding reload_from_db provider_row row_to_provider wire_parse wire_as_str normalize_usage
    str_to_probe_source
running_loaded = refl

pub running-IsSynced : IsSynced upper unset texts "broken" running
unfolding provider_row normalize_usage
running-IsSynced = record {
  store = store;
  is_store = refl;
  sound = (
    store-IsConsistent,
    ((provider, row_to_provider-provider_row texts "a" provider provider-IsStorable), tt),
  );
  loaded = running_loaded;
}

handle-Refused_example :
    Refused upper unset texts "broken" running
      (handle upper unset texts "broken" (remove_provider "b") with_token running)
handle-Refused_example =
    handle-Refused upper unset texts "broken" (remove_provider "b") with_token running
      running-IsSynced

no_token : authorized without_token running ≡ err (unauthorized "invalid bridge auth token")
unfolding check_auth
no_token = refl

handle_unauthorized_example :
    handle upper unset texts "broken" (remove_provider "a") without_token running
    ≡ (err (unauthorized "invalid bridge auth token"), running)
handle_unauthorized_example =
    handle_unauthorized upper unset texts "broken" (remove_provider "a") without_token running
      (unauthorized "invalid bridge auth token") no_token

abbrev ledger : Ledger
ledger = record { meter = []; database = some store }

abbrev kinds : List (UsageKind × Option ModelPrice)
kinds = (count, none) ∷ (token, none) ∷ []

record_amounts-Charged_example :
    Charged
      (horizon (pos 5000000))
      []
      store
      (record_amounts whole_numbers "a" kinds none (some 3) (some 4) (pos 5000000) ledger)
record_amounts-Charged_example =
    record_amounts-Charged whole_numbers "a" kinds none (some 3) (some 4) (pos 5000000) store ledger
      refl
