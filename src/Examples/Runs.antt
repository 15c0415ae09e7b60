-- ===== src/Examples/Runs.antt =====
-- Runs of the shared state, and what is shown of it.
use ai_api_bridge.Prelude.{pos, ◌≡◌, none, some, true, All}
use ai_api_bridge.Json.{Value, str}
use ai_api_bridge.Config.{Float64}
use ai_api_bridge.Router.{ProviderStatus}
use ai_api_bridge.Probe.{reprobe_turn}
use ai_api_bridge.Server.Failover.{default_status}
use ai_api_bridge.Server.State.{AppState}
use ai_api_bridge.Server.Views.{list_providers, providers_status}
use ai_api_bridge.Server.Views.Secrecy.{hide_keys, listings-hide_keys}
use ai_api_bridge.Server.Handlers.{responses, translating_handler}
use ai_api_bridge.Admin.Handlers.{remove_provider, handle}
use ai_api_bridge.Admin.Laws.{IsSynced}
use ai_api_bridge.Admin.Routes.{IsRouted, IsSynced-IsRouted}
use ai_api_bridge.Runtime.{Steps, write, reprobe, translate, stay, next}
use ai_api_bridge.Runtime.Reach.{Steps-IsSynced}
use ai_api_bridge.Examples.Metering.{whole_numbers}
use ai_api_bridge.Examples.Managed.{texts, upper, unset, running, running-IsSynced, with_token}
use ai_api_bridge.Examples.Handled.{host, hello}

-- A client asks, the provider is removed, and a re-probe of it ends.
abbrev asked : AppState
asked = (translating_handler host (responses host) none (some "secret") hello running).state

abbrev removed : AppState
removed = (handle upper unset texts "broken" (remove_provider "a") with_token asked).1

abbrev fresh : ProviderStatus
fresh = record default_status { available = true; last_ok = true }

abbrev reprobed : AppState
reprobed = reprobe_turn texts "broken" "a" fresh removed

abbrev a_run : Steps upper unset texts "broken" running reprobed
a_run = next (translate host (responses host) none (some "secret") hello running) (
    next (write (remove_provider "a") with_token asked)
      (next (reprobe "a" fresh removed) (stay reprobed)))

Steps-IsSynced_example : IsSynced upper unset texts "broken" reprobed
Steps-IsSynced_example = Steps-IsSynced upper unset texts "broken" a_run running-IsSynced

IsSynced-IsRouted_example : All (IsRouted running.config) running.config.routes
IsSynced-IsRouted_example = IsSynced-IsRouted upper unset texts "broken" running running-IsSynced

abbrev shown : Float64 → Value
shown f = str "0"

listings-hide_keys_example :
    (list_providers whole_numbers shown (pos 0) with_token (hide_keys running)
      ≡ list_providers whole_numbers shown (pos 0) with_token running)
    × (providers_status whole_numbers shown (pos 0) (hide_keys running)
        ≡ providers_status whole_numbers shown (pos 0) running)
listings-hide_keys_example = listings-hide_keys whole_numbers shown (pos 0) running with_token
