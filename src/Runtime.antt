-- ===== src/Runtime.antt =====
-- The processes that share the state of src/server.rs: the requests of clients and of the admin
-- interface, the switch for usage, the turns of the watcher, the re-probes that a failed attempt
-- leaves behind, and the marks and charges of requests that are still served. A run is a sequence of
-- their steps.
pub mod Sync
pub mod Reach
use ai_api_bridge.Prelude.{ℕ, ℤ, String, Bool, Option, List}
use ai_api_bridge.Json.{Value}
use ai_api_bridge.Router.{ProviderStatus, Resolved}
use ai_api_bridge.Store.{Codecs}
use ai_api_bridge.Server.State.{AppState}
use ai_api_bridge.Server.Handlers.{
  Host, Format, watched, ledger_of, left, translating_handler, chat_handler,
}
use ai_api_bridge.Server.Failover.{mark_degraded}
use ai_api_bridge.Error.{BridgeError}
use ai_api_bridge.Config.{Float64, UsageKind, ModelPrice}
use ai_api_bridge.Usage.{Floats, record_amounts}
use ai_api_bridge.Admin.Handlers.{Headers, AdminWrite, handle, set_usage}
use ai_api_bridge.Probe.{watch_turn, reprobe_turn}

module _ (to_uppercase : String → String) (var : String → Option String) (json : Codecs)
    (broken : String) where
  -- A re-probe is never stopped, so it may end when its provider is gone; so may a turn of the watcher
  -- that was under way. The result of a probe is arbitrary.
  pub data Step : AppState → AppState → Type 0 where
    write :
        (w : AdminWrite) (headers : Headers) (s : AppState)
        → Step s (handle to_uppercase var json broken w headers s).1
    toggle :
        (enabled : Bool) (headers : Headers) (s : AppState) → Step s (set_usage enabled headers s).1
    probe :
        (name : String) (new : ProviderStatus) (s : AppState)
        → Step s (watch_turn json broken name new s)
    reprobe :
        (name : String) (new : ProviderStatus) (s : AppState)
        → Step s (reprobe_turn json broken name new s)
    translate :
        (host : Host) (format : Format) (authorization x_api_key : Option String) (body : Value)
        (s : AppState)
        → Step s (translating_handler host format authorization x_api_key body s).state
    forward :
        (host : Host) (authorization x_api_key : Option String) (body : Value) (s : AppState)
        → Step s (chat_handler host authorization x_api_key body s).state
    -- What a request that is still served does between the steps of others.
    mark :
        (has_pool : Bool) (cand : Resolved) (e : BridgeError) (s : AppState)
        → Step s (record s { status = (mark_degraded has_pool cand e (watched s)).status })
    charge :
        (F : Floats) (provider : String) (kinds : List (UsageKind × Option ModelPrice))
        (cost : Option Float64) (pt ct : Option ℕ) (now : ℤ) (s : AppState)
        → Step s (left s (watched s) (record_amounts F provider kinds cost pt ct now (ledger_of s)))

  pub data Steps : AppState → AppState → Type 0 where
    stay : (s : AppState) → Steps s s
    next : {s t u : AppState} → Step s t → Steps t u → Steps s u
