-- ===== src/Probe.antt =====
-- Probes of providers (src/probe.rs) and a turn of the watcher's loop (src/watcher.rs). What a file,
-- a Lua script or a ping gives is a parameter.

use Prim.Native.String.{String}
use ai_api_bridge.Prelude.{ℕ, Bool, true, Option, none, some, [], ◌∷◌, map, push_str, ℤ}
use ai_api_bridge.Json.{Value, null, str, object}
use ai_api_bridge.Error.{decimal}
use ai_api_bridge.Config.{
  Float64, ProbeSource, path, text, WireName, openai_chat, openai_responses, anthropic_messages,
  Provider,
}
use ai_api_bridge.Router.{ProviderStatus}
use ai_api_bridge.Store.{Attempt, done, failed, Codecs, Database}
use ai_api_bridge.Store.Tables.{write_status}
use ai_api_bridge.Server.Failover.{default_status, set}
use ai_api_bridge.Server.State.{AppState}

-- The table that a script returns.
pub record ProbeReturn : Type 0 where
  pub is_ok : Bool
  pub remaining : Option Float64
  pub used : Option Float64
  pub limit : Option Float64
  pub note : Option String

-- How the task of a script ends.
pub data Ran : Type 0 where
  returned : ProbeReturn → Ran
  script_failed task_failed : String → Ran

-- How a ping ends: with the status of a response, or without one.
pub data Pinged : Type 0 where
  answered : ℕ → Pinged
  unreachable no_client : String → Pinged

pub data Read : Type 0 where
  contents unreadable : String → Read

unfoldable pub err_status : ℤ → String → ProviderStatus
err_status now msg = record default_status { last_checked = some now; error = some msg }

unfoldable pub wire_str : WireName → String
wire_str openai_chat = "openai-chat"
wire_str openai_responses = "openai-responses"
wire_str anthropic_messages = "anthropic-messages"

abbrev pub header_json : String × String → String × Value
header_json (k, v) = (k, str v)

abbrev pub key_json : Option String → Value
key_json none = null
key_json (some key) = str key

-- What a script gets as `ctx`.
unfoldable pub probe_context : String → Provider → Value
unfolding wire_str
probe_context name provider = object (
    ("name", str name)
    ∷ ("base_url", str provider.base_url)
    ∷ ("api_key", key_json provider.api_key)
    ∷ ("extra_headers", object (map header_json provider.extra_headers))
    ∷ ("wire", str (wire_str provider.wire))
    ∷ [])

abbrev pub of_return : ℤ → ProbeReturn → ProviderStatus
of_return now ret = record {
  available = ret.is_ok;
  quota_remaining = ret.remaining;
  quota_used = ret.used;
  quota_limit = ret.limit;
  last_checked = some now;
  last_ok = ret.is_ok;
  error = none;
  note = ret.note;
}

abbrev pub of_run : ℤ → Ran → ProviderStatus
of_run now (returned ret) = of_return now ret
of_run now (script_failed e) = err_status now e
of_run now (task_failed join) = err_status now (push_str "probe task failed: " join)

-- Any response counts as reachable.
unfoldable pub ping : ℤ → Provider → Pinged → ProviderStatus
unfolding err_status
ping now provider (answered status) = record default_status {
  available = true;
  last_checked = some now;
  last_ok = true;
  note = some (push_str "ping " (push_str provider.base_url (push_str " -> " (decimal 5 status))));
}
ping now provider (unreachable e) = err_status now (push_str "ping failed: " e)
ping now provider (no_client e) = err_status now e

module _ (now : ℤ) (read_file : String → Read) (run_lua : String → Value → Ran)
    (reach : String → Pinged) where
  abbrev pub probe_script : String → Provider → String → ProviderStatus
  probe_script name provider script = of_run now (run_lua script (probe_context name provider))

  abbrev pub pinged : Provider → ProviderStatus
  pinged provider = ping now provider (reach provider.base_url)

  abbrev pub probe_file : String → Provider → String → Read → ProviderStatus
  probe_file name provider file (contents s) = probe_script name provider s
  probe_file name provider file (unreadable e) =
      err_status now (push_str "read " (push_str file (push_str ": " e)))

  abbrev pub probe_from :
      String → Provider → ProbeSource → Option String → Option String → ProviderStatus
  probe_from name provider path (some file) inline = probe_file name provider file (read_file file)
  probe_from name provider path none inline = pinged provider
  probe_from name provider text file (some script) = probe_script name provider script
  probe_from name provider text file none = pinged provider

  unfoldable pub run_probe : String → Provider → ProviderStatus
  unfolding ping probe_context
  run_probe name provider =
      probe_from name provider provider.probe_source provider.probe_script
        provider.probe_script_text

-- A failure to persist a status is logged only.
abbrev pub persisted : Database → Attempt Database → Database
persisted db (done db') = db'
persisted db (failed e) = db

abbrev pub persist : Codecs → String → String → ProviderStatus → Option Database → Option Database
persist json broken name new none = none
persist json broken name new (some db) = some (persisted db (write_status json broken name new db))

-- What a turn of `watch_provider` does with a fresh status.
unfoldable pub watch_turn : Codecs → String → String → ProviderStatus → AppState → AppState
unfolding write_status
watch_turn json broken name new s = record s {
  database = persist json broken name new s.database;
  status = set name new s.status;
}

-- What the task that `mark_degraded` starts does with a fresh status (src/server.rs).
unfoldable pub reprobe_turn : Codecs → String → String → ProviderStatus → AppState → AppState
unfolding write_status
reprobe_turn json broken name new s = record s {
  database = persist json broken name new s.database;
  status = set name new s.status;
}
