-- ===== src/Store.antt =====
-- The rows of the SQLite store (src/store.rs) and how providers become rows and rows become
-- providers. The JSON text of a column is written and read by parameters.
pub mod Tables
pub mod Integrity
pub mod Rows
pub mod Refinement
pub mod Writes
pub mod Loading
use ai_api_bridge.Prelude.{
  ℕ, ◌-◌, ◌^◌, suc, String, Bool, true, false, not, Option, none, some, List, [], ◌==◌, string_eq,
  nat_eq, if◌then◌else◌, push_str, unwrap_or, ltb, ℤ, pos, negsuc,
}
use mathlib.Core.Option
use ai_api_bridge.Config.{
  Float64, Dict, WireName, wire_as_str, wire_parse, ProbeSource, path, text, ModelPrice, CostWindow,
  UsageSpec, Provider, normalize_usage, RouteTarget, Route,
}
use ai_api_bridge.Router.{ProviderStatus}

-- `anyhow::Result`, with the error's text.
pub data Attempt (A : Type 0) : Type 0 where
  done : A → Attempt A
  failed : String → Attempt A

infixl 5 ◌>>=◌
abbrev pub ◌>>=◌ : {A B : Type 0} → Attempt A → (A → Attempt B) → Attempt B
done a >>= k = k a
failed e >>= k = failed e

-- `serde_json::to_string` and `from_str` at a type.
pub record Codec (A : Type 0) : Type 0 where
  pub to_string : A → String
  pub from_str : String → Option A

-- At the types of the JSON columns.
pub record Codecs : Type 0 where
  pub headers : Codec (Dict String)
  pub cost_windows : Codec (List CostWindow)
  pub models : Codec (List String)
  pub model_prices : Codec (Dict ModelPrice)
  pub usage : Codec (List UsageSpec)
  pub targets : Codec (List RouteTarget)
  pub target : Codec (Option RouteTarget)

pub record ProviderRow : Type 0 where
  pub name : String
  pub wire : String
  pub base_url : String
  pub api_key : Option String
  pub model_prefix : Option String
  pub max_tokens_field : String
  pub extra_headers : String
  pub probe_script : Option String
  pub probe_enabled : Option ℤ
  pub probe_script_text : Option String
  pub probe_source : String
  pub probe_interval_secs : Option ℤ
  pub quota_min : Option Float64
  pub cost_windows : String
  pub models : String
  pub model_prices : String
  pub usage : String

pub record RouteRow : Type 0 where
  pub alias : String
  pub provider : String
  pub model : String
  pub fallback : String

pub record StatusRow : Type 0 where
  pub provider : String
  pub available : ℤ
  pub quota_remaining : Option Float64
  pub quota_used : Option Float64
  pub quota_limit : Option Float64
  pub last_checked : Option ℤ
  pub last_ok : ℤ
  pub error : Option String
  pub note : Option String

pub record UsageRow : Type 0 where
  pub provider : String
  pub ts : ℤ
  pub usage_type : String
  pub amount : Float64

-- The tables. The only key of `settings` that the program uses is `fallback_route`.
pub record Database : Type 0 where
  pub providers : List ProviderRow
  pub routes : List RouteRow
  pub settings : Dict String
  pub statuses : List StatusRow
  pub usage_events : List UsageRow

abbrev pub wire_to_str : WireName → String
wire_to_str w = wire_as_str w

abbrev pub known_wire : String → Option WireName → Attempt WireName
known_wire s none = failed (push_str "unknown wire format in DB: " s)
known_wire s (some w) = done w

unfoldable pub str_to_wire : String → Attempt WireName
str_to_wire s = known_wire s (wire_parse s)

unfoldable pub probe_source_to_str : ProbeSource → String
probe_source_to_str path = "path"
probe_source_to_str text = "text"

unfoldable pub str_to_probe_source : String → ProbeSource
str_to_probe_source s = if s == "text" then text else path

-- `b as i64`
abbrev pub of_bool : Bool → ℤ
of_bool b = if b then pos 1 else pos 0

-- `n != 0`
abbrev pub to_bool : ℤ → Bool
to_bool (pos n) = not (n == 0)
to_bool (negsuc n) = true

-- `s as i64` of a `u64`, and `s as u64` of an `i64`
unfoldable pub as_i64 : ℕ → ℤ
as_i64 n = if ltb n (2 ^ 63) then pos n else negsuc (2 ^ 64 - n - 1)

unfoldable pub as_u64 : ℤ → ℕ
as_u64 (pos n) = n
as_u64 (negsuc n) = 2 ^ 64 - suc n

module _ (json : Codecs) where
  -- What the statements bind for a provider.
  unfoldable pub provider_row : String → Provider → ProviderRow
  unfolding probe_source_to_str as_i64
  provider_row name p = record {
    name = name;
    wire = wire_to_str p.wire;
    base_url = p.base_url;
    api_key = p.api_key;
    model_prefix = p.model_prefix;
    max_tokens_field = p.max_tokens_field;
    extra_headers = json.headers.to_string p.extra_headers;
    probe_script = p.probe_script;
    probe_enabled = Option.map of_bool p.probe_enabled;
    probe_script_text = p.probe_script_text;
    probe_source = probe_source_to_str p.probe_source;
    probe_interval_secs = Option.map as_i64 p.probe_interval_secs;
    quota_min = p.quota_min;
    cost_windows = json.cost_windows.to_string p.cost_windows;
    models = json.models.to_string p.models;
    model_prices = json.model_prices.to_string p.model_prices;
    usage = json.usage.to_string p.usage;
  }

  -- The fields of a row; a JSON column that cannot be read has the default of its type.
  abbrev pub read_row : WireName → ProviderRow → Provider
  read_row wire r = record {
    wire = wire;
    base_url = r.base_url;
    api_key = r.api_key;
    model_prefix = r.model_prefix;
    max_tokens_field = r.max_tokens_field;
    extra_headers = unwrap_or (json.headers.from_str r.extra_headers) [];
    probe_script = r.probe_script;
    probe_script_text = r.probe_script_text;
    probe_source = str_to_probe_source r.probe_source;
    probe_enabled = Option.map to_bool r.probe_enabled;
    probe_interval_secs = Option.map as_u64 r.probe_interval_secs;
    quota_min = r.quota_min;
    cost_windows = unwrap_or (json.cost_windows.from_str r.cost_windows) [];
    model_prices = unwrap_or (json.model_prices.from_str r.model_prices) [];
    usage = unwrap_or (json.usage.from_str r.usage) [];
    models = unwrap_or (json.models.from_str r.models) [];
  }

  unfoldable pub row_to_provider : ProviderRow → Attempt Provider
  unfolding str_to_wire
  row_to_provider r = do wire ← str_to_wire r.wire; done (normalize_usage (read_row wire r))

  abbrev pub route_row : Route → RouteRow
  route_row r = record {
    alias = r.alias;
    provider = r.provider;
    model = r.model;
    fallback = json.targets.to_string r.fallback;
  }

  abbrev pub row_to_route : RouteRow → Route
  row_to_route r = record {
    alias = r.alias;
    provider = r.provider;
    model = r.model;
    fallback = unwrap_or (json.targets.from_str r.fallback) [];
  }

abbrev pub status_row : String → ProviderStatus → StatusRow
status_row provider s = record {
  provider = provider;
  available = of_bool s.available;
  quota_remaining = s.quota_remaining;
  quota_used = s.quota_used;
  quota_limit = s.quota_limit;
  last_checked = s.last_checked;
  last_ok = of_bool s.last_ok;
  error = s.error;
  note = s.note;
}

abbrev pub row_to_status : StatusRow → ProviderStatus
row_to_status r = record {
  available = to_bool r.available;
  quota_remaining = r.quota_remaining;
  quota_used = r.quota_used;
  quota_limit = r.quota_limit;
  last_checked = r.last_checked;
  last_ok = to_bool r.last_ok;
  error = r.error;
  note = r.note;
}
