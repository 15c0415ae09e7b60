-- ===== src/Config.antt =====
-- Providers and model routes (src/config.rs). A hash map is an association list in which the first
-- entry of a key counts; a 64-bit float is its bit pattern.
pub mod Laws
use Prim.Native.Char.{code}
use mathlib.Core.Option
use ai_api_bridge.Sse.{is_whitespace}
use ai_api_bridge.Prelude.{
  ℕ, String, Bool, true, false, not, ◌&&◌, ◌||◌, Option, none, some, List, [], ◌∷◌, map, ◌==◌,
  string_eq, if◌then◌else◌, is_empty, is_some, unwrap_or, ltb,
}

pub data Float64 : Type 0 where
  bits : ℕ → Float64

abbrev pub Dict : Type 0 → Type 0
Dict V = List (String × V)

-- `HashMap::get`
abbrev pub find : {V : Type 0} → String → Dict V → Option V
find k [] = none
find k ((j, v) ∷ m) = if j == k then some v else find k m

pub data WireName : Type 0 where
  openai_chat openai_responses anthropic_messages : WireName

unfoldable pub wire_as_str : WireName → String
wire_as_str openai_chat = "openai-chat"
wire_as_str openai_responses = "openai-responses"
wire_as_str anthropic_messages = "anthropic-messages"

unfoldable pub wire_parse : String → Option WireName
wire_parse s =
    if s == "openai-chat"
    then some openai_chat
    else if s == "openai-responses"
    then some openai_responses
    else if s == "anthropic-messages"
    then some anthropic_messages
    else none

pub data ProbeSource : Type 0 where
  path text : ProbeSource

pub record ModelPrice : Type 0 where
  pub input : Float64
  pub output : Float64

-- `CostWindow` and `UsageWindow` have the same fields.
pub record UsageWindow : Type 0 where
  pub label : String
  pub window_secs : ℕ
  pub limit : Float64

pub record CostWindow : Type 0 where
  pub label : String
  pub window_secs : ℕ
  pub limit : Float64

pub data UsageKind : Type 0 where
  billing count token : UsageKind

unfoldable pub unit : UsageKind → String
unit billing = "usd"
unit count = "requests"
unit token = "tokens"

unfoldable pub kind_as_str : UsageKind → String
kind_as_str billing = "billing"
kind_as_str count = "count"
kind_as_str token = "token"

unfoldable pub kind_parse : String → Option UsageKind
kind_parse s =
    if s == "billing"
    then some billing
    else if s == "count"
    then some count
    else if s == "token"
    then some token
    else none

pub data UsageSpec : Type 0 where
  billing_spec : List UsageWindow → Dict ModelPrice → UsageSpec
  count_spec token_spec : List UsageWindow → UsageSpec

unfoldable pub spec_kind : UsageSpec → UsageKind
spec_kind (billing_spec _ _) = billing
spec_kind (count_spec _) = count
spec_kind (token_spec _) = token

unfoldable pub spec_windows : UsageSpec → List UsageWindow
spec_windows (billing_spec windows _) = windows
spec_windows (count_spec windows) = windows
spec_windows (token_spec windows) = windows

unfoldable pub spec_model_prices : UsageSpec → Option (Dict ModelPrice)
spec_model_prices (billing_spec _ prices) = some prices
spec_model_prices (count_spec _) = none
spec_model_prices (token_spec _) = none

pub record Provider : Type 0 where
  pub wire : WireName
  pub base_url : String
  pub api_key : Option String
  pub model_prefix : Option String
  pub max_tokens_field : String
  pub extra_headers : Dict String
  pub probe_script : Option String
  pub probe_script_text : Option String
  pub probe_source : ProbeSource
  pub probe_enabled : Option Bool
  pub probe_interval_secs : Option ℕ
  pub quota_min : Option Float64
  pub cost_windows : List CostWindow
  pub model_prices : Dict ModelPrice
  pub usage : List UsageSpec
  pub models : List String

-- `s.trim().is_empty()`
abbrev pub is_whitespace_only : String → Bool
is_whitespace_only String.[] = true
is_whitespace_only (String.◌∷◌ c s) = is_whitespace (code c) && is_whitespace_only s

abbrev pub has_script : Provider → ProbeSource → Bool
has_script p path = is_some p.probe_script
has_script p text =
    unwrap_or (Option.map (λ s. not (is_whitespace_only s)) p.probe_script_text) false

-- `Provider::probe_enabled`
unfoldable pub probe_enabled : Provider → Bool
probe_enabled p = unwrap_or p.probe_enabled (has_script p p.probe_source)

-- `Provider::probe_interval`, in seconds
unfoldable pub probe_interval : Provider → ℕ
probe_interval p = let secs = unwrap_or p.probe_interval_secs 300 in if ltb secs 1 then 1 else secs

abbrev pub to_usage_window : CostWindow → UsageWindow
to_usage_window w = record { label = w.label; window_secs = w.window_secs; limit = w.limit }

-- `Provider::normalize_usage`
unfoldable pub normalize_usage : Provider → Provider
normalize_usage p =
    if is_empty p.usage && (not (is_empty p.cost_windows) || not (is_empty p.model_prices))
    then record p { usage = billing_spec (map to_usage_window p.cost_windows) p.model_prices ∷ [] }
    else p

pub record RouteTarget : Type 0 where
  pub provider : String
  pub model : String

pub record Route : Type 0 where
  pub alias : String
  pub provider : String
  pub model : String
  pub fallback : List RouteTarget

pub record Config : Type 0 where
  pub listen : String
  pub database : String
  pub default_provider : Option String
  pub auth_token : Option String
  pub cost_tracking : Bool
  pub providers : Dict Provider
  pub routes : List Route
  pub fallback_route : Option RouteTarget
