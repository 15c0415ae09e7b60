-- ===== src/Admin.antt =====
-- The inputs of the admin interface (src/admin.rs) and what is checked of them.
pub mod Handlers
pub mod Laws
pub mod Sound
pub mod Routes
use Prim.Native.Char.{code}
use mathlib.Core.Option
use ai_api_bridge.Prelude.{
  ℕ, String, Bool, true, false, not, ◌&&◌, Option, none, some, List, [], ◌∷◌, ◌==◌, string_eq,
  if◌then◌else◌, is_some, unwrap_or, or_else, and_then, is_blank, push_str,
}
use ai_api_bridge.Sse.{is_whitespace}
use ai_api_bridge.Error.{bad_request, Result, ok, err, ◌>>=◌, ok_or}
use ai_api_bridge.Config.{
  Float64, Dict, find, wire_parse, ProbeSource, path, text, ModelPrice, CostWindow, UsageSpec,
  Provider, normalize_usage, RouteTarget, Route,
}

pub record ProviderInput : Type 0 where
  pub name : Option String
  pub wire : String
  pub base_url : String
  pub api_key : Option String
  pub model_prefix : Option String
  pub max_tokens_field : Option String
  pub extra_headers : Dict String
  pub probe_script : Option String
  pub probe_script_text : Option String
  pub probe_source : Option String
  pub probe_enabled : Option Bool
  pub probe_interval_secs : Option ℕ
  pub quota_min : Option Float64
  pub cost_windows : List CostWindow
  pub model_prices : Dict ModelPrice
  pub usage : List UsageSpec
  pub models : List String

pub record RouteInput : Type 0 where
  pub alias : Option String
  pub provider : String
  pub model : String
  pub fallback : List RouteTarget

pub record FallbackRouteInput : Type 0 where
  pub provider : Option String
  pub model : Option String

-- `str::trim`
abbrev pub trim_start : String → String
trim_start String.[] = ""
trim_start (String.◌∷◌ c s) = if is_whitespace (code c) then trim_start s else String.◌∷◌ c s

abbrev pub trim_end : String → String
trim_end String.[] = ""
trim_end (String.◌∷◌ c s) =
    let rest = trim_end s in
    if is_blank rest && is_whitespace (code c) then "" else String.◌∷◌ c rest

unfoldable pub trim : String → String
trim s = trim_end (trim_start s)

abbrev pub unless_blank : String → Option String
unless_blank s = if is_blank s then none else some s

unfoldable pub non_empty : Option String → Option String
unfolding trim
non_empty o = and_then o (λ s. unless_blank (trim s))

unfoldable pub parse_probe_source : Option String → ProbeSource
parse_probe_source none = path
parse_probe_source (some s) = if s == "text" then text else path

-- An error unless a test holds.
abbrev pub ensure : Bool → String → Result {0} Unit
ensure b message = if b then ok tt else err (bad_request message)

abbrev pub unknown_wire : String → String
unknown_wire wire =
    push_str "unknown wire '"
      (push_str wire "' (expected openai-chat | openai-responses | anthropic-messages)")

unfoldable pub into_provider : ProviderInput → Option String → Result Provider
unfolding non_empty parse_probe_source normalize_usage
into_provider input existing_api_key = do
  wire ← ok_or (wire_parse input.wire) (bad_request (unknown_wire input.wire))
  _ ← ensure (not (is_blank (trim input.base_url))) "base_url is required"
  ok (
      normalize_usage (record {
        wire = wire;
        base_url = trim input.base_url;
        api_key = or_else (non_empty input.api_key) existing_api_key;
        model_prefix = non_empty input.model_prefix;
        max_tokens_field = unwrap_or (non_empty input.max_tokens_field) "max_tokens";
        extra_headers = input.extra_headers;
        probe_script = non_empty input.probe_script;
        probe_script_text = non_empty input.probe_script_text;
        probe_source = parse_probe_source input.probe_source;
        probe_enabled = input.probe_enabled;
        probe_interval_secs = input.probe_interval_secs;
        quota_min = input.quota_min;
        cost_windows = input.cost_windows;
        model_prices = input.model_prices;
        usage = input.usage;
        models = input.models;
      }))

abbrev pub is_known : Dict Provider → String → Bool
is_known providers name = is_some (find name providers)

-- The loop over the fallback targets.
abbrev pub check_fallback : Dict Provider → List RouteTarget → Result {0} Unit
check_fallback providers [] = ok tt
check_fallback providers (fb ∷ fbs) =
    ensure (is_known providers fb.provider) (push_str "unknown fallback provider: " fb.provider)
    >>= λ _. check_fallback providers fbs

unfoldable pub into_route : RouteInput → String → Dict Provider → Result Route
unfolding trim
into_route input alias providers = do
  _ ← ensure (not (is_blank (trim input.model))) "model is required"
  _ ←
      ensure (is_known providers (trim input.provider))
        (push_str "unknown provider: " (trim input.provider))
  _ ← check_fallback providers input.fallback
  ok (record {
    alias = alias;
    provider = trim input.provider;
    model = trim input.model;
    fallback = input.fallback;
  })

-- The `match` of `set_fallback_route`.
abbrev pub fallback_target :
    Dict Provider → Option String → Option String → Result (Option RouteTarget)
fallback_target providers none none = ok none
fallback_target providers (some provider) (some model) =
    ensure (is_known providers provider) (push_str "unknown provider: " provider) >>= λ _.
    ok (some (record { provider = provider; model = model }))
fallback_target providers provider model =
    err (bad_request "provider and model must both be set (or both blank to clear)")
