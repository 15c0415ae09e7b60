-- ===== src/Server/Views.antt =====
-- What src/server.rs and src/admin.rs show of the state: usage, providers, routes and models. The
-- JSON of a float is a parameter.
pub mod Secrecy
use Prim.Native.String.{String}
use Prim.Native.Char.{code}
use mathlib.Core.Option
use ai_api_bridge.Prelude.{
  ℕ, Bool, true, false, Option, none, some, List, [], ◌∷◌, ◌++◌, map, ◌==◌, nat_eq, ltb,
  if◌then◌else◌, is_some, unwrap_or, ℤ, pos, negsuc,
}
use ai_api_bridge.Json.{
  Value, Fields, null, bool, str, num, pos_int, neg_int, int, object, array, fields_of, obj, str_at,
}
use ai_api_bridge.Error.{Result, ok, ◌>>=◌}
use ai_api_bridge.Config.{
  Float64, Dict, find, ModelPrice, UsageWindow, UsageSpec, spec_kind, spec_windows,
  spec_model_prices, unit, kind_as_str, wire_as_str, Provider, Route, RouteTarget, probe_enabled,
}
use ai_api_bridge.Router.{ProviderStatus}
use ai_api_bridge.Usage.{Floats, UsageMeter, WindowStat, windows}
use ai_api_bridge.Server.Failover.{default_status}
use ai_api_bridge.Store.{probe_source_to_str}
use ai_api_bridge.Server.State.{AppState}
use ai_api_bridge.Admin.Handlers.{Headers, authorized, target_json}

abbrev pub json_ℤ : ℤ → Value
json_ℤ (pos n) = int n
json_ℤ (negsuc n) = num (neg_int n)

abbrev pub opt : {A : Type 0} → (A → Value) → Option A → Value
opt f none = null
opt f (some a) = f a

-- `str::cmp`: the order of the bytes of UTF-8 is the order of the code points.
unfoldable pub str_le : String → String → Bool
str_le String.[] t = true
str_le (String.◌∷◌ c s) String.[] = false
str_le (String.◌∷◌ c s) (String.◌∷◌ d t) =
    let rest = str_le s t in
    if ltb (code c) (code d) then true else if ltb (code d) (code c) then false else rest

-- `sort_by` of objects by the text under a key; it is stable.
unfoldable pub insert_by : String → Value → List Value → List Value
unfolding str_le
insert_by k v [] = v ∷ []
insert_by k v (w ∷ ws) =
    let rest = insert_by k v ws in if str_le (str_at k v) (str_at k w) then v ∷ w ∷ ws else w ∷ rest

unfoldable pub sort_by : String → List Value → List Value
unfolding insert_by
sort_by k [] = []
sort_by k (v ∷ vs) = insert_by k v (sort_by k vs)

abbrev pub entry_json : {V : Type 0} → (V → Value) → String × V → String × Value
entry_json f (k, v) = (k, f v)

abbrev pub dict_json : {V : Type 0} → (V → Value) → Dict V → Value
dict_json f m = object (map (entry_json f) m)

abbrev pub route_target_json : RouteTarget → Value
route_target_json t = target_json (some t)

abbrev pub route_json : Route → Value
route_json r = object (
    ("alias", str r.alias)
    ∷ ("provider", str r.provider)
    ∷ ("model", str r.model)
    ∷ ("fallback", array (map route_target_json r.fallback))
    ∷ [])

abbrev pub model_json : Route → Value
model_json r =
    object (("id", str r.alias) ∷ ("object", str "model") ∷ ("owned_by", str r.provider) ∷ [])

unfoldable pub list_models : AppState → Value
list_models s =
    object (("object", str "list") ∷ ("data", array (map model_json s.config.routes)) ∷ [])

unfoldable pub list_routes : Headers → AppState → Result Value
unfolding sort_by
list_routes headers s = do
  _ ← authorized headers s
  ok (
      object (
        ("routes", array (sort_by "alias" (map route_json s.config.routes)))
        ∷ ("fallback_route", target_json s.config.fallback_route)
        ∷ []))

unfoldable pub get_usage : Headers → AppState → Result Value
get_usage headers s = do _ ← authorized headers s; ok (object (("enabled", bool s.usage_on) ∷ []))

unfoldable pub get_fallback_route : Headers → AppState → Result Value
get_fallback_route headers s = do
  _ ← authorized headers s
  ok (object (("fallback_route", target_json s.config.fallback_route) ∷ []))

module _ (floats : Floats) (json_f64 : Float64 → Value) (now : ℤ) where
  abbrev pub window_json : UsageWindow → List (String × Value)
  window_json w =
      ("label", str w.label) ∷ ("window_secs", int w.window_secs) ∷ ("limit", json_f64 w.limit) ∷ []

  -- The windows with their statistics, `zip`ped.
  abbrev pub live_windows : List UsageWindow → List (WindowStat floats) → List Value
  live_windows (w ∷ ws) (st ∷ stats) =
      object (
        window_json w
        ++ ("spent", json_f64 st.spent)
          ∷ ("remaining", json_f64 st.remaining)
          ∷ ("reset_in_secs", json_ℤ st.reset_in_secs)
          ∷ [])
      ∷ live_windows ws stats
  live_windows ws stats = []

  abbrev pub price_json : ModelPrice → Value
  price_json p = object (("input", json_f64 p.input) ∷ ("output", json_f64 p.output) ∷ [])

  abbrev pub prices_field : Option (Dict ModelPrice) → List (String × Value)
  prices_field none = []
  prices_field (some mp) = ("model_prices", dict_json price_json mp) ∷ []

  abbrev pub windows_json : UsageMeter → String → Bool → UsageSpec → List Value
  windows_json meter provider enabled spec =
      if enabled
      then live_windows (spec_windows spec)
          (windows floats meter provider (spec_kind spec) (spec_windows spec) now)
      else map (λ w. object (window_json w)) (spec_windows spec)

  abbrev pub spec_json : UsageMeter → String → Bool → UsageSpec → Value
  spec_json meter provider enabled spec = object (
      ("usage_type", str (kind_as_str (spec_kind spec)))
      ∷ ("unit", str (unit (spec_kind spec)))
      ∷ ("windows", array (windows_json meter provider enabled spec))
      ∷ prices_field (spec_model_prices spec))

  unfoldable pub usage_view : UsageMeter → String → List UsageSpec → Bool → List Value
  unfolding windows spec_kind spec_windows spec_model_prices kind_as_str unit
  usage_view meter provider specs enabled = map (spec_json meter provider enabled) specs

  abbrev pub status_at : AppState → String → ProviderStatus
  status_at s name = unwrap_or (find name s.status) default_status

  abbrev pub status_fields : ProviderStatus → List (String × Value)
  status_fields st =
      ("available", bool st.available)
      ∷ ("quota_remaining", opt json_f64 st.quota_remaining)
      ∷ ("quota_used", opt json_f64 st.quota_used)
      ∷ ("quota_limit", opt json_f64 st.quota_limit)
      ∷ ("last_checked", opt json_ℤ st.last_checked)
      ∷ ("last_ok", bool st.last_ok)
      ∷ ("error", opt str st.error)
      ∷ ("note", opt str st.note)
      ∷ []

  abbrev pub status_json : AppState → String × Provider → Value
  status_json s (name, p) = object (
      ("name", str name)
      ∷ ("base_url", str p.base_url)
      ∷ ("probe_enabled", bool (probe_enabled p))
      ∷ ("quota_min", opt json_f64 p.quota_min)
      ∷ ("usage", array (usage_view s.usage name p.usage s.usage_on))
      ∷ status_fields (status_at s name))

  unfoldable pub providers_status : AppState → Value
  unfolding sort_by usage_view probe_enabled
  providers_status s = object (
      ("providers", array (sort_by "name" (map (status_json s) s.config.providers)))
      ∷ ("cost_tracking", bool s.usage_on)
      ∷ [])

  -- The key is not shown, only whether there is one.
  abbrev pub provider_json : AppState → String × Provider → Value
  provider_json s (name, p) = object (
      ("name", str name)
      ∷ ("wire", str (wire_as_str p.wire))
      ∷ ("base_url", str p.base_url)
      ∷ ("api_key_set", bool (is_some p.api_key))
      ∷ ("model_prefix", opt str p.model_prefix)
      ∷ ("max_tokens_field", str p.max_tokens_field)
      ∷ ("extra_headers", dict_json str p.extra_headers)
      ∷ ("probe_script", opt str p.probe_script)
      ∷ ("probe_script_text", opt str p.probe_script_text)
      ∷ ("probe_source", str (probe_source_to_str p.probe_source))
      ∷ ("models", array (map str p.models))
      ∷ ("probe_enabled", bool (probe_enabled p))
      ∷ ("probe_enabled_override", opt bool p.probe_enabled)
      ∷ ("probe_interval_secs", opt int p.probe_interval_secs)
      ∷ ("quota_min", opt json_f64 p.quota_min)
      ∷ ("usage", array (usage_view s.usage name p.usage s.usage_on))
      ∷ ("status", object (status_fields (status_at s name)))
      ∷ [])

  unfoldable pub list_providers : Headers → AppState → Result Value
  unfolding sort_by usage_view probe_enabled wire_as_str probe_source_to_str
  list_providers headers s = do
    _ ← authorized headers s
    ok (
        object (
          ("providers", array (sort_by "name" (map (provider_json s) s.config.providers)))
          ∷ ("cost_tracking", bool s.usage_on)
          ∷ []))
