-- ===== src/Store/Rows.antt =====
-- A provider through its row and back (src/store.rs).
use mathlib.Core.Option
use ai_api_bridge.Prelude.{
  ℕ, ◌<◌, ◌^◌, String, Bool, true, false, Option, none, some, nat_eq, ◌≡◌, refl, ap, arith, inl,
  inr, Bool-cases, ltb,
}
use ai_api_bridge.Config.{
  WireName, openai_chat, openai_responses, anthropic_messages, wire_parse, wire_as_str, path, text,
  ProbeSource, Provider, normalize_usage,
}
use ai_api_bridge.Store.{
  done, Codec, Codecs, wire_to_str, str_to_wire, probe_source_to_str, str_to_probe_source, of_bool,
  to_bool, as_i64, as_u64, provider_row, row_to_provider,
}

-- The JSON text of a value is read back.
abbrev pub ReadsBack : {A : Type 0} → Codec A → A → Type 0
ReadsBack c a = c.from_str (c.to_string a) ≡ some a

abbrev pub IsU64 : Option ℕ → Type 0
IsU64 none = Unit
IsU64 (some n) = n < 2 ^ 64

-- The JSON texts of the provider's columns are read back, and its interval is a `u64`.
pub record IsStorable (json : Codecs) (p : Provider) : Type 0 where
  pub headers : ReadsBack json.headers p.extra_headers
  pub cost_windows : ReadsBack json.cost_windows p.cost_windows
  pub models : ReadsBack json.models p.models
  pub model_prices : ReadsBack json.model_prices p.model_prices
  pub usage : ReadsBack json.usage p.usage
  pub interval : IsU64 p.probe_interval_secs

as_u64-as_i64 : (n : ℕ) → n < 2 ^ 64 → as_u64 (as_i64 n) ≡ n
unfolding as_u64 as_i64
as_u64-as_i64 n h = elim (Bool-cases (ltb n (2 ^ 63))) [
  | inl e ↦ rw e refl
  | inr e ↦ rw e (omega arith)
]

interval_back : (o : Option ℕ) → IsU64 o → Option.map as_u64 (Option.map as_i64 o) ≡ o
interval_back none h = refl
interval_back (some n) h = ap some (as_u64-as_i64 n h)

enabled_back : (o : Option Bool) → Option.map to_bool (Option.map of_bool o) ≡ o
enabled_back none = refl
enabled_back (some true) = refl
enabled_back (some false) = refl

source_back : (s : ProbeSource) → str_to_probe_source (probe_source_to_str s) ≡ s
unfolding str_to_probe_source probe_source_to_str
source_back path = refl
source_back text = refl

pub wire_back : (w : WireName) → str_to_wire (wire_to_str w) ≡ done w
unfolding str_to_wire wire_parse wire_as_str
wire_back openai_chat = refl
wire_back openai_responses = refl
wire_back anthropic_messages = refl

-- Where the JSON texts of its columns are read back and its interval is a `u64`, a stored provider
-- is loaded as it was, with the legacy usage fields folded in.
pub row_to_provider-provider_row :
    (json : Codecs) (name : String) (p : Provider)
    → IsStorable json p
    → row_to_provider json (provider_row json name p) ≡ done (normalize_usage p)
unfolding row_to_provider provider_row
row_to_provider-provider_row json name p s =
    rw
      (
        wire_back p.wire,
        s.headers,
        s.cost_windows,
        s.models,
        s.model_prices,
        s.usage,
        interval_back p.probe_interval_secs s.interval,
        enabled_back p.probe_enabled,
        source_back p.probe_source,
      )
      refl
