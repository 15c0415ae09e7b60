-- ===== src/Usage.antt =====
-- The rolling usage log (src/usage.rs). Timestamps are in seconds, and their sums with window
-- lengths are taken not to leave an `i64`; the cast of a length wraps around.
-- The arithmetic of 64-bit floats is a parameter. A provider's log has a list for each kind, where
-- the source's map has an entry for the kinds that were used.
pub mod Window
pub mod Load
pub mod Persistence
pub mod Charges
use mathlib.Core.Option
use ai_api_bridge.Prelude.{
  ℕ, ◌+◌, String, Bool, true, false, not, ◌||◌, Option, none, some, List, [], ◌∷◌, ◌++◌, ◌*◌, ◌%◌,
  ◌^◌, map, ◌==◌, string_eq, if◌then◌else◌, is_some, any, unwrap_or, and_then, ℤ, pos, ◌+ℤ◌, ◌-ℤ◌,
  ltb_ℤ, leb_ℤ,
}
use ai_api_bridge.Json.{Value, Number, num, str, get, get_u64}
use ai_api_bridge.Config.{
  Float64, Dict, find, ModelPrice, UsageKind, billing, count, token, UsageWindow, UsageSpec,
  spec_kind, spec_windows, spec_model_prices, Provider, Config, kind_as_str,
}
use ai_api_bridge.Store.{Database, as_i64}
use ai_api_bridge.Store.Tables.{insert_usage_event}

-- The operations of `f64` that the source uses, and the floats `0.0`, `1.0` and `1e6`.
pub record Floats : Type 0 where
  pub is_finite : Float64 → Bool
  pub le : Float64 → Float64 → Bool
  pub gt : Float64 → Float64 → Bool
  pub add : Float64 → Float64 → Float64
  pub sub : Float64 → Float64 → Float64
  pub max : Float64 → Float64 → Float64
  pub zero : Float64
  pub one : Float64
  pub of_ℕ : ℕ → Float64
  pub of_number : Number → Float64
  pub parse : String → Option Float64
  pub mul : Float64 → Float64 → Float64
  pub div : Float64 → Float64 → Float64
  pub million : Float64

-- `RETAIN_SECS`
abbrev pub retain_secs : ℕ
retain_secs = 31 * 24 * 3600

-- Time and amount.
abbrev pub Event : Type 0
Event = ℤ × Float64

pub record ProviderEvents : Type 0 where
  pub billings : List Event
  pub counts : List Event
  pub tokens : List Event

abbrev pub no_events : ProviderEvents
no_events = record { billings = []; counts = []; tokens = [] }

abbrev pub events_of : ProviderEvents → UsageKind → List Event
events_of km billing = km.billings
events_of km count = km.counts
events_of km token = km.tokens

abbrev pub set_events : UsageKind → List Event → ProviderEvents → ProviderEvents
set_events billing v km = record km { billings = v }
set_events count v km = record km { counts = v }
set_events token v km = record km { tokens = v }

-- The map in the mutex.
abbrev pub UsageMeter : Type 0
UsageMeter = Dict ProviderEvents

abbrev pub events_at : UsageMeter → String → UsageKind → List Event
events_at meter provider kind = events_of (unwrap_or (find provider meter) no_events) kind

-- `map.entry(provider).or_default()`, changed.
abbrev pub change : String → (ProviderEvents → ProviderEvents) → UsageMeter → UsageMeter
change provider f [] = (provider, f no_events) ∷ []
change provider f ((name, km) ∷ meter) =
    if name == provider then (name, f km) ∷ meter else (name, km) ∷ change provider f meter

-- `v.retain(|(ts, _)| *ts >= cutoff)`
abbrev pub retain : ℤ → List Event → List Event
retain cutoff [] = []
retain cutoff ((ts, amount) ∷ v) =
    if leb_ℤ cutoff ts then (ts, amount) ∷ retain cutoff v else retain cutoff v

abbrev pub pushed : ℤ → Float64 → List Event → List Event
pushed now amount v = retain (now -ℤ pos retain_secs) (v ++ (now, amount) ∷ [])

-- The meter as it is shared: the log in memory, and the database that persists it.
pub record Ledger : Type 0 where
  pub meter : UsageMeter
  pub database : Option Database

-- Without a database nothing is persisted; a failure to persist would only be logged.
abbrev pub persist_event : String → ℤ → UsageKind → Float64 → Option Database → Option Database
persist_event provider now kind amount none = none
persist_event provider now kind amount (some db) =
    some (insert_usage_event provider now (kind_as_str kind) amount db)

abbrev pub tokens_from_usage : Option Value → Option ℕ × Option ℕ
tokens_from_usage none = (none, none)
tokens_from_usage (some u) = (get_u64 "prompt_tokens" u, get_u64 "completion_tokens" u)

module _ (F : Floats) where
  -- `UsageMeter::record`, in memory.
  unfoldable pub record_usage : String → UsageKind → Float64 → ℤ → UsageMeter → UsageMeter
  record_usage provider kind amount now meter =
      if not (F.is_finite amount) || F.le amount F.zero
      then meter
      else change provider (λ km. set_events kind (pushed now amount (events_of km kind)) km) meter

  -- `UsageMeter::record`: the log in memory, then a row of `usage_events`.
  unfoldable pub record_charge : String → UsageKind → Float64 → ℤ → Ledger → Ledger
  unfolding record_usage kind_as_str
  record_charge provider kind amount now ledger =
      if not (F.is_finite amount) || F.le amount F.zero then ledger else record {
        meter = record_usage provider kind amount now ledger.meter;
        database = persist_event provider now kind amount ledger.database;
      }

  -- The loop of `windows` over the events: `spent` and `oldest`.
  unfoldable pub scan : ℤ → List Event → Float64 × Option ℤ → Float64 × Option ℤ
  scan cutoff [] so_far = so_far
  scan cutoff ((ts, amount) ∷ evts) (spent, oldest) = scan cutoff evts (
      if ltb_ℤ cutoff ts
      then (F.add spent amount, (if is_some oldest then oldest else some ts))
      else (spent, oldest))

  pub record WindowStat : Type 0 where
    pub label : String
    pub limit : Float64
    pub spent : Float64
    pub remaining : Float64
    pub reset_in_secs : ℤ

  abbrev pub max_zero : ℤ → ℤ
  max_zero a = if ltb_ℤ a (pos 0) then pos 0 else a

  abbrev pub reset_in : ℤ → ℤ → Option ℤ → ℤ
  reset_in window_secs now none = window_secs
  reset_in window_secs now (some ts) = max_zero (ts +ℤ window_secs -ℤ now)

  unfoldable pub window_stat : List Event → ℤ → UsageWindow → WindowStat
  unfolding scan as_i64
  window_stat events now w =
      let window_secs = as_i64 w.window_secs in
      let (spent, oldest) = scan (now -ℤ window_secs) events (F.zero, none) in
      record {
        label = w.label;
        limit = w.limit;
        spent = spent;
        remaining = F.max (F.sub w.limit spent) F.zero;
        reset_in_secs = reset_in window_secs now oldest;
      }

  unfoldable pub windows : UsageMeter → String → UsageKind → List UsageWindow → ℤ → List WindowStat
  unfolding window_stat
  windows meter provider kind ws now = map (window_stat (events_at meter provider kind) now) ws

  unfoldable pub exhausted : UsageMeter → String → List UsageSpec → ℤ → Bool
  unfolding windows spec_kind spec_windows
  exhausted meter provider specs now =
      any
        (λ spec.
          any (λ w. F.le w.remaining F.zero)
            (windows meter provider (spec_kind spec) (spec_windows spec) now))
        specs

  unfoldable pub exhausted_set : UsageMeter → Dict Provider → ℤ → List String
  unfolding exhausted
  exhausted_set meter [] now = []
  exhausted_set meter ((name, p) ∷ providers) now =
      let rest = exhausted_set meter providers now in
      if exhausted meter name p.usage now then name ∷ rest else rest

  -- `ModelPrice::estimate`
  unfoldable pub estimate : ModelPrice → ℕ → ℕ → Float64
  estimate p prompt_tokens completion_tokens =
      F.add (F.mul (F.div (F.of_ℕ prompt_tokens) F.million) p.input)
        (F.mul (F.div (F.of_ℕ completion_tokens) F.million) p.output)

  abbrev pub is_charge : Option Float64 → Bool
  is_charge none = false
  is_charge (some c) = F.gt c F.zero

  unfoldable pub effective_cost :
      Option Float64 → Option ModelPrice → Option ℕ → Option ℕ → Option Float64
  unfolding estimate
  effective_cost real price pt ct =
      if is_charge real
      then real
      else Option.map (λ p. estimate p (unwrap_or pt 0) (unwrap_or ct 0)) price

  -- The sum of two `u64`, as a release build computes it.
  unfoldable pub amount_for :
      UsageKind → Option ModelPrice → Option Float64 → Option ℕ → Option ℕ → Option Float64
  unfolding effective_cost
  amount_for billing price real pt ct = effective_cost real price pt ct
  amount_for count price real pt ct = some F.one
  amount_for token price real pt ct = some (F.of_ℕ ((unwrap_or pt 0 + unwrap_or ct 0) % 2 ^ 64))

  -- `F.parse` trims the text and parses it.
  unfoldable pub parse_cost : Value → Option Float64
  parse_cost (num n) = some (F.of_number n)
  parse_cost (str s) = F.parse s
  parse_cost v = none

  -- `usage_kinds` of src/server.rs
  unfoldable pub usage_kinds : Config → String → String → List (UsageKind × Option ModelPrice)
  unfolding spec_kind spec_model_prices
  usage_kinds cfg provider model =
      unwrap_or
        (Option.map
          (λ p.
            map (λ spec. (spec_kind spec, and_then (spec_model_prices spec) (find model))) p.usage)
          (find provider cfg.providers))
        []

  abbrev pub record_if : String → UsageKind → ℤ → Option Float64 → Ledger → Ledger
  record_if provider kind now none ledger = ledger
  record_if provider kind now (some amount) ledger = record_charge provider kind amount now ledger

  -- `record_amounts` of src/server.rs
  unfoldable pub record_amounts :
      String
      → List (UsageKind × Option ModelPrice)
      → Option Float64
      → Option ℕ
      → Option ℕ
      → ℤ
      → Ledger
      → Ledger
  unfolding amount_for record_charge
  record_amounts provider [] real pt ct now ledger = ledger
  record_amounts provider ((kind, price) ∷ kinds) real pt ct now ledger =
      record_amounts provider kinds real pt ct now
        (record_if provider kind now (amount_for kind price real pt ct) ledger)
