-- ===== src/Usage/Load.antt =====
-- `UsageMeter::load` of src/usage.rs: the persisted events to the log in memory.
pub mod Laws
use ai_api_bridge.Prelude.{String, Option, none, some, List, [], ◌∷◌, ◌++◌, if◌then◌else◌, ℤ, leb_ℤ}
use ai_api_bridge.Config.{Float64, UsageKind, kind_parse}
use ai_api_bridge.Usage.{Event, ProviderEvents, events_of, set_events, UsageMeter, change}

-- Provider, time, kind and amount.
abbrev pub Row : Type 0
Row = String × ℤ × String × Float64

abbrev pub append_event : UsageKind → Event → ProviderEvents → ProviderEvents
append_event kind ev km = set_events kind (events_of km kind ++ ev ∷ []) km

-- An event of an unknown kind is skipped.
abbrev pub add_event : Option UsageKind → String → Event → UsageMeter → UsageMeter
add_event none provider ev meter = meter
add_event (some kind) provider ev meter = change provider (append_event kind ev) meter

unfoldable pub add_events : List Row → UsageMeter → UsageMeter
unfolding kind_parse
add_events [] meter = meter
add_events ((provider, ts, kind, amount) ∷ rows) meter =
    add_events rows (add_event (kind_parse kind) provider (ts, amount) meter)

-- `v.sort_by_key(|(ts, _)| *ts)`, which is stable.
unfoldable pub insert_event : Event → List Event → List Event
insert_event ev [] = ev ∷ []
insert_event ev (e ∷ evs) =
    let rest = insert_event ev evs in if leb_ℤ ev.0 e.0 then ev ∷ e ∷ evs else e ∷ rest

unfoldable pub sort_events : List Event → List Event
unfolding insert_event
sort_events [] = []
sort_events (e ∷ evs) = insert_event e (sort_events evs)

abbrev pub sorted_log : ProviderEvents → ProviderEvents
sorted_log km = record {
  billings = sort_events km.billings;
  counts = sort_events km.counts;
  tokens = sort_events km.tokens;
}

abbrev pub sort_all : UsageMeter → UsageMeter
sort_all [] = []
sort_all ((name, km) ∷ meter) = (name, sorted_log km) ∷ sort_all meter

unfoldable pub load : List Row → UsageMeter → UsageMeter
unfolding add_events sort_events
load rows meter = sort_all (add_events rows meter)
