-- ===== src/Usage/Window.antt =====
-- What the windows of src/usage.rs see of a log that is pruned as it grows.
use ai_api_bridge.Prelude.{
  ℕ, ◌^◌, ◌<◌, ◌≤◌, ◌≡◌, ◌≢◌, refl, ap, ap₂, ◌∙◌, String, false, not, ◌||◌, Option, none, List, [],
  ◌∷◌, ◌++◌, map, ◌==◌, string_eq, if◌then◌else◌, unwrap_or, ℤ, pos, ◌-ℤ◌, -ℤ_parts, ◌≤ℤ◌, ltb_ℤ,
  leb_ℤ, arith, Bool-cases, inl, inr, All, ◌⊎◌,
}
use ai_api_bridge.Store.{as_i64}
use ai_api_bridge.Config.{Float64, find, UsageKind, billing, count, token, UsageWindow}
use ai_api_bridge.Usage.{
  Floats, retain_secs, Event, ProviderEvents, no_events, events_of, set_events, UsageMeter,
  events_at, change, retain, pushed, record_usage, scan, window_stat, windows,
}

pub find-change :
    (p q : String) (f : ProviderEvents → ProviderEvents) (meter : UsageMeter)
    → unwrap_or (find q (change p f meter)) no_events ≡ (
        if p == q
        then f (unwrap_or (find q meter) no_events)
        else unwrap_or (find q meter) no_events)
find-change p q f [] = ground arith
find-change p q f ((name, km) ∷ meter) = ground (
  arith,
  string_eq.decides name p,
  string_eq.decides name q,
  string_eq.decides p q,
  find-change p q f meter,
)

events_of-set_same :
    (k : UsageKind) (v : List Event) (km : ProviderEvents) → events_of (set_events k v km) k ≡ v
events_of-set_same billing v km = refl
events_of-set_same count v km = refl
events_of-set_same token v km = refl

events_of-set_other :
    (j k : UsageKind) (v : List Event) (km : ProviderEvents)
    → j ≢ k
    → events_of (set_events j v km) k ≡ events_of km k
events_of-set_other billing billing v km h = absurd (h refl)
events_of-set_other billing count v km h = refl
events_of-set_other billing token v km h = refl
events_of-set_other count billing v km h = refl
events_of-set_other count count v km h = absurd (h refl)
events_of-set_other count token v km h = refl
events_of-set_other token billing v km h = refl
events_of-set_other token count v km h = refl
events_of-set_other token token v km h = absurd (h refl)

outside : (c cutoff ts : ℤ) → c ≤ℤ cutoff → leb_ℤ c ts ≡ false → ltb_ℤ cutoff ts ≡ false
outside c cutoff ts h e = ground arith

-- The change that a charge makes.
abbrev charged : UsageKind → Float64 → ℤ → ProviderEvents → ProviderEvents
charged kind amount now km = set_events kind (pushed now amount (events_of km kind)) km

events_at-charged :
    (provider : String) (kind : UsageKind) (amount : Float64) (now : ℤ) (meter : UsageMeter)
    → events_at (change provider (charged kind amount now) meter) provider kind
      ≡ pushed now amount (events_at meter provider kind)
events_at-charged provider kind amount now meter =
    ap (λ km. events_of km kind) (find-change provider provider (charged kind amount now) meter)
    ∙ rw ((string_eq.decides provider provider).1 refl) (events_of-set_same kind _ _)

events_at-charged_other :
    (provider other : String) (kind other_kind : UsageKind) (amount : Float64) (now : ℤ)
    (meter : UsageMeter)
    → (provider ≢ other) ⊎ (kind ≢ other_kind)
    → events_at (change provider (charged kind amount now) meter) other other_kind
      ≡ events_at meter other other_kind
events_at-charged_other provider other kind other_kind amount now meter apart =
    ap (λ km. events_of km other_kind) (find-change provider other (charged kind amount now) meter)
    ∙ elim (Bool-cases (provider == other)) [
      | inl e ↦ rw e (elim apart [
        | inl p ↦ absurd (p ((string_eq.decides provider other).0 e))
        | inr k ↦ events_of-set_other kind other_kind _ _ k
      ])
      | inr e ↦ rw e refl
    ]

as_i64-small : (n : ℕ) → n < 2 ^ 63 → as_i64 n ≡ pos n
unfolding as_i64
as_i64-small n h = ground arith

module _ (F : Floats) where
  -- Events that the pruning removes are outside of every window that the log is kept for.
  scan-retain :
      (c cutoff : ℤ) (v : List Event) (so_far : Float64 × Option ℤ)
      → c ≤ℤ cutoff
      → scan F cutoff (retain c v) so_far ≡ scan F cutoff v so_far
  unfolding scan
  scan-retain c cutoff [] so_far h = refl
  scan-retain c cutoff ((ts, amount) ∷ v) (spent, oldest) h = elim (Bool-cases (leb_ℤ c ts)) [
    | inl e ↦ rw e (scan-retain c cutoff v _ h)
    | inr e ↦ rw (e, outside c cutoff ts h e) (scan-retain c cutoff v _ h)
  ]

  window_stat-retain :
      (v : List Event) (now later : ℤ) (w : UsageWindow)
      → now ≤ℤ later
      → w.window_secs ≤ retain_secs
      → window_stat F (retain (now -ℤ pos retain_secs) v) later w ≡ window_stat F v later w
  unfolding window_stat
  window_stat-retain v now later w h k =
      rw
        (
          as_i64-small w.window_secs (omega (arith, k)),
          scan-retain (now -ℤ pos retain_secs) (later -ℤ pos w.window_secs) v (F.zero, none)
              (omega (arith, -ℤ_parts now (pos retain_secs), -ℤ_parts later (pos w.window_secs))),
        )
        refl

  map-window_stat :
      (v : List Event) (now later : ℤ) (ws : List UsageWindow)
      → now ≤ℤ later
      → All (λ w. w.window_secs ≤ retain_secs) ws
      → map (window_stat F (retain (now -ℤ pos retain_secs) v) later) ws
        ≡ map (window_stat F v later) ws
  map-window_stat v now later [] h k = refl
  map-window_stat v now later (w ∷ ws) h (k, ks) =
      ap₂ (λ x xs. x ∷ xs) (window_stat-retain v now later w h k)
        (map-window_stat v now later ws h ks)

  -- After a charge that counts, a window of at most 31 days, looked at then or later, is computed
  -- from the whole log with the charge at its end, as if nothing had been pruned.
  pub windows-record_usage :
      (provider : String) (kind : UsageKind) (amount : Float64) (now later : ℤ) (meter : UsageMeter)
      (ws : List UsageWindow)
      → (not (F.is_finite amount) || F.le amount F.zero) ≡ false
      → now ≤ℤ later
      → All (λ w. w.window_secs ≤ retain_secs) ws
      → windows F (record_usage F provider kind amount now meter) provider kind ws later
        ≡ map (window_stat F (events_at meter provider kind ++ (now, amount) ∷ []) later) ws
  unfolding windows record_usage
  windows-record_usage provider kind amount now later meter ws charge h k =
      rw (charge, events_at-charged provider kind amount now meter)
        (map-window_stat (events_at meter provider kind ++ (now, amount) ∷ []) now later ws h k)

  -- A charge leaves the windows of every other provider and of every other kind as they were.
  windows-record_other :
      (provider other : String) (kind other_kind : UsageKind) (amount : Float64) (now later : ℤ)
      (meter : UsageMeter) (ws : List UsageWindow)
      → (provider ≢ other) ⊎ (kind ≢ other_kind)
      → windows F (record_usage F provider kind amount now meter) other other_kind ws later
        ≡ windows F meter other other_kind ws later
  unfolding windows record_usage
  windows-record_other provider other kind other_kind amount now later meter ws apart =
      elim (Bool-cases (not (F.is_finite amount) || F.le amount F.zero)) [
        | inl e ↦ rw e refl
        | inr e ↦
            rw (e, events_at-charged_other provider other kind other_kind amount now meter apart)
              refl
      ]
