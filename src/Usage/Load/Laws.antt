-- ===== src/Usage/Load/Laws.antt =====
-- What a load of the persisted events (src/usage.rs) leaves in the log.
use ai_api_bridge.Prelude.{
  String, Bool, true, false, ◌&&◌, Option, none, some, List, [], ◌∷◌, ◌++◌, ◌==◌, string_eq,
  if◌then◌else◌, unwrap_or, ℤ, leb_ℤ, ◌≤ℤ◌, ◌≡◌, refl, sym, ap, ◌∙◌, subst, append_assoc,
  append-nil, Bool-cases, inl, inr, arith,
}
use ai_api_bridge.Config.{find, UsageKind, billing, count, token, kind_parse}
use ai_api_bridge.Usage.{Event, ProviderEvents, no_events, events_of, UsageMeter, events_at}
use ai_api_bridge.Usage.Load.{
  Row, append_event, add_event, add_events, insert_event, sort_events, sorted_log, sort_all, load,
}
use ai_api_bridge.Usage.Window.{find-change}

abbrev pub same_kind : UsageKind → UsageKind → Bool
same_kind billing billing = true
same_kind count count = true
same_kind token token = true
same_kind j k = false

abbrev pub event_if : Bool → Event → List Event
event_if b ev = if b then ev ∷ [] else []

abbrev pub kept_of : Option UsageKind → String → Event → String → UsageKind → List Event
kept_of none q ev p k = []
kept_of (some j) q ev p k = if q == p then event_if (same_kind j k) ev else []

-- The rows of a provider and a kind, in their order.
abbrev pub rows_of : String → UsageKind → List Row → List Event
rows_of p k [] = []
rows_of p k ((q, ts, kind, amount) ∷ rows) =
    kept_of (kind_parse kind) q (ts, amount) p k ++ rows_of p k rows

abbrev pub IsSorted : List Event → Type 0
IsSorted [] = Unit
IsSorted (e ∷ []) = Unit
IsSorted (e ∷ f ∷ evs) = (e.0 ≤ℤ f.0) × IsSorted (f ∷ evs)

events_of-append_event :
    (j k : UsageKind) (ev : Event) (km : ProviderEvents)
    → events_of (append_event j ev km) k ≡ events_of km k ++ event_if (same_kind j k) ev
events_of-append_event billing billing ev km = refl
events_of-append_event billing count ev km = sym (append-nil km.counts)
events_of-append_event billing token ev km = sym (append-nil km.tokens)
events_of-append_event count billing ev km = sym (append-nil km.billings)
events_of-append_event count count ev km = refl
events_of-append_event count token ev km = sym (append-nil km.tokens)
events_of-append_event token billing ev km = sym (append-nil km.billings)
events_of-append_event token count ev km = sym (append-nil km.counts)
events_of-append_event token token ev km = refl

events_at-add_event :
    (o : Option UsageKind) (q : String) (ev : Event) (meter : UsageMeter) (p : String)
    (k : UsageKind)
    → events_at (add_event o q ev meter) p k ≡ events_at meter p k ++ kept_of o q ev p k
events_at-add_event none q ev meter p k = sym (append-nil (events_at meter p k))
events_at-add_event (some j) q ev meter p k =
    ap (λ km. events_of km k) (find-change q p (append_event j ev) meter)
    ∙ elim (Bool-cases (q == p)) [
      | inl e ↦ rw e (events_of-append_event j k ev (unwrap_or (find p meter) no_events))
      | inr e ↦ rw e (sym (append-nil (events_at meter p k)))
    ]

events_at-add_events :
    (rows : List Row) (meter : UsageMeter) (p : String) (k : UsageKind)
    → events_at (add_events rows meter) p k ≡ events_at meter p k ++ rows_of p k rows
unfolding add_events
events_at-add_events [] meter p k = sym (append-nil (events_at meter p k))
events_at-add_events ((q, ts, kind, amount) ∷ rows) meter p k =
    events_at-add_events rows (add_event (kind_parse kind) q (ts, amount) meter) p k
    ∙ ap (λ l. l ++ rows_of p k rows)
        (events_at-add_event (kind_parse kind) q (ts, amount) meter p k)
    ∙ append_assoc (events_at meter p k) (kept_of (kind_parse kind) q (ts, amount) p k)
        (rows_of p k rows)

events_of-sorted_log :
    (k : UsageKind) (km : ProviderEvents)
    → events_of (sorted_log km) k ≡ sort_events (events_of km k)
events_of-sorted_log billing km = refl
events_of-sorted_log count km = refl
events_of-sorted_log token km = refl

no_events_sorted : (k : UsageKind) → events_of no_events k ≡ sort_events (events_of no_events k)
unfolding sort_events
no_events_sorted billing = refl
no_events_sorted count = refl
no_events_sorted token = refl

events_at-sort_all :
    (meter : UsageMeter) (p : String) (k : UsageKind)
    → events_at (sort_all meter) p k ≡ sort_events (events_at meter p k)
events_at-sort_all [] p k = no_events_sorted k
events_at-sort_all ((name, km) ∷ meter) p k = elim (Bool-cases (name == p)) [
  | inl e ↦ rw e (events_of-sorted_log k km)
  | inr e ↦ rw e (events_at-sort_all meter p k)
]

IsSorted-insert_event_after :
    (e ev : Event) (evs : List Event)
    → e.0 ≤ℤ ev.0
    → IsSorted (e ∷ evs)
    → IsSorted (e ∷ insert_event ev evs)
unfolding insert_event
IsSorted-insert_event_after e ev [] le h = (le, tt)
IsSorted-insert_event_after e ev (f ∷ evs) le (ef, h) = elim (Bool-cases (leb_ℤ ev.0 f.0)) [
  | inl b ↦ rw b (le, (ground arith, h))
  | inr b ↦ rw b (ef, IsSorted-insert_event_after f ev evs (ground arith) h)
]

IsSorted-insert_event :
    (ev : Event) (evs : List Event) → IsSorted evs → IsSorted (insert_event ev evs)
unfolding insert_event
IsSorted-insert_event ev [] h = tt
IsSorted-insert_event ev (f ∷ evs) h = elim (Bool-cases (leb_ℤ ev.0 f.0)) [
  | inl b ↦ rw b (ground arith, h)
  | inr b ↦ rw b (IsSorted-insert_event_after f ev evs (ground arith) h)
]

IsSorted-sort_events : (evs : List Event) → IsSorted (sort_events evs)
unfolding sort_events
IsSorted-sort_events [] = tt
IsSorted-sort_events (e ∷ evs) =
    IsSorted-insert_event e (sort_events evs) (IsSorted-sort_events evs)

-- The events of one time, in their order.
abbrev pub at_time : ℤ → List Event → List Event
at_time ts [] = []
at_time ts (e ∷ evs) =
    let rest = at_time ts evs in if leb_ℤ ts e.0 && leb_ℤ e.0 ts then e ∷ rest else rest

at_time-insert_event :
    (ts : ℤ) (ev : Event) (evs : List Event)
    → at_time ts (insert_event ev evs) ≡ at_time ts (ev ∷ evs)
unfolding insert_event
at_time-insert_event ts ev [] = refl
at_time-insert_event ts ev (f ∷ evs) = elim (Bool-cases (leb_ℤ ev.0 f.0)) [
  | inl b ↦ rw b refl
  | inr b ↦ elim (Bool-cases (leb_ℤ ts f.0 && leb_ℤ f.0 ts)) [
    | inl x ↦ elim (Bool-cases (leb_ℤ ts ev.0 && leb_ℤ ev.0 ts)) [
      | inl y ↦ absurd (ground arith)
      | inr y ↦ rw (b, x, at_time-insert_event ts ev evs, y) refl
    ]
    | inr x ↦ rw (b, x, at_time-insert_event ts ev evs) refl
  ]
]

at_time-sort_events : (ts : ℤ) (evs : List Event) → at_time ts (sort_events evs) ≡ at_time ts evs
unfolding sort_events
at_time-sort_events ts [] = refl
at_time-sort_events ts (e ∷ evs) =
    at_time-insert_event ts e (sort_events evs)
    ∙ ap (λ l. if leb_ℤ ts e.0 && leb_ℤ e.0 ts then e ∷ l else l) (at_time-sort_events ts evs)

-- After a load, the log of a provider and a kind is in the order of time. At every time it has exactly
-- the events that it had, followed by the rows of the provider and the kind, in their order; rows of
-- unknown kinds are skipped.
pub events_at-load :
    (rows : List Row) (meter : UsageMeter) (p : String) (k : UsageKind)
    → IsSorted (events_at (load rows meter) p k)
      × ((ts : ℤ)
          → at_time ts (events_at (load rows meter) p k)
            ≡ at_time ts (events_at meter p k ++ rows_of p k rows))
unfolding load
events_at-load rows meter p k =
    let all = events_at meter p k ++ rows_of p k rows in
    let same =
      events_at-sort_all (add_events rows meter) p k
      ∙ ap sort_events (events_at-add_events rows meter p k) in
    (
      subst IsSorted (sym same) (IsSorted-sort_events all),
      λ ts. ap (at_time ts) same ∙ at_time-sort_events ts all,
    )
