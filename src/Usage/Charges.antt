-- ===== src/Usage/Charges.antt =====
-- That the log in memory and the rows in the store (src/usage.rs) are charged alike.
use ai_api_bridge.Prelude.{
  ℕ, String, not, ◌||◌, Option, none, some, List, [], ◌∷◌, ◌++◌, ◌==◌, string_eq, unwrap_or, map, ℤ,
  pos, ◌-ℤ◌, leb_ℤ, ◌≡◌, refl, sym, ap, ◌∙◌, append_assoc, append-nil, Bool-cases, inl, inr,
}
use ai_api_bridge.Config.{
  Float64, find, UsageKind, billing, count, token, kind_as_str, kind_parse, ModelPrice,
}
use ai_api_bridge.Config.Laws.{kind_printed}
use ai_api_bridge.Store.{UsageRow, Database}
use ai_api_bridge.Store.Tables.{usage_row, event_of}
use ai_api_bridge.Usage.{
  Floats, retain_secs, Event, ProviderEvents, no_events, events_of, set_events, UsageMeter,
  events_at, change, retain, pushed, Ledger, persist_event, record_usage, record_charge, record_if,
  amount_for, record_amounts,
}
use ai_api_bridge.Usage.Window.{find-change}
use ai_api_bridge.Usage.Persistence.{grow}
use ai_api_bridge.Usage.Load.Laws.{same_kind, event_if, kept_of, rows_of}

retain-append : (c : ℤ) (xs ys : List Event) → retain c (xs ++ ys) ≡ retain c xs ++ retain c ys
retain-append c [] ys = refl
retain-append c ((ts, amount) ∷ xs) ys = elim (Bool-cases (leb_ℤ c ts)) [
  | inl e ↦ rw e (ap (λ l. (ts, amount) ∷ l) (retain-append c xs ys))
  | inr e ↦ rw e (retain-append c xs ys)
]

retain_idem : (c : ℤ) (xs : List Event) → retain c (retain c xs) ≡ retain c xs
retain_idem c [] = refl
retain_idem c ((ts, amount) ∷ xs) = elim (Bool-cases (leb_ℤ c ts)) [
  | inl e ↦ rw (e, e) (ap (λ l. (ts, amount) ∷ l) (retain_idem c xs))
  | inr e ↦ rw e (retain_idem c xs)
]

-- The events of a provider and a kind among the rows.
abbrev pub charged_rows : String → UsageKind → List UsageRow → List Event
charged_rows p k rows = rows_of p k (map event_of rows)

charged_rows-append :
    (p : String) (k : UsageKind) (xs ys : List UsageRow)
    → charged_rows p k (xs ++ ys) ≡ charged_rows p k xs ++ charged_rows p k ys
charged_rows-append p k [] ys = refl
charged_rows-append p k (x ∷ xs) ys =
    let here = kept_of (kind_parse x.usage_type) x.provider (x.ts, x.amount) p k in
    ap (λ l. here ++ l) (charged_rows-append p k xs ys)
    ∙ sym (append_assoc here (charged_rows p k xs) (charged_rows p k ys))

nothing_kept : (c : ℤ) (v : List Event) → retain c v ≡ retain c (v ++ [])
nothing_kept c v = ap (retain c) (sym (append-nil v))

-- What is earlier is pruned.
abbrev pub horizon : ℤ → ℤ
horizon now = now -ℤ pos retain_secs

events_of-pushed :
    (j k : UsageKind) (now : ℤ) (amount : Float64) (km : ProviderEvents)
    → let c = horizon now in
      retain c (events_of (set_events j (pushed now amount (events_of km j)) km) k)
      ≡ retain c (events_of km k ++ event_if (same_kind j k) (now, amount))
events_of-pushed billing billing now amount km =
    retain_idem (horizon now) (km.billings ++ (now, amount) ∷ [])
events_of-pushed billing count now amount km = nothing_kept (horizon now) km.counts
events_of-pushed billing token now amount km = nothing_kept (horizon now) km.tokens
events_of-pushed count billing now amount km = nothing_kept (horizon now) km.billings
events_of-pushed count count now amount km =
    retain_idem (horizon now) (km.counts ++ (now, amount) ∷ [])
events_of-pushed count token now amount km = nothing_kept (horizon now) km.tokens
events_of-pushed token billing now amount km = nothing_kept (horizon now) km.billings
events_of-pushed token count now amount km = nothing_kept (horizon now) km.counts
events_of-pushed token token now amount km =
    retain_idem (horizon now) (km.tokens ++ (now, amount) ∷ [])

charged_at :
    (provider : String) (kind : UsageKind) (amount : Float64) (now : ℤ) (meter : UsageMeter)
    (p : String) (k : UsageKind)
    → let row = usage_row provider now (kind_as_str kind) amount in
      retain (horizon now) (
        events_at
          (change provider (λ km. set_events kind (pushed now amount (events_of km kind)) km) meter)
          p
          k)
      ≡ retain (horizon now) (events_at meter p k ++ charged_rows p k (row ∷ []))
charged_at provider kind amount now meter p k =
    let c = horizon now in
    let km = unwrap_or (find p meter) no_events in
    ap (λ km. retain c (events_of km k))
      (find-change provider p (λ km. set_events kind (pushed now amount (events_of km kind)) km)
        meter)
    ∙ elim (Bool-cases (provider == p)) [
      | inl e ↦
          rw (kind_printed kind, e)
            (events_of-pushed kind k now amount km
              ∙ ap (λ l. retain c (events_of km k ++ l))
                  (sym (append-nil (event_if (same_kind kind k) (now, amount)))))
      | inr e ↦ rw (kind_printed kind, e) (nothing_kept c (events_of km k))
    ]

-- The database has some more rows, and the log of every provider and kind has the events of these
-- rows, but for what is before the horizon.
abbrev pub Charged : ℤ → UsageMeter → Database → Ledger → Type 0
Charged c meter db ledger =
    (rows : List UsageRow) × (ledger.database ≡ some (grow rows db))
    × ((p : String) (k : UsageKind)
        → retain c (events_at ledger.meter p k)
          ≡ retain c (events_at meter p k ++ charged_rows p k rows))

Charged-nothing :
    (c : ℤ) (db : Database) (ledger : Ledger)
    → ledger.database ≡ some db
    → Charged c ledger.meter db ledger
Charged-nothing c db ledger d = (
  [],
  d ∙ ap (λ l. some (record db { usage_events = l })) (sym (append-nil db.usage_events)),
  λ p k. nothing_kept c (events_at ledger.meter p k),
)

Charged-trans :
    (c : ℤ) (meter : UsageMeter) (db : Database) (mid : Ledger) (later : Ledger)
    → Charged c meter db mid
    → ((db' : Database) → mid.database ≡ some db' → Charged c mid.meter db' later)
    → Charged c meter db later
Charged-trans c meter db mid later (xs, d, h) next =
    let (ys, e, k) = next (grow xs db) d in
    (
      xs ++ ys,
      e ∙ ap (λ l. some (record db { usage_events = l })) (append_assoc db.usage_events xs ys),
      λ p j.
          let rx = charged_rows p j xs in
          let ry = charged_rows p j ys in
          let old = events_at meter p j in
          k p j
          ∙ retain-append c (events_at mid.meter p j) ry
          ∙ ap (λ l. l ++ retain c ry) (h p j)
          ∙ sym (retain-append c (old ++ rx) ry)
          ∙ ap (retain c) (append_assoc old rx ry)
          ∙ ap (λ l. retain c (old ++ l)) (sym (charged_rows-append p j xs ys)),
    )

module _ (F : Floats) where
  Charged-record_charge :
      (provider : String) (kind : UsageKind) (amount : Float64) (now : ℤ) (db : Database)
      (ledger : Ledger)
      → ledger.database ≡ some db
      → Charged (horizon now) ledger.meter db (record_charge F provider kind amount now ledger)
  unfolding record_charge record_usage
  Charged-record_charge provider kind amount now db ledger d =
      elim (Bool-cases (not (F.is_finite amount) || F.le amount F.zero)) [
        | inl e ↦ rw e (Charged-nothing (horizon now) db ledger d)
        | inr e ↦ rw e (
          usage_row provider now (kind_as_str kind) amount ∷ [],
          ap (persist_event provider now kind amount) d,
          charged_at provider kind amount now ledger.meter,
        )
      ]

  Charged-record_if :
      (provider : String) (kind : UsageKind) (now : ℤ) (amount : Option Float64) (db : Database)
      (ledger : Ledger)
      → ledger.database ≡ some db
      → Charged (horizon now) ledger.meter db (record_if F provider kind now amount ledger)
  Charged-record_if provider kind now none db ledger d = Charged-nothing (horizon now) db ledger d
  Charged-record_if provider kind now (some amount) db ledger d =
      Charged-record_charge provider kind amount now db ledger d

  -- The charges of a request are made alike in the store and in memory: the database gets rows at the
  -- end, and the log of every provider and kind has, within the 31 days that it is kept for, the
  -- events that it had, followed by those of the rows of the provider and the kind.
  pub record_amounts-Charged :
      (provider : String) (kinds : List (UsageKind × Option ModelPrice)) (real : Option Float64)
      (pt ct : Option ℕ) (now : ℤ) (db : Database) (ledger : Ledger)
      → ledger.database ≡ some db
      → Charged
          (horizon now)
          ledger.meter
          db
          (record_amounts F provider kinds real pt ct now ledger)
  unfolding record_amounts
  record_amounts-Charged provider [] real pt ct now db ledger d =
      Charged-nothing (horizon now) db ledger d
  record_amounts-Charged provider ((kind, price) ∷ kinds) real pt ct now db ledger d =
      let amount = amount_for F kind price real pt ct in
      let mid = record_if F provider kind now amount ledger in
      Charged-trans (horizon now) ledger.meter db mid _
        (Charged-record_if provider kind now amount db ledger d)
        (λ db' e. record_amounts-Charged provider kinds real pt ct now db' mid e)
