-- ===== src/Usage/Persistence.antt =====
-- What charges (`UsageMeter::record` of src/usage.rs) write to the database.
use mathlib.Core.Option
use ai_api_bridge.Prelude.{
  ℕ, String, not, ◌||◌, Option, none, some, List, [], ◌∷◌, ◌++◌, ℤ, ◌≡◌, refl, sym, ap, ◌∙◌,
  append_assoc, append-nil, Bool-cases, inl, inr,
}
use ai_api_bridge.Config.{Float64, kind_as_str, UsageKind, ModelPrice}
use ai_api_bridge.Store.{UsageRow, Database}
use ai_api_bridge.Store.Tables.{usage_row}
use ai_api_bridge.Usage.{
  Floats, Ledger, persist_event, record_charge, record_if, amount_for, record_amounts,
}

abbrev pub grow : List UsageRow → Database → Database
grow rows db = record db { usage_events = db.usage_events ++ rows }

-- The database has some more rows of usage at the end, and is the same otherwise.
abbrev pub Grown : Option Database → Option Database → Type 0
Grown o p = (rows : List UsageRow) × (p ≡ Option.map (grow rows) o)

pub Grown-refl : (o : Option Database) → Grown o o
Grown-refl none = ([], refl)
Grown-refl (some db) = ([], ap (λ l. some (record db { usage_events = l })) (sym (append-nil _)))

Grown-trans : (o p q : Option Database) → Grown o p → Grown p q → Grown o q
Grown-trans none p q (xs, h) (ys, k) = (xs, k ∙ ap (Option.map (grow ys)) h)
Grown-trans (some db) p q (xs, h) (ys, k) = (
  xs ++ ys,
  k
      ∙ ap (Option.map (grow ys)) h
      ∙ ap (λ l. some (record db { usage_events = l })) (append_assoc db.usage_events xs ys),
)

Grown-persist_event :
    (provider : String) (now : ℤ) (kind : UsageKind) (amount : Float64) (o : Option Database)
    → Grown o (persist_event provider now kind amount o)
Grown-persist_event provider now kind amount none = ([], refl)
Grown-persist_event provider now kind amount (some db) =
    (usage_row provider now (kind_as_str kind) amount ∷ [], refl)

module _ (F : Floats) where
  Grown-record_charge :
      (provider : String) (kind : UsageKind) (amount : Float64) (now : ℤ) (ledger : Ledger)
      → Grown ledger.database (record_charge F provider kind amount now ledger).database
  unfolding record_charge
  Grown-record_charge provider kind amount now ledger =
      elim (Bool-cases (not (F.is_finite amount) || F.le amount F.zero)) [
        | inl e ↦ rw e (Grown-refl ledger.database)
        | inr e ↦ rw e (Grown-persist_event provider now kind amount ledger.database)
      ]

  Grown-record_if :
      (provider : String) (kind : UsageKind) (now : ℤ) (amount : Option Float64) (ledger : Ledger)
      → Grown ledger.database (record_if F provider kind now amount ledger).database
  Grown-record_if provider kind now none ledger = Grown-refl ledger.database
  Grown-record_if provider kind now (some amount) ledger =
      Grown-record_charge provider kind amount now ledger

  pub Grown-record_amounts :
      (provider : String) (kinds : List (UsageKind × Option ModelPrice)) (real : Option Float64)
      (pt ct : Option ℕ) (now : ℤ) (ledger : Ledger)
      → Grown ledger.database (record_amounts F provider kinds real pt ct now ledger).database
  unfolding record_amounts
  Grown-record_amounts provider [] real pt ct now ledger = Grown-refl ledger.database
  Grown-record_amounts provider ((kind, price) ∷ kinds) real pt ct now ledger =
      let next = record_if F provider kind now (amount_for F kind price real pt ct) ledger in
      Grown-trans ledger.database next.database _
        (Grown-record_if provider kind now (amount_for F kind price real pt ct) ledger)
        (Grown-record_amounts provider kinds real pt ct now next)
