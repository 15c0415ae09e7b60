-- ===== src/Examples/Metering.antt =====
-- Runs of the usage log, with floats that are compared by their bits.
use ai_api_bridge.Prelude.{
  List, ℕ, ℤ, ◌+◌, ◌-◌, ◌≡◌, ◌≢◌, refl, true, none, [], ◌∷◌, ◌++◌, map, leb, ltb, pos, arith,
}
use ai_api_bridge.Config.{Float64, bits, billing, count, UsageWindow}
use ai_api_bridge.Usage.{Floats, UsageMeter, events_at, record_usage, window_stat, windows}
use ai_api_bridge.Usage.Load.{Row, load}
use ai_api_bridge.Usage.Load.Laws.{rows_of, IsSorted, at_time, events_at-load}
use ai_api_bridge.Usage.Window.{windows-record_usage}

abbrev bits_of : Float64 → ℕ
bits_of (bits n) = n

-- Whole numbers in place of floats.
abbrev pub whole_numbers : Floats
whole_numbers = record {
  is_finite = λ a. true;
  le = λ a b. leb (bits_of a) (bits_of b);
  gt = λ a b. ltb (bits_of b) (bits_of a);
  add = λ a b. bits (bits_of a + bits_of b);
  sub = λ a b. bits (bits_of a - bits_of b);
  max = λ a b. a;
  zero = bits 0;
  one = bits 1;
  of_ℕ = λ n. bits n;
  of_number = λ n. bits 0;
  parse = λ s. none;
  mul = λ a b. a;
  div = λ a b. a;
  million = bits 1000000;
}

abbrev hours : UsageWindow
hours = record { label = "5h"; window_secs = 18000; limit = bits 10 }

abbrev meter : UsageMeter
meter = ("a", record { billings = (pos 1, bits 2) ∷ []; counts = []; tokens = [] }) ∷ []

windows-record_usage_example :
    windows whole_numbers
      (record_usage whole_numbers "a" billing (bits 3) (pos 5000000) meter)
      "a"
      billing
      (hours ∷ [])
      (pos 5000010)
    ≡ map
        (window_stat whole_numbers
          (events_at meter "a" billing ++ (pos 5000000, bits 3) ∷ [])
          (pos 5000010))
        (hours ∷ [])
windows-record_usage_example =
    windows-record_usage whole_numbers "a" billing (bits 3) (pos 5000000) (pos 5000010) meter
      (hours ∷ []) refl (omega arith) (omega arith, tt)

billing≢count : billing ≢ count
billing≢count h = cc

-- Out of order, and of an unknown kind.
abbrev persisted : List Row
persisted =
    ("a", pos 20, "count", bits 1)
    ∷ ("a", pos 10, "count", bits 2)
    ∷ ("a", pos 5, "bytes", bits 3)
    ∷ []

events_at-load_example :
    IsSorted (events_at (load persisted []) "a" count)
    × ((ts : ℤ)
        → at_time ts (events_at (load persisted []) "a" count)
          ≡ at_time ts (events_at [] "a" count ++ rows_of "a" count persisted))
events_at-load_example = events_at-load persisted [] "a" count
