-- ===== src/Wire/Counting.antt =====
-- Counting frames of one kind that carry one index; the measures by which the emitters' frames and
-- states are compared.
use ai_api_bridge.Prelude.{
  ℕ, ◌+◌, ◌≡◌, String, Option, none, some, List, [], ◌∷◌, ◌++◌, ◌==◌, nat_eq, string_eq, ltb,
  if◌then◌else◌, arith,
}
use ai_api_bridge.Json.{get_u64}
use ai_api_bridge.Wire.{SseFrame, Emitted, ◌>>◌}

-- 1 where the value is `i`.
abbrev pub here : ℕ → Option ℕ → ℕ
here i none = 0
here i (some j) = if j == i then 1 else 0

-- 1 where `i` has been given out, if `next` is the next index to give.
abbrev pub below : ℕ → ℕ → ℕ
below i next = if ltb i next then 1 else 0

abbrev pub hit : String → String → ℕ → SseFrame → ℕ
hit event key i f = if f.event == event then here i (get_u64 key f.body) else 0

-- How many frames of this event have the index `i` under this key.
abbrev pub hits : String → String → ℕ → List SseFrame → ℕ
hits event key i [] = 0
hits event key i (f ∷ fs) = hit event key i f + hits event key i fs

pub hits-append :
    (event key : String) (i : ℕ) (fs gs : List SseFrame)
    → hits event key i (fs ++ gs) ≡ hits event key i fs + hits event key i gs
hits-append event key i [] gs = omega arith
hits-append event key i (f ∷ fs) gs = omega (arith, hits-append event key i fs gs)

-- Bookkeeping of what frames start and stop: the two events, the key of the index, and how often a
-- state holds an index open.
module _ {S : Type 0} (start stop key : String) (opened : ℕ → S → ℕ) where
  -- What is started is stopped or stays open.
  abbrev pub Balances : ℕ → S → Emitted S → Type 0
  Balances i s a =
      hits start key i a.frames + opened i s ≡ hits stop key i a.frames + opened i a.state

  pub Balances->> :
      (i : ℕ) (m k : S → Emitted S) (s : S)
      → Balances i s (m s)
      → Balances i (m s).state (k (m s).state)
      → Balances i s ((m >> k) s)
  Balances->> i m k s p q = omega (
    arith,
    hits-append start key i (m s).frames (k (m s).state).frames,
    hits-append stop key i (m s).frames (k (m s).state).frames,
  )
