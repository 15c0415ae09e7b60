-- ===== src/Server/Stream.antt =====
-- The loop that drives an upstream stream (`run_stream` of src/server.rs): the events that it hands
-- to the emitter of the client's format, and the usage that it picks up. `serde_json::from_str`
-- and `from_utf8_lossy` are parameters.
pub mod Laws
pub mod Panics
use ai_api_bridge.Prelude.{
  ℕ, String, Bool, true, false, Option, none, some, List, [], ◌∷◌, ◌++◌, map, if◌then◌else◌,
  or_else, and_then,
}
use ai_api_bridge.Json.{Value, get, get_u64}
use ai_api_bridge.Canonical.{CanonicalEvent, completed, error}
use ai_api_bridge.Config.{Float64}
use ai_api_bridge.Sse.{Bytes, Text, SseItem, payload, done, push}
use ai_api_bridge.Chat.Stream.{ChatStreamParser, on_chunk, new}
use ai_api_bridge.Usage.{Floats, tokens_from_usage, parse_cost}

-- What the network gives: the bytes of a chunk, or the text of an error.
pub data Chunk : Type 0 where
  bytes : Bytes → Chunk
  broken : String → Chunk

-- The chunks as the decoder cuts them.
pub data Input : Type 0 where
  item : SseItem → Input
  failure : String → Input

-- `cost`, `ptok` and `ctok`
pub record Picked : Type 0 where
  pub cost : Option Float64
  pub ptok : Option ℕ
  pub ctok : Option ℕ

abbrev pub is_error : CanonicalEvent → Bool
is_error (error m s) = true
is_error ev = false

-- The events up to the first error, and whether there is one.
abbrev pub until_error : List CanonicalEvent → List CanonicalEvent × Bool
until_error [] = ([], false)
until_error (ev ∷ evs) =
    let (sent, stopped) = until_error evs in
    if is_error ev then (ev ∷ [], true) else (ev ∷ sent, stopped)

abbrev pub after : List CanonicalEvent → List CanonicalEvent × Picked → List CanonicalEvent × Picked
after evs (later, picked) = (evs ++ later, picked)

-- The loop over `on_chunk`'s events: an error ends the stream.
abbrev pub unless_stopped :
    List CanonicalEvent × Bool
    → Picked
    → List CanonicalEvent × Picked
    → List CanonicalEvent × Picked
unless_stopped (sent, stopped) picked later = if stopped then (sent, picked) else after sent later

abbrev pub unless_finished :
    Bool
    → List CanonicalEvent × Picked
    → List CanonicalEvent × Picked
    → List CanonicalEvent × Picked
unless_finished finished skipped later = if finished then skipped else later

-- Data that is not JSON is skipped.
abbrev pub parsed :
    Option Value
    → List CanonicalEvent × Picked
    → (Value → List CanonicalEvent × Picked)
    → List CanonicalEvent × Picked
parsed none skipped next = skipped
parsed (some json) skipped next = next json

module _ (from_utf8_lossy : Bytes → Text) (from_str : Text → Option Value) (F : Floats) where
  unfoldable pub received : Bytes → List Chunk → List Input
  unfolding push
  received buf [] = []
  received buf (bytes chunk ∷ chunks) =
      let d = push from_utf8_lossy buf chunk in map item d.found ++ received d.buf chunks
  received buf (broken message ∷ chunks) = failure message ∷ received buf chunks

  -- What is captured of a chunk when usage is tracked.
  abbrev pub pick : Bool → Value → Picked → Picked
  pick false json picked = picked
  pick true json picked =
      let (pt, ct) = tokens_from_usage (get "usage" json) in
      record {
        cost = or_else (and_then (get "cost" json) (parse_cost F)) picked.cost;
        ptok = or_else pt picked.ptok;
        ctok = or_else ct picked.ctok;
      }

  -- The rest of the loop, with the parser and the flags `completed` and `done`.
  unfoldable pub run :
      Bool → ChatStreamParser → Bool → Bool → Picked → List Input → List CanonicalEvent × Picked
  unfolding on_chunk
  run track p is_complete finished picked [] =
      ((if is_complete then [] else completed ∷ []), picked)
  run track p is_complete finished picked (failure message ∷ inputs) =
      (error message 502 ∷ [], picked)
  run track p is_complete finished picked (item done ∷ inputs) =
      let later = run track p true true picked inputs in
      after (completed ∷ []) (if track then later else ([], picked))
  run track p is_complete finished picked (item (payload d) ∷ inputs) =
      parsed (from_str d) (run track p is_complete finished picked inputs) (λ json.
        let picked' = pick track json picked in
        unless_finished finished (run track p is_complete finished picked' inputs) (
          unless_stopped (until_error (on_chunk json p).0) picked'
            (run track (on_chunk json p).1 is_complete finished picked' inputs)))

  unfoldable pub run_stream : Bool → String → List Chunk → List CanonicalEvent × Picked
  unfolding run received
  run_stream track response_id chunks =
      run track (new response_id) false false (record { cost = none; ptok = none; ctok = none })
        (received [] chunks)
