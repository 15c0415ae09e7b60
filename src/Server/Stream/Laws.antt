-- ===== src/Server/Stream/Laws.antt =====
-- What `run_stream` of src/server.rs hands to an emitter, and what the emitters make of it.
use ai_api_bridge.Prelude.{
  ℕ, ◌≡◌, refl, sym, ap, ◌∙◌, subst, String, Bool, true, false, Option, none, some, List, [], ◌∷◌,
  ◌++◌, ◌⊎◌, inl, inr, Bool-cases,
}
use mathlib.Core.Bool.{true≢false}
use ai_api_bridge.Json.{Value}
use ai_api_bridge.Canonical.{
  CanonicalEvent, completed, error, created, reasoning_delta, text_delta, tool_call_start,
  tool_call_args_delta, tool_call_done, usage,
}
use ai_api_bridge.Sse.{Bytes, Text, payload, done}
use ai_api_bridge.Wire.{emit_all}
use ai_api_bridge.Wire.Starts.{saw, StartsOnce, StartsOnce-append}
use ai_api_bridge.Chat.Stream.{ChatStreamParser, on_chunk, new}
use ai_api_bridge.Chat.Stream.Starts.{Threads, on_chunk-Threads}
use ai_api_bridge.Responses.Frames.{new as no_items}
use ai_api_bridge.Responses.Emitter as Responses
use ai_api_bridge.Responses.Balance.{added, done as done_count}
use ai_api_bridge.Responses.Items.{added-eq-done}
use ai_api_bridge.Anthropic.Frames.{new as no_blocks}
use ai_api_bridge.Anthropic.Emitter as Anthropic
use ai_api_bridge.Anthropic.Balance.{starts, stops}
use ai_api_bridge.Anthropic.Blocks.{starts-eq-stops}
use ai_api_bridge.Usage.{Floats}
use ai_api_bridge.Server.Stream.{
  Chunk, Input, item, failure, Picked, is_error, until_error, unless_stopped, unless_finished,
  parsed, run, run_stream, received,
}

-- The events before an error start no call twice; without an error they are all the events.
StartsOnce-until_error :
    (seen : List ℕ) (evs : List CanonicalEvent)
    → StartsOnce seen evs
    → StartsOnce seen (until_error evs).0
StartsOnce-until_error seen [] h = tt
StartsOnce-until_error seen (ev ∷ evs) (n, h) = elim (Bool-cases (is_error ev)) [
  | inl e ↦ rw e (n, tt)
  | inr e ↦ rw e (n, StartsOnce-until_error (saw seen ev) evs h)
]

until_error_all :
    (evs : List CanonicalEvent) → (until_error evs).1 ≡ false → (until_error evs).0 ≡ evs
until_error_all [] h = refl
until_error_all (ev ∷ evs) h = elim (Bool-cases (is_error ev)) [
  | inl e ↦ absurd (true≢false (sym (rw e refl) ∙ h))
  | inr e ↦ rw e (ap (λ l. ev ∷ l) (until_error_all evs (sym (rw e refl) ∙ h)))
]

StartsOnce-unless_stopped :
    (seen reached : List ℕ) (evs : List CanonicalEvent) (picked : Picked)
    (later : List CanonicalEvent × Picked)
    → Threads seen evs reached
    → StartsOnce reached later.0
    → StartsOnce seen (unless_stopped (until_error evs) picked later).0
StartsOnce-unless_stopped seen reached evs picked later (once, same) h =
    elim (Bool-cases (until_error evs).1) [
      | inl e ↦ rw e (StartsOnce-until_error seen evs once)
      | inr e ↦
          rw (e, until_error_all evs e)
            (StartsOnce-append seen evs later.0 once
              (subst (λ s. StartsOnce s later.0) (sym same) h))
    ]

-- What holds of both branches holds of the result.
of_parsed :
    (P : List CanonicalEvent → Type 0) (o : Option Value) (skipped : List CanonicalEvent × Picked)
    (next : Value → List CanonicalEvent × Picked)
    → P skipped.0
    → ((json : Value) → P (next json).0)
    → P (parsed o skipped next).0
of_parsed P none skipped next h k = h
of_parsed P (some json) skipped next h k = k json

of_unless_finished :
    (P : List CanonicalEvent → Type 0) (finished : Bool)
    (skipped later : List CanonicalEvent × Picked)
    → P skipped.0
    → P later.0
    → P (unless_finished finished skipped later).0
of_unless_finished P true skipped later h k = h
of_unless_finished P false skipped later h k = k

-- The events end with `Completed` or with an error.
data Ends : List CanonicalEvent → Type 0 where
  with_completed : Ends (completed ∷ [])
  with_error : (m : String) (status : ℕ) → Ends (error m status ∷ [])
  earlier : {evs : List CanonicalEvent} (ev : CanonicalEvent) → Ends evs → Ends (ev ∷ evs)

Ends-append : (xs ys : List CanonicalEvent) → Ends ys → Ends (xs ++ ys)
Ends-append [] ys h = h
Ends-append (x ∷ xs) ys h = earlier x (Ends-append xs ys h)

Ends-is_error : (ev : CanonicalEvent) → is_error ev ≡ true → Ends (ev ∷ [])
Ends-is_error (error m status) h = with_error m status
Ends-is_error completed h = with_completed
Ends-is_error (created r m) h = absurd (true≢false (sym h))
Ends-is_error (reasoning_delta t) h = absurd (true≢false (sym h))
Ends-is_error (text_delta t) h = absurd (true≢false (sym h))
Ends-is_error (tool_call_start i c n) h = absurd (true≢false (sym h))
Ends-is_error (tool_call_args_delta i d) h = absurd (true≢false (sym h))
Ends-is_error (tool_call_done i) h = absurd (true≢false (sym h))
Ends-is_error (usage u) h = absurd (true≢false (sym h))

Ends-until_error :
    (evs : List CanonicalEvent) → (until_error evs).1 ≡ true → Ends (until_error evs).0
Ends-until_error [] h = absurd (true≢false (sym h))
Ends-until_error (ev ∷ evs) h = elim (Bool-cases (is_error ev)) [
  | inl e ↦ rw e (Ends-is_error ev e)
  | inr e ↦ rw e (earlier ev (Ends-until_error evs (sym (rw e refl) ∙ h)))
]

Ends-unless_stopped :
    (evs : List CanonicalEvent) (picked : Picked) (later : List CanonicalEvent × Picked)
    → Ends later.0
    → Ends (unless_stopped (until_error evs) picked later).0
Ends-unless_stopped evs picked later h = elim (Bool-cases (until_error evs).1) [
  | inl e ↦ rw e (Ends-until_error evs e)
  | inr e ↦ rw e (Ends-append (until_error evs).0 later.0 h)
]

-- A list that ends with an error.
abbrev pub EndsInError : List CanonicalEvent → Type 0
EndsInError evs =
    (pre : List CanonicalEvent) × (m : String) × (status : ℕ) × (evs ≡ pre ++ error m status ∷ [])

Ends-cases :
    (evs : List CanonicalEvent)
    → Ends evs
    → ((pre : List CanonicalEvent) × (evs ≡ pre ++ completed ∷ [])) ⊎ EndsInError evs
Ends-cases evs with_completed = inl ([], refl)
Ends-cases evs (with_error m status) = inr ([], m, status, refl)
Ends-cases evs (earlier {evs = later} ev h) = elim (Ends-cases later h) [
  | inl (pre, e) ↦ inl (ev ∷ pre, ap (λ l. ev ∷ l) e)
  | inr (pre, m, status, e) ↦ inr (ev ∷ pre, m, status, ap (λ l. ev ∷ l) e)
]

module _ (from_utf8_lossy : Bytes → Text) (from_str : Text → Option Value) (F : Floats) where
  run-StartsOnce :
      (track : Bool) (p : ChatStreamParser) (is_complete finished : Bool) (picked : Picked)
      (inputs : List Input)
      → StartsOnce p.started_tools
          (run from_utf8_lossy from_str F track p is_complete finished picked inputs).0
  unfolding run
  run-StartsOnce track p true finished picked [] = tt
  run-StartsOnce track p false finished picked [] = (tt, tt)
  run-StartsOnce track p is_complete finished picked (failure message ∷ inputs) = (tt, tt)
  run-StartsOnce true p is_complete finished picked (item done ∷ inputs) =
      (tt, run-StartsOnce true p true true picked inputs)
  run-StartsOnce false p is_complete finished picked (item done ∷ inputs) = (tt, tt)
  run-StartsOnce track p is_complete finished picked (item (payload d) ∷ inputs) =
      of_parsed (StartsOnce p.started_tools) (from_str d) _ _
        (run-StartsOnce track p is_complete finished picked inputs)
        (λ json.
          of_unless_finished (StartsOnce p.started_tools) finished _ _
            (run-StartsOnce track p is_complete finished _ inputs)
            (StartsOnce-unless_stopped p.started_tools (on_chunk json p).1.started_tools
              (on_chunk json p).0 _ _ (on_chunk-Threads json p)
              (run-StartsOnce track (on_chunk json p).1 is_complete finished _ inputs)))

  -- After the end mark.
  drained-Ends :
      (track : Bool) (p : ChatStreamParser) (inputs : List Input) (picked : Picked)
      → Ends (completed ∷ (run from_utf8_lossy from_str F track p true true picked inputs).0)
  unfolding run
  drained-Ends track p [] picked = with_completed
  drained-Ends track p (failure message ∷ inputs) picked =
      earlier completed (with_error message 502)
  drained-Ends true p (item done ∷ inputs) picked =
      earlier completed (drained-Ends true p inputs picked)
  drained-Ends false p (item done ∷ inputs) picked = earlier completed with_completed
  drained-Ends track p (item (payload d) ∷ inputs) picked =
      of_parsed (λ evs. Ends (completed ∷ evs)) (from_str d) _ _
        (drained-Ends track p inputs picked) (λ json. drained-Ends track p inputs _)

  run-Ends :
      (track : Bool) (p : ChatStreamParser) (picked : Picked) (inputs : List Input)
      → Ends (run from_utf8_lossy from_str F track p false false picked inputs).0
  unfolding run
  run-Ends track p picked [] = with_completed
  run-Ends track p picked (failure message ∷ inputs) = with_error message 502
  run-Ends true p picked (item done ∷ inputs) = drained-Ends true p inputs picked
  run-Ends false p picked (item done ∷ inputs) = with_completed
  run-Ends track p picked (item (payload d) ∷ inputs) =
      of_parsed Ends (from_str d) _ _ (run-Ends track p picked inputs) (λ json.
        Ends-unless_stopped (on_chunk json p).0 _ _ (run-Ends track (on_chunk json p).1 _ inputs))

  -- Whatever the network gives, in a run of a stream the emitter gets no tool-call index started
  -- twice.
  pub run_stream-StartsOnce :
      (track : Bool) (response_id : String) (chunks : List Chunk)
      → StartsOnce [] (run_stream from_utf8_lossy from_str F track response_id chunks).0
  unfolding run_stream
  run_stream-StartsOnce track response_id chunks =
      run-StartsOnce track (new response_id) false false _
        (received from_utf8_lossy from_str F [] chunks)

  run_stream-Ends :
      (track : Bool) (response_id : String) (chunks : List Chunk)
      → Ends (run_stream from_utf8_lossy from_str F track response_id chunks).0
  unfolding run_stream
  run_stream-Ends track response_id chunks =
      run-Ends track (new response_id) _ (received from_utf8_lossy from_str F [] chunks)

  -- Whatever the network gives, the events of a run end with an error, or the frames that the
  -- emitters make of them are balanced: the Responses emitter finishes every output item as often as
  -- it adds it, and the Anthropic emitter stops every content block as often as it starts it.
  pub run_stream_balanced :
      (uuid : ℕ → String) (parse : String → Option Value) (track : Bool) (response_id : String)
      (chunks : List Chunk) (i : ℕ)
      → let evs = (run_stream from_utf8_lossy from_str F track response_id chunks).0 in
        let r = emit_all (Responses.on_event uuid) evs no_items in
        let a = emit_all (Anthropic.on_event parse) evs no_blocks in
        EndsInError evs
        ⊎ ((added i r.frames ≡ done_count i r.frames) × (starts i a.frames ≡ stops i a.frames))
  run_stream_balanced uuid parse track response_id chunks i =
      let once = run_stream-StartsOnce track response_id chunks in
      elim (Ends-cases _ (run_stream-Ends track response_id chunks)) [
        | inl (pre, e) ↦
            let h = subst (StartsOnce []) e once in
            inr (rw e (added-eq-done uuid i pre h, starts-eq-stops parse i pre h))
        | inr failed ↦ inl failed
      ]
