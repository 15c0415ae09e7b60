-- ===== src/Responses/Sequence.antt =====
-- The frames of src/wire/responses.rs over a whole stream: their sequence numbers, and that no
-- `unwrap` panics.
use ai_api_bridge.Prelude.{
  ℕ, ◌≡◌, refl, subst, false, List, [], ◌∷◌, String, All, All-append, arith,
}
use ai_api_bridge.Canonical.{
  CanonicalEvent, created, reasoning_delta, text_delta, tool_call_start, tool_call_args_delta,
  tool_call_done, usage, completed, error,
}
use ai_api_bridge.Wire.{Emitted, ◌>>◌, emit_all}
use ai_api_bridge.Wire.IndexMap
use ai_api_bridge.Responses.Frames.{ToolItem, ResponsesEmitter}
use ai_api_bridge.Responses.Emitter.{
  ensure_reasoning_open, close_reasoning, ensure_message_open, close_message, push_reasoning,
  push_text, start_tool, tool_args, finish_tool, tool_done, finish_all, close_open_tools,
  finish_response, number_frames, handle, on_event,
}
use ai_api_bridge.Responses.Numbers.{IsObject, Counts, Counts-append, Counts-number_frames}

-- Every payload is an object, and nothing has panicked.
record IsProper (a : Emitted ResponsesEmitter) : Type 0 where
  objects : All (λ f. IsObject f.body) a.frames
  quiet : a.panicked ≡ false

-- Which state a method needs so as not to panic is what the method before it leaves.
IsProper->> :
    (m k : ResponsesEmitter → Emitted ResponsesEmitter) (s : ResponsesEmitter)
    → IsProper (m s)
    → IsProper (k (m s).state)
    → IsProper ((m >> k) s)
IsProper->> m k s p q = record {
  objects =
      All-append (λ f. IsObject f.body) (m s).frames (k (m s).state).frames p.objects q.objects;
  quiet = ground arith;
}

IsProper-close_reasoning : (s : ResponsesEmitter) → IsProper (close_reasoning s)
unfolding close_reasoning
IsProper-close_reasoning s = ground arith

IsProper-close_message : (s : ResponsesEmitter) → IsProper (close_message s)
unfolding close_message
IsProper-close_message s = ground arith

IsProper-finish_response : (s : ResponsesEmitter) → IsProper (finish_response s)
unfolding finish_response
IsProper-finish_response s = ground arith

IsProper-tool_args :
    (index : ℕ) (delta : String) (s : ResponsesEmitter) → IsProper (tool_args index delta s)
unfolding tool_args
IsProper-tool_args index delta s = ground arith

IsProper-tool_done : (index : ℕ) (s : ResponsesEmitter) → IsProper (tool_done index s)
unfolding tool_done
IsProper-tool_done index s = ground arith

IsProper-finish_all : (ts : List ToolItem) (s : ResponsesEmitter) → IsProper (finish_all ts s)
unfolding finish_all
IsProper-finish_all [] s = ground arith
IsProper-finish_all (t ∷ ts) s =
    IsProper->> (finish_tool t) (finish_all ts) s (ground arith)
      (IsProper-finish_all ts (finish_tool t s).state)

IsProper-close_open_tools : (s : ResponsesEmitter) → IsProper (close_open_tools s)
unfolding close_open_tools
IsProper-close_open_tools s =
    IsProper-finish_all (IndexMap.values s.tools) (record s { tools = [] })

finish_all_seq : (ts : List ToolItem) (s : ResponsesEmitter) → (finish_all ts s).state.seq ≡ s.seq
unfolding finish_all
finish_all_seq [] s = refl
finish_all_seq (t ∷ ts) s = finish_all_seq ts (finish_tool t s).state

module _ (uuid : ℕ → String) where
  IsProper-reason :
      (text : String) (s : ResponsesEmitter)
      → IsProper ((ensure_reasoning_open uuid >> push_reasoning text) s)
  unfolding ensure_reasoning_open push_reasoning
  IsProper-reason text s = ground arith

  IsProper-say :
      (text : String) (s : ResponsesEmitter)
      → IsProper ((ensure_message_open uuid >> push_text text) s)
  unfolding ensure_message_open push_text
  IsProper-say text s = ground arith

  IsProper-text :
      (text : String) (s : ResponsesEmitter)
      → IsProper ((close_reasoning >> ensure_message_open uuid >> push_text text) s)
  unfolding close_reasoning ensure_message_open push_text
  IsProper-text text s = ground arith

  IsProper-handle : (ev : CanonicalEvent) (s : ResponsesEmitter) → IsProper (handle uuid ev s)
  unfolding handle
  IsProper-handle (created id model) s = ground arith
  IsProper-handle (reasoning_delta text) s = IsProper-reason text s
  IsProper-handle (text_delta text) s = IsProper-text text s
  IsProper-handle (tool_call_start index id name) s =
      IsProper->> (close_reasoning >> close_message) (start_tool uuid index id name) s
        (IsProper->> close_reasoning close_message s (IsProper-close_reasoning s)
          (IsProper-close_message (close_reasoning s).state))
        (ground arith)
  IsProper-handle (tool_call_args_delta index delta) s = IsProper-tool_args index delta s
  IsProper-handle (tool_call_done index) s = IsProper-tool_done index s
  IsProper-handle (usage counts) s = ground arith
  IsProper-handle completed s =
      IsProper->> (close_reasoning >> close_message >> close_open_tools) finish_response s
        (IsProper->> (close_reasoning >> close_message) close_open_tools s
          (IsProper->> close_reasoning close_message s (IsProper-close_reasoning s)
            (IsProper-close_message (close_reasoning s).state))
          (IsProper-close_open_tools ((close_reasoning >> close_message) s).state))
        (IsProper-finish_response ((close_reasoning >> close_message >> close_open_tools) s).state)
  IsProper-handle (error message status) s = ground arith

  -- No method of the emitter panics, whatever the events and the state.
  pub responses_never_panics :
      (evs : List CanonicalEvent) (s : ResponsesEmitter)
      → (emit_all (on_event uuid) evs s).panicked ≡ false
  unfolding emit_all on_event
  responses_never_panics [] s = refl
  responses_never_panics (ev ∷ evs) s =
      ground
        (arith, (IsProper-handle ev s).quiet, responses_never_panics evs (on_event uuid ev s).state)

  handle_seq : (ev : CanonicalEvent) (s : ResponsesEmitter) → (handle uuid ev s).state.seq ≡ s.seq
  unfolding handle close_open_tools
  handle_seq (created id model) s = refl
  handle_seq (reasoning_delta text) s = ground arith
  handle_seq (text_delta text) s = ground arith
  handle_seq (tool_call_start index id name) s = ground arith
  handle_seq (tool_call_args_delta index delta) s = ground arith
  handle_seq (tool_call_done index) s = ground arith
  handle_seq (usage counts) s = refl
  handle_seq completed s =
      let s' = ((close_reasoning >> close_message) s).state in
      ground (arith, finish_all_seq (IndexMap.values s'.tools) (record s' { tools = [] }))
  handle_seq (error message status) s = refl

  one :
      (ev : CanonicalEvent) (s : ResponsesEmitter)
      → let a = on_event uuid ev s in Counts s.seq a.frames a.state.seq
  unfolding on_event
  one ev s =
      let a = handle uuid ev s in
      subst
        (λ n.
          Counts n (number_frames a.state.seq a.frames).0 (number_frames a.state.seq a.frames).1)
        (handle_seq ev s) (Counts-number_frames a.state.seq a.frames (IsProper-handle ev s).objects)

  -- The frames of a stream carry consecutive sequence numbers from the emitter's counter on, which
  -- is left at the number of the next frame.
  pub emit_all-Counts :
      (evs : List CanonicalEvent) (s : ResponsesEmitter)
      → let a = emit_all (on_event uuid) evs s in Counts s.seq a.frames a.state.seq
  unfolding emit_all
  emit_all-Counts [] s = refl
  emit_all-Counts (ev ∷ evs) s =
      let a = on_event uuid ev s in
      let b = emit_all (on_event uuid) evs a.state in
      Counts-append s.seq a.state.seq b.state.seq a.frames b.frames (one ev s)
        (emit_all-Counts evs a.state)
