-- ===== src/Responses/Items.antt =====
-- Streams of src/wire/responses.rs: the life of output items, the final response, and the sequence
-- numbers.
use ai_api_bridge.Prelude.{
  ℕ, ◌≡◌, refl, ap, ◌∙◌, none, List, [], ◌∷◌, ◌++◌, String, nat_eq, false, arith, contains,
}
use ai_api_bridge.Canonical.{
  CanonicalEvent, created, reasoning_delta, text_delta, tool_call_start, tool_call_args_delta,
  tool_call_done, usage, completed, error,
}
use ai_api_bridge.Wire.{Emitted, ◌>>◌, emit_all, emit_all-concat_state}
use ai_api_bridge.Wire.Starts.{IsNew, saw, StartsOnce}
use ai_api_bridge.Wire.IndexMap
use ai_api_bridge.Responses.Frames.{ToolItem, ResponsesEmitter, new}
use ai_api_bridge.Responses.Emitter.{
  ensure_reasoning_open, close_reasoning, ensure_message_open, close_message, push_reasoning,
  push_text, start_tool, push_args, finish_tool, finish_all, close_open_tools, finish_response,
  handle, on_event,
}
use ai_api_bridge.Responses.Numbers.{hits-number_frames}
use ai_api_bridge.Responses.Balance.{
  added, done, item_at, open_items, Balances, Balances->>, Balances-close_reasoning,
  Balances-close_message, Balances-finish_response, Balances-push_reasoning, Balances-push_text,
  Balances-tool_args, Balances-tool_done, finish_all-done, Balances-close_open_tools,
  Balances-ensure_reasoning_open, Balances-ensure_message_open, Balances-start_tool,
}

-- Every index of an open tool call has been seen.
abbrev Tracks : List ℕ → ResponsesEmitter → Type 0
Tracks seen s = (k : ℕ) → contains seen k ≡ false → IndexMap.find k s.tools ≡ none

before_tool : ResponsesEmitter → Emitted ResponsesEmitter
before_tool = close_reasoning >> close_message

before_tool_tools : (s : ResponsesEmitter) → (before_tool s).state.tools ≡ s.tools
unfolding before_tool close_reasoning close_message
before_tool_tools s = ground arith

-- After it neither reasoning nor a message is open.
before_tool_closed :
    (s : ResponsesEmitter)
    → ((before_tool s).state.reasoning_item ≡ none) × ((before_tool s).state.message_item ≡ none)
unfolding before_tool close_reasoning close_message
before_tool_closed s = ground arith

Balances-before_tool : (i : ℕ) (s : ResponsesEmitter) → Balances i s (before_tool s)
unfolding before_tool
Balances-before_tool i s =
    Balances->> i close_reasoning close_message s (Balances-close_reasoning i s)
      (Balances-close_message i (close_reasoning s).state)

finish_all_tools :
    (ts : List ToolItem) (s : ResponsesEmitter) → (finish_all ts s).state.tools ≡ s.tools
unfolding finish_all
finish_all_tools [] s = refl
finish_all_tools (t ∷ ts) s = finish_all_tools ts (finish_tool t s).state

close_open_tools_tools : (s : ResponsesEmitter) → (close_open_tools s).state.tools ≡ []
unfolding close_open_tools
close_open_tools_tools s = finish_all_tools (IndexMap.values s.tools) (record s { tools = [] })

module _ (uuid : ℕ → String) where
  Balances-handle :
      (i : ℕ) (seen : List ℕ) (ev : CanonicalEvent) (s : ResponsesEmitter)
      → Tracks seen s
      → IsNew seen ev
      → Balances i s (handle uuid ev s)
  unfolding handle
  Balances-handle i seen (created id model) s t n = refl
  Balances-handle i seen (reasoning_delta text) s t n =
      Balances->> i (ensure_reasoning_open uuid) (push_reasoning text) s
        (Balances-ensure_reasoning_open uuid i s)
        (Balances-push_reasoning i text (ensure_reasoning_open uuid s).state)
  Balances-handle i seen (text_delta text) s t n =
      Balances->> i (close_reasoning >> ensure_message_open uuid) (push_text text) s
        (Balances->> i close_reasoning (ensure_message_open uuid) s (Balances-close_reasoning i s)
          (Balances-ensure_message_open uuid i (close_reasoning s).state))
        (Balances-push_text i text ((close_reasoning >> ensure_message_open uuid) s).state)
  Balances-handle i seen (tool_call_start index id name) s t n =
      Balances->> i (close_reasoning >> close_message) (start_tool uuid index id name) s
        (unfold before_tool in Balances-before_tool i s)
        (Balances-start_tool uuid i index id name ((close_reasoning >> close_message) s).state
          (unfold before_tool in (ap (IndexMap.find index) (before_tool_tools s) ∙ t index n)))
  Balances-handle i seen (tool_call_args_delta index delta) s t n =
      Balances-tool_args i index delta s
  Balances-handle i seen (tool_call_done index) s t n = Balances-tool_done i index s
  Balances-handle i seen (usage counts) s t n = refl
  Balances-handle i seen completed s t n =
      Balances->> i (close_reasoning >> close_message >> close_open_tools) finish_response s
        (Balances->> i (close_reasoning >> close_message) close_open_tools s
          (unfold before_tool in Balances-before_tool i s)
          (Balances-close_open_tools i ((close_reasoning >> close_message) s).state))
        (Balances-finish_response i
          ((close_reasoning >> close_message >> close_open_tools) s).state)
  Balances-handle i seen (error message status) s t n = refl

  Tracks-handle :
      (seen : List ℕ) (ev : CanonicalEvent) (s : ResponsesEmitter)
      → Tracks seen s
      → Tracks (saw seen ev) (handle uuid ev s).state
  unfolding handle
  Tracks-handle seen (created id model) s t k h = t k h
  Tracks-handle seen (reasoning_delta text) s t k h = ground (arith, t k h)
  Tracks-handle seen (text_delta text) s t k h = ground (arith, t k h)
  Tracks-handle seen (tool_call_start index id name) s t k h =
      let s' = ((close_reasoning >> close_message) s).state in
      let same : s'.tools ≡ s.tools = unfold before_tool in before_tool_tools s in
      rw (IndexMap.find-insert, same) (ground (arith, t k))
  Tracks-handle seen (tool_call_args_delta index delta) s t k h =
      ground (arith, IndexMap.find-update index k (push_args delta) s.tools (t k h), t k h)
  Tracks-handle seen (tool_call_done index) s t k h =
      ground (arith, IndexMap.find-remove index k s.tools (t k h), t k h)
  Tracks-handle seen (usage counts) s t k h = t k h
  Tracks-handle seen completed s t k h =
      ap (IndexMap.find k) (close_open_tools_tools ((close_reasoning >> close_message) s).state)
  Tracks-handle seen (error message status) s t k h = t k h

  -- Numbering changes neither the counts nor what is open.
  Balances-on_event :
      (i : ℕ) (seen : List ℕ) (ev : CanonicalEvent) (s : ResponsesEmitter)
      → Tracks seen s
      → IsNew seen ev
      → Balances i s (on_event uuid ev s)
  unfolding on_event
  Balances-on_event i seen ev s t n =
      let a = handle uuid ev s in
      omega (
        arith,
        Balances-handle i seen ev s t n,
        hits-number_frames "response.output_item.added" i a.state.seq a.frames,
        hits-number_frames "response.output_item.done" i a.state.seq a.frames,
      )

  Tracks-on_event :
      (seen : List ℕ) (ev : CanonicalEvent) (s : ResponsesEmitter)
      → Tracks seen s
      → Tracks (saw seen ev) (on_event uuid ev s).state
  unfolding on_event
  Tracks-on_event seen ev s t = Tracks-handle seen ev s t

  Balances-emit_all :
      (i : ℕ) (seen : List ℕ) (evs : List CanonicalEvent) (s : ResponsesEmitter)
      → Tracks seen s
      → StartsOnce seen evs
      → Balances i s (emit_all (on_event uuid) evs s)
  unfolding emit_all
  Balances-emit_all i seen [] s t h = refl
  Balances-emit_all i seen (ev ∷ evs) s t h =
      Balances->> i (on_event uuid ev) (emit_all (on_event uuid) evs) s
        (Balances-on_event i seen ev s t h.0)
        (Balances-emit_all i (saw seen ev) evs (on_event uuid ev s).state
          (Tracks-on_event seen ev s t) h.1)

  -- `Completed` leaves no item open.
  open_items-completed :
      (i : ℕ) (s : ResponsesEmitter) → open_items i (on_event uuid completed s).state ≡ 0
  unfolding on_event handle close_open_tools
  open_items-completed i s =
      let s' = ((close_reasoning >> close_message) s).state in
      let closed : (s'.reasoning_item ≡ none) × (s'.message_item ≡ none) =
        unfold before_tool in before_tool_closed s in
      omega (
        arith,
        finish_all-done i s'.tools (record s' { tools = [] }),
        ap (item_at i) closed.0,
        ap (item_at i) closed.1,
      )

  -- A stream that ends in `Completed` and starts no tool-call index twice finishes every output item
  -- as often as it adds it.
  pub added-eq-done :
      (i : ℕ) (evs : List CanonicalEvent)
      → StartsOnce [] (evs ++ completed ∷ [])
      → let a = emit_all (on_event uuid) (evs ++ completed ∷ []) new in
        added i a.frames ≡ done i a.frames
  added-eq-done i evs h = omega (
    arith,
    Balances-emit_all i [] (evs ++ completed ∷ []) new (λ k e. refl) h,
    ap (open_items i) (emit_all-concat_state (on_event uuid) evs completed new),
    open_items-completed i (emit_all (on_event uuid) evs new).state,
  )
