-- ===== src/Anthropic/Blocks.antt =====
-- The life of a content block in a stream of src/wire/anthropic.rs: every block that is started is
-- stopped.
use ai_api_bridge.Prelude.{
  ℕ, ◌+◌, ◌≡◌, refl, none, List, [], ◌∷◌, ◌++◌, String, nat_eq, false, arith, Option, contains, ap,
  ◌∙◌,
}
use ai_api_bridge.Json.{Value}
use ai_api_bridge.Canonical.{
  CanonicalEvent, created, reasoning_delta, text_delta, tool_call_start, tool_call_args_delta,
  tool_call_done, usage, completed, error,
}
use ai_api_bridge.Wire.{Emitted, ◌>>◌, emit_all, emit_all-concat_state}
use ai_api_bridge.Wire.Starts.{IsNew, saw, StartsOnce}
use ai_api_bridge.Wire.Counting.{here}
use ai_api_bridge.Wire.IndexMap
use ai_api_bridge.Anthropic.Frames.{AnthropicEmitter, ToolBlock, new}
use ai_api_bridge.Anthropic.Emitter.{
  start, ensure_thinking_open, close_thinking, ensure_text_open, close_text, push_thinking,
  push_text, start_tool, finish_tool, finish_all, close_open_tools, finish_message, on_event,
  push_args,
}
use ai_api_bridge.Anthropic.Balance.{
  starts, stops, open_blocks, Balances, Balances->>, Balances-start, Balances-ensure_thinking_open,
  Balances-close_thinking, Balances-ensure_text_open, Balances-close_text, Balances-finish_message,
  Balances-push_thinking, Balances-push_text, Balances-start_tool, Balances-tool_args,
  Balances-tool_done, finish_all-stops, Balances-close_open_tools,
}

-- Every index of an open tool call has been seen.
abbrev Tracks : List ℕ → AnthropicEmitter → Type 0
Tracks seen s = (k : ℕ) → contains seen k ≡ false → IndexMap.find k s.tools ≡ none

before_tool : AnthropicEmitter → Emitted AnthropicEmitter
before_tool = start >> close_thinking >> close_text

before_tool_tools : (s : AnthropicEmitter) → (before_tool s).state.tools ≡ s.tools
unfolding before_tool start close_thinking close_text
before_tool_tools s = ground arith

Balances-before_tool : (i : ℕ) (s : AnthropicEmitter) → Balances i s (before_tool s)
unfolding before_tool
Balances-before_tool i s =
    Balances->> i (start >> close_thinking) close_text s
      (Balances->> i start close_thinking s (Balances-start i s)
        (Balances-close_thinking i (start s).state))
      (Balances-close_text i ((start >> close_thinking) s).state)

module _ (from_str : String → Option Value) where
  Balances-on_event :
      (i : ℕ) (seen : List ℕ) (ev : CanonicalEvent) (s : AnthropicEmitter)
      → Tracks seen s
      → IsNew seen ev
      → Balances i s (on_event from_str ev s)
  unfolding on_event
  Balances-on_event i seen (created id model) s t n =
      Balances-start i (record s { message_id = id; model = model })
  Balances-on_event i seen (reasoning_delta text) s t n =
      Balances->> i (start >> ensure_thinking_open) (push_thinking text) s
        (Balances->> i start ensure_thinking_open s (Balances-start i s)
          (Balances-ensure_thinking_open i (start s).state))
        (Balances-push_thinking i text ((start >> ensure_thinking_open) s).state)
  Balances-on_event i seen (text_delta text) s t n =
      Balances->> i (start >> close_thinking >> ensure_text_open) (push_text text) s
        (Balances->> i (start >> close_thinking) ensure_text_open s
          (Balances->> i start close_thinking s (Balances-start i s)
            (Balances-close_thinking i (start s).state))
          (Balances-ensure_text_open i ((start >> close_thinking) s).state))
        (Balances-push_text i text ((start >> close_thinking >> ensure_text_open) s).state)
  Balances-on_event i seen (tool_call_start index id name) s t n =
      Balances->> i (start >> close_thinking >> close_text) (start_tool index id name) s
        (unfold before_tool in Balances-before_tool i s)
        (Balances-start_tool i index id name ((start >> close_thinking >> close_text) s).state
          (unfold before_tool in (ap (IndexMap.find index) (before_tool_tools s) ∙ t index n)))
  Balances-on_event i seen (tool_call_args_delta index delta) s t n =
      Balances-tool_args i index delta s
  Balances-on_event i seen (tool_call_done index) s t n = Balances-tool_done from_str i index s
  Balances-on_event i seen (usage counts) s t n = refl
  Balances-on_event i seen completed s t n =
      Balances->> i (close_thinking >> close_text >> close_open_tools from_str) finish_message s
        (Balances->> i (close_thinking >> close_text) (close_open_tools from_str) s
          (Balances->> i close_thinking close_text s (Balances-close_thinking i s)
            (Balances-close_text i (close_thinking s).state))
          (Balances-close_open_tools from_str i ((close_thinking >> close_text) s).state))
        (Balances-finish_message i
          ((close_thinking >> close_text >> close_open_tools from_str) s).state)
  Balances-on_event i seen (error message status) s t n = refl

  finish_all_tools :
      (tbs : List ToolBlock) (s : AnthropicEmitter)
      → (finish_all from_str tbs s).state.tools ≡ s.tools
  unfolding finish_all
  finish_all_tools [] s = refl
  finish_all_tools (tb ∷ tbs) s = finish_all_tools tbs (finish_tool from_str tb s).state

  close_open_tools_tools : (s : AnthropicEmitter) → (close_open_tools from_str s).state.tools ≡ []
  unfolding close_open_tools
  close_open_tools_tools s = finish_all_tools (IndexMap.values s.tools) (record s { tools = [] })

  Tracks-on_event :
      (seen : List ℕ) (ev : CanonicalEvent) (s : AnthropicEmitter)
      → Tracks seen s
      → Tracks (saw seen ev) (on_event from_str ev s).state
  unfolding on_event
  Tracks-on_event seen (created id model) s t k h = ground (arith, t k h)
  Tracks-on_event seen (reasoning_delta text) s t k h = ground (arith, t k h)
  Tracks-on_event seen (text_delta text) s t k h = ground (arith, t k h)
  Tracks-on_event seen (tool_call_start index id name) s t k h =
      let s' = ((start >> close_thinking >> close_text) s).state in
      let tb : ToolBlock = record { index = s'.next_index; id = id; name = name; args = "" } in
      let same : s'.tools ≡ s.tools = unfold before_tool in before_tool_tools s in
      rw (IndexMap.find-insert index k tb s'.tools, same) (ground (arith, t k))
  Tracks-on_event seen (tool_call_args_delta index delta) s t k h =
      ground (arith, IndexMap.find-update index k (push_args delta) s.tools (t k h), t k h)
  Tracks-on_event seen (tool_call_done index) s t k h =
      ground (arith, IndexMap.find-remove index k s.tools (t k h), t k h)
  Tracks-on_event seen (usage counts) s t k h = t k h
  Tracks-on_event seen completed s t k h =
      ap (IndexMap.find k) (close_open_tools_tools ((close_thinking >> close_text) s).state)
  Tracks-on_event seen (error message status) s t k h = t k h

  Balances-emit_all :
      (i : ℕ) (seen : List ℕ) (evs : List CanonicalEvent) (s : AnthropicEmitter)
      → Tracks seen s
      → StartsOnce seen evs
      → Balances i s (emit_all (on_event from_str) evs s)
  unfolding emit_all
  Balances-emit_all i seen [] s t h = refl
  Balances-emit_all i seen (ev ∷ evs) s t h =
      Balances->> i (on_event from_str ev) (emit_all (on_event from_str) evs) s
        (Balances-on_event i seen ev s t h.0)
        (Balances-emit_all i (saw seen ev) evs (on_event from_str ev s).state
          (Tracks-on_event seen ev s t) h.1)

  -- After any events that start no tool-call index twice, a block has been started as often as it
  -- has been stopped, and once more for each time that the emitter holds it open.
  pub starts-emit_all :
      (i : ℕ) (evs : List CanonicalEvent)
      → StartsOnce [] evs
      → let a = emit_all (on_event from_str) evs new in
        starts i a.frames ≡ stops i a.frames + open_blocks i a.state
  starts-emit_all i evs h = omega (arith, Balances-emit_all i [] evs new (λ k e. refl) h)

  closed :
      (s : AnthropicEmitter)
      → let s' = ((close_thinking >> close_text) s).state in
        (s'.thinking_index ≡ none) × (s'.text_index ≡ none)
  unfolding close_thinking close_text
  closed s = ground arith

  -- `Completed` leaves no block open.
  open_blocks-completed :
      (i : ℕ) (s : AnthropicEmitter) → open_blocks i (on_event from_str completed s).state ≡ 0
  unfolding on_event close_open_tools
  open_blocks-completed i s =
      let s' = ((close_thinking >> close_text) s).state in
      omega (
        arith,
        finish_all-stops from_str i s'.tools (record s' { tools = [] }),
        ap (here i) (closed s).0,
        ap (here i) (closed s).1,
      )

  -- A stream that ends in `Completed` and starts no tool-call index twice stops every block as often
  -- as it starts it.
  pub starts-eq-stops :
      (i : ℕ) (evs : List CanonicalEvent)
      → StartsOnce [] (evs ++ completed ∷ [])
      → let a = emit_all (on_event from_str) (evs ++ completed ∷ []) new in
        starts i a.frames ≡ stops i a.frames
  starts-eq-stops i evs h = omega (
    arith,
    starts-emit_all i (evs ++ completed ∷ []) h,
    ap (open_blocks i) (emit_all-concat_state (on_event from_str) evs completed new),
    open_blocks-completed i (emit_all (on_event from_str) evs new).state,
  )
