-- ===== src/Anthropic/Panics.antt =====
-- No `unwrap` of src/wire/anthropic.rs panics.
use ai_api_bridge.Prelude.{◌≡◌, refl, false, Option, List, [], ◌∷◌, String, arith}
use ai_api_bridge.Json.{Value}
use ai_api_bridge.Canonical.{
  CanonicalEvent, created, reasoning_delta, text_delta, tool_call_start, tool_call_args_delta,
  tool_call_done, usage, completed, error,
}
use ai_api_bridge.Wire.{◌>>◌, emit_all}
use ai_api_bridge.Wire.IndexMap
use ai_api_bridge.Anthropic.Frames.{AnthropicEmitter, ToolBlock}
use ai_api_bridge.Anthropic.Emitter.{
  start, ensure_thinking_open, close_thinking, ensure_text_open, close_text, push_thinking,
  push_text, finish_tool, finish_all, close_open_tools, on_event,
}

think_quiet :
    (text : String) (s : AnthropicEmitter)
    → ((start >> ensure_thinking_open >> push_thinking text) s).panicked ≡ false
unfolding start ensure_thinking_open push_thinking
think_quiet text s = ground arith

say_quiet :
    (text : String) (s : AnthropicEmitter)
    → ((start >> close_thinking >> ensure_text_open >> push_text text) s).panicked ≡ false
unfolding start close_thinking ensure_text_open push_text
say_quiet text s = ground arith

module _ (from_str : String → Option Value) where
  finish_all_quiet :
      (tbs : List ToolBlock) (s : AnthropicEmitter) → (finish_all from_str tbs s).panicked ≡ false
  unfolding finish_all
  finish_all_quiet [] s = refl
  finish_all_quiet (tb ∷ tbs) s = finish_all_quiet tbs (finish_tool from_str tb s).state

  on_event_quiet :
      (ev : CanonicalEvent) (s : AnthropicEmitter) → (on_event from_str ev s).panicked ≡ false
  unfolding on_event close_open_tools
  on_event_quiet (created id model) s = ground arith
  on_event_quiet (reasoning_delta text) s = think_quiet text s
  on_event_quiet (text_delta text) s = say_quiet text s
  on_event_quiet (tool_call_start index id name) s = ground arith
  on_event_quiet (tool_call_args_delta index delta) s = ground arith
  on_event_quiet (tool_call_done index) s = ground arith
  on_event_quiet (usage counts) s = refl
  on_event_quiet completed s =
      let s' = ((close_thinking >> close_text) s).state in
      ground (arith, finish_all_quiet (IndexMap.values s'.tools) (record s' { tools = [] }))
  on_event_quiet (error message status) s = refl

  -- No method of the emitter panics, whatever the events and the state.
  pub anthropic_never_panics :
      (evs : List CanonicalEvent) (s : AnthropicEmitter)
      → (emit_all (on_event from_str) evs s).panicked ≡ false
  unfolding emit_all
  anthropic_never_panics [] s = refl
  anthropic_never_panics (ev ∷ evs) s =
      ground (arith, on_event_quiet ev s, anthropic_never_panics evs (on_event from_str ev s).state)
