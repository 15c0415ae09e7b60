-- ===== src/Anthropic/Emitter.antt =====
-- `AnthropicEmitter` of src/wire/anthropic.rs: canonical events to Anthropic Messages frames.
-- `serde_json::from_str` is a parameter.
use ai_api_bridge.Prelude.{
  ℕ, String, true, Option, none, some, List, [], ◌∷◌, ◌++◌, if◌then◌else◌, unwrap_or, push_str,
}
use ai_api_bridge.Json.{Value, str, object}
use ai_api_bridge.Canonical.{
  CanonicalEvent, created, reasoning_delta, text_delta, tool_call_start, tool_call_args_delta,
  tool_call_done, usage, completed, error,
}
use ai_api_bridge.Wire.{Emitted, next_u32, pushed, nothing, panic, ◌>>◌, CanonicalEmitter}
use ai_api_bridge.Wire.IndexMap
use ai_api_bridge.Wire.IndexMap.{IndexMap}
use ai_api_bridge.Anthropic.Frames.{
  thinking_signature, ToolBlock, AnthropicEmitter, message_start, block_start, block_delta,
  block_stop, thinking_block, text_block, anthropic_usage, message_delta, message_stop, error_frame,
}

unfoldable pub start : AnthropicEmitter → Emitted AnthropicEmitter
start s =
    if s.started then nothing s else pushed (message_start s ∷ []) (record s { started = true })

-- `alloc_index`: the index, and the state after it.
abbrev pub alloc_index : AnthropicEmitter → ℕ × AnthropicEmitter
alloc_index s = (s.next_index, record s { next_index = next_u32 s.next_index })

abbrev open_thinking : ℕ × AnthropicEmitter → Emitted AnthropicEmitter
open_thinking (index, s) =
    pushed (block_start index (object (("type", str "thinking") ∷ ("thinking", str "") ∷ [])) ∷ [])
      (record s { thinking_index = some index })

unfoldable pub ensure_thinking_open : AnthropicEmitter → Emitted AnthropicEmitter
ensure_thinking_open s = elim s.thinking_index [
  | some _ ↦ nothing s
  | none ↦ open_thinking (alloc_index s)
]

unfoldable pub close_thinking : AnthropicEmitter → Emitted AnthropicEmitter
close_thinking s = elim s.thinking_index [
  | none ↦ nothing s
  | some index ↦
      pushed
        (block_delta index
            (object (("type", str "signature_delta") ∷ ("signature", str thinking_signature) ∷ []))
          ∷ block_stop index
          ∷ [])
        (record s {
          thinking_index = none;
          final_blocks = s.final_blocks ++ thinking_block s.thinking_text ∷ [];
        })
]

abbrev open_text : ℕ × AnthropicEmitter → Emitted AnthropicEmitter
open_text (index, s) =
    pushed (block_start index (object (("type", str "text") ∷ ("text", str "") ∷ [])) ∷ [])
      (record s { text_index = some index })

unfoldable pub ensure_text_open : AnthropicEmitter → Emitted AnthropicEmitter
ensure_text_open s = elim s.text_index [ some _ ↦ nothing s | none ↦ open_text (alloc_index s) ]

unfoldable pub close_text : AnthropicEmitter → Emitted AnthropicEmitter
close_text s = elim s.text_index [
  | none ↦ nothing s
  | some index ↦
      pushed (block_stop index ∷ []) (record s {
        text_index = none;
        final_blocks = s.final_blocks ++ text_block s.text_text ∷ [];
      })
]

-- The rest of the branch for a reasoning delta.
unfoldable pub push_thinking : String → AnthropicEmitter → Emitted AnthropicEmitter
push_thinking text s =
    let s' = record s { thinking_text = push_str s.thinking_text text } in
    elim s.thinking_index [
      | none ↦ panic s'
      | some index ↦
          pushed
            (block_delta index
                (object (("type", str "thinking_delta") ∷ ("thinking", str text) ∷ []))
              ∷ [])
            s'
    ]

-- The rest of the branch for a text delta.
unfoldable pub push_text : String → AnthropicEmitter → Emitted AnthropicEmitter
push_text text s =
    let s' = record s { text_text = push_str s.text_text text } in
    elim s.text_index [
      | none ↦ panic s'
      | some index ↦
          pushed
            (block_delta index (object (("type", str "text_delta") ∷ ("text", str text) ∷ [])) ∷ [])
            s'
    ]

abbrev open_tool : ℕ → String → String → ℕ × AnthropicEmitter → Emitted AnthropicEmitter
open_tool index call_id name (block_index, s) =
    pushed
      (block_start block_index (
          object (
            ("type", str "tool_use")
            ∷ ("id", str call_id)
            ∷ ("name", str name)
            ∷ ("input", object [])
            ∷ []))
        ∷ [])
      (record s {
        any_tool = true;
        tools =
            IndexMap.insert index
              (record { index = block_index; id = call_id; name = name; args = "" }) s.tools;
      })

-- The rest of the branch for the start of a tool call.
unfoldable pub start_tool : ℕ → String → String → AnthropicEmitter → Emitted AnthropicEmitter
start_tool index call_id name s = open_tool index call_id name (alloc_index s)

abbrev pub push_args : String → ToolBlock → ToolBlock
push_args delta tb = record tb { args = push_str tb.args delta }

unfoldable pub tool_args : ℕ → String → AnthropicEmitter → Emitted AnthropicEmitter
tool_args index delta s = elim (IndexMap.find index s.tools) [
  | none ↦ nothing s
  | some tb ↦
      pushed
        (block_delta tb.index
            (object (("type", str "input_json_delta") ∷ ("partial_json", str delta) ∷ []))
          ∷ [])
        (record s { tools = IndexMap.update index (push_args delta) s.tools })
]

-- The end of the branch for `Completed`.
unfoldable pub finish_message : AnthropicEmitter → Emitted AnthropicEmitter
unfolding anthropic_usage
finish_message s = pushed (message_delta s ∷ message_stop ∷ []) s

module _ (from_str : String → Option Value) where
  abbrev pub tool_block : ToolBlock → Value
  tool_block tb = object (
      ("type", str "tool_use")
      ∷ ("id", str tb.id)
      ∷ ("name", str tb.name)
      ∷ ("input", unwrap_or (from_str tb.args) (object []))
      ∷ [])

  unfoldable pub finish_tool : ToolBlock → AnthropicEmitter → Emitted AnthropicEmitter
  finish_tool tb s =
      pushed (block_stop tb.index ∷ [])
        (record s { final_blocks = s.final_blocks ++ tool_block tb ∷ [] })

  -- `if let Some(tb) = self.tools.remove(index)`
  unfoldable pub tool_done : ℕ → AnthropicEmitter → Emitted AnthropicEmitter
  unfolding finish_tool
  tool_done index s = elim (IndexMap.find index s.tools) [
    | none ↦ nothing s
    | some tb ↦ finish_tool tb (record s { tools = IndexMap.remove index s.tools })
  ]

  unfoldable pub finish_all : List ToolBlock → AnthropicEmitter → Emitted AnthropicEmitter
  unfolding finish_tool
  finish_all [] s = nothing s
  finish_all (tb ∷ tbs) s = (finish_tool tb >> finish_all tbs) s

  unfoldable pub close_open_tools : AnthropicEmitter → Emitted AnthropicEmitter
  unfolding finish_all
  close_open_tools s = finish_all (IndexMap.values s.tools) (record s { tools = [] })

  unfoldable pub on_event : CanonicalEvent → AnthropicEmitter → Emitted AnthropicEmitter
  unfolding start ensure_thinking_open close_thinking ensure_text_open close_text push_thinking
      push_text start_tool tool_args tool_done close_open_tools finish_message
  on_event (created response_id model) s =
      start (record s { message_id = response_id; model = model })
  on_event (reasoning_delta text) s = (start >> ensure_thinking_open >> push_thinking text) s
  on_event (text_delta text) s = (start >> close_thinking >> ensure_text_open >> push_text text) s
  on_event (tool_call_start index call_id name) s =
      (start >> close_thinking >> close_text >> start_tool index call_id name) s
  on_event (tool_call_args_delta index delta) s = tool_args index delta s
  on_event (tool_call_done index) s = tool_done index s
  on_event (usage counts) s = nothing (record s { usage = some counts })
  on_event completed s = (close_thinking >> close_text >> close_open_tools >> finish_message) s
  on_event (error message status) s = pushed (error_frame message status ∷ []) s

  abbrev pub anthropic : CanonicalEmitter AnthropicEmitter
  anthropic = record { emit = on_event }
