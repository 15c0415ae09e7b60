-- ===== src/Anthropic/Frames.antt =====
-- The state of `AnthropicEmitter` of src/wire/anthropic.rs and the frames that it sends.
use ai_api_bridge.Prelude.{
  ℕ, ◌-◌, String, Bool, false, Option, none, some, List, [], ◌∷◌, if◌then◌else◌,
}
use ai_api_bridge.Json.{Value, null, str, object, array, int}
use ai_api_bridge.Canonical.{UsageCounts}
use ai_api_bridge.Wire.{SseFrame, frame}
use ai_api_bridge.Wire.IndexMap.{IndexMap}

abbrev pub thinking_signature : String
thinking_signature = "bridge-unsigned"

pub record ToolBlock : Type 0 where
  pub index : ℕ
  pub id : String
  pub name : String
  pub args : String

pub record AnthropicEmitter : Type 0 where
  pub message_id : String
  pub model : String
  pub started : Bool
  pub next_index : ℕ
  pub thinking_index : Option ℕ
  pub thinking_text : String
  pub text_index : Option ℕ
  pub text_text : String
  pub tools : IndexMap ToolBlock
  pub any_tool : Bool
  pub usage : Option UsageCounts
  pub final_blocks : List Value

-- `AnthropicEmitter::new`
abbrev pub new : AnthropicEmitter
new = record {
  message_id = "";
  model = "";
  started = false;
  next_index = 0;
  thinking_index = none;
  thinking_text = "";
  text_index = none;
  text_text = "";
  tools = [];
  any_tool = false;
  usage = none;
  final_blocks = [];
}

-- The frames.
abbrev pub message_start : AnthropicEmitter → SseFrame
message_start s = frame "message_start" (
    object (
      ("type", str "message_start")
      ∷ (
        "message",
        object (
            ("id", str s.message_id)
            ∷ ("type", str "message")
            ∷ ("role", str "assistant")
            ∷ ("model", str s.model)
            ∷ ("content", array [])
            ∷ ("stop_reason", null)
            ∷ ("stop_sequence", null)
            ∷ ("usage", object (("input_tokens", int 0) ∷ ("output_tokens", int 0) ∷ []))
            ∷ []),
      )
      ∷ []))

abbrev pub block_start : ℕ → Value → SseFrame
block_start index block = frame "content_block_start" (
    object
      (("type", str "content_block_start") ∷ ("index", int index) ∷ ("content_block", block) ∷ []))

abbrev pub block_delta : ℕ → Value → SseFrame
block_delta index delta =
    frame "content_block_delta"
      (object (("type", str "content_block_delta") ∷ ("index", int index) ∷ ("delta", delta) ∷ []))

abbrev pub block_stop : ℕ → SseFrame
block_stop index =
    frame "content_block_stop"
      (object (("type", str "content_block_stop") ∷ ("index", int index) ∷ []))

abbrev pub thinking_block : String → Value
thinking_block text =
    object (
      ("type", str "thinking")
      ∷ ("thinking", str text)
      ∷ ("signature", str thinking_signature)
      ∷ [])

abbrev pub text_block : String → Value
text_block text = object (("type", str "text") ∷ ("text", str text) ∷ [])

-- `anthropic_usage`; `saturating_sub` is the subtraction of ℕ.
unfoldable pub anthropic_usage : AnthropicEmitter → ℕ × ℕ × ℕ
anthropic_usage s = elim s.usage [
  | none ↦ (0, 0, 0)
  | some u ↦ (u.input_tokens - u.cached_input_tokens, u.output_tokens, u.cached_input_tokens)
]

abbrev pub usage_json : ℕ × ℕ × ℕ → Value
usage_json (uncached, o, cache_read) = object (
    ("input_tokens", int uncached)
    ∷ ("output_tokens", int o)
    ∷ ("cache_read_input_tokens", int cache_read)
    ∷ [])

abbrev pub stop_reason : AnthropicEmitter → String
stop_reason s = if s.any_tool then "tool_use" else "end_turn"

abbrev pub message_delta : AnthropicEmitter → SseFrame
message_delta s = frame "message_delta" (
    object (
      ("type", str "message_delta")
      ∷ ("delta", object (("stop_reason", str (stop_reason s)) ∷ ("stop_sequence", null) ∷ []))
      ∷ ("usage", usage_json (anthropic_usage s))
      ∷ []))

abbrev pub message_stop : SseFrame
message_stop = frame "message_stop" (object (("type", str "message_stop") ∷ []))

-- `final_message`
unfoldable pub final_message : AnthropicEmitter → Value
unfolding anthropic_usage
final_message s = object (
    ("id", str s.message_id)
    ∷ ("type", str "message")
    ∷ ("role", str "assistant")
    ∷ ("model", str s.model)
    ∷ ("content", array s.final_blocks)
    ∷ ("stop_reason", str (stop_reason s))
    ∷ ("stop_sequence", null)
    ∷ ("usage", usage_json (anthropic_usage s))
    ∷ [])

abbrev pub error_frame : String → ℕ → SseFrame
error_frame message status = frame "error" (
    object (
      ("type", str "error")
      ∷ (
        "error",
        object (("type", str "api_error") ∷ ("message", str message) ∷ ("code", int status) ∷ []),
      )
      ∷ []))
