-- ===== src/Responses/Frames.antt =====
-- The state of `ResponsesEmitter` (src/wire/responses.rs) and the JSON that it builds.
use ai_api_bridge.Prelude.{ℕ, String, Option, none, List, [], ◌∷◌}
use ai_api_bridge.Json.{Value, str, object, array, int}
use ai_api_bridge.Canonical.{UsageCounts}
use ai_api_bridge.Wire.{SseFrame, frame}
use ai_api_bridge.Wire.IndexMap.{IndexMap}

pub record OpenItem : Type 0 where
  pub id : String
  pub output_index : ℕ

pub record ToolItem : Type 0 where
  pub id : String
  pub output_index : ℕ
  pub call_id : String
  pub name : String
  pub args : String

-- `drawn` counts the UUIDs that have been drawn; the other fields are the source's.
pub record ResponsesEmitter : Type 0 where
  pub response_id : String
  pub model : String
  pub next_output_index : ℕ
  pub reasoning_item : Option OpenItem
  pub reasoning_text : String
  pub message_item : Option OpenItem
  pub message_text : String
  pub tools : IndexMap ToolItem
  pub usage : Option UsageCounts
  pub final_items : List Value
  pub seq : ℕ
  pub drawn : ℕ

-- `ResponsesEmitter::new`
abbrev pub new : ResponsesEmitter
new = record {
  response_id = "";
  model = "";
  next_output_index = 0;
  reasoning_item = none;
  reasoning_text = "";
  message_item = none;
  message_text = "";
  tools = [];
  usage = none;
  final_items = [];
  seq = 0;
  drawn = 0;
}

-- `skeleton`
abbrev pub skeleton : String → ResponsesEmitter → Value
skeleton status s = object (
    ("id", str s.response_id)
    ∷ ("object", str "response")
    ∷ ("status", str status)
    ∷ ("model", str s.model)
    ∷ ("output", array [])
    ∷ [])

abbrev pub created_frame : ResponsesEmitter → SseFrame
created_frame s =
    frame "response.created"
      (object (("type", str "response.created") ∷ ("response", skeleton "in_progress" s) ∷ []))

abbrev pub item_added : ℕ → Value → SseFrame
item_added output_index item = frame "response.output_item.added" (
    object (
      ("type", str "response.output_item.added")
      ∷ ("output_index", int output_index)
      ∷ ("item", item)
      ∷ []))

abbrev pub item_done : ℕ → Value → SseFrame
item_done output_index item = frame "response.output_item.done" (
    object (
      ("type", str "response.output_item.done")
      ∷ ("output_index", int output_index)
      ∷ ("item", item)
      ∷ []))

abbrev pub reasoning_started : String → Value
reasoning_started id =
    object (("type", str "reasoning") ∷ ("id", str id) ∷ ("summary", array []) ∷ [])

abbrev pub reasoning_json : String → String → Value
reasoning_json id text = object (
    ("type", str "reasoning")
    ∷ ("id", str id)
    ∷ ("summary", array (object (("type", str "summary_text") ∷ ("text", str text) ∷ []) ∷ []))
    ∷ [])

abbrev pub reasoning_delta_frame : OpenItem → String → SseFrame
reasoning_delta_frame item text = frame "response.reasoning_summary_text.delta" (
    object (
      ("type", str "response.reasoning_summary_text.delta")
      ∷ ("item_id", str item.id)
      ∷ ("output_index", int item.output_index)
      ∷ ("summary_index", int 0)
      ∷ ("delta", str text)
      ∷ []))

abbrev pub message_started : String → Value
message_started id = object (
    ("type", str "message")
    ∷ ("id", str id)
    ∷ ("role", str "assistant")
    ∷ ("status", str "in_progress")
    ∷ ("content", array [])
    ∷ [])

abbrev pub output_text : String → Value
output_text text =
    object (("type", str "output_text") ∷ ("text", str text) ∷ ("annotations", array []) ∷ [])

abbrev pub message_json : String → String → Value
message_json id text = object (
    ("type", str "message")
    ∷ ("id", str id)
    ∷ ("role", str "assistant")
    ∷ ("status", str "completed")
    ∷ ("content", array (output_text text ∷ []))
    ∷ [])

abbrev pub part_added : String → ℕ → SseFrame
part_added id output_index = frame "response.content_part.added" (
    object (
      ("type", str "response.content_part.added")
      ∷ ("item_id", str id)
      ∷ ("output_index", int output_index)
      ∷ ("content_index", int 0)
      ∷ ("part", output_text "")
      ∷ []))

abbrev pub text_delta_frame : OpenItem → String → SseFrame
text_delta_frame item text = frame "response.output_text.delta" (
    object (
      ("type", str "response.output_text.delta")
      ∷ ("item_id", str item.id)
      ∷ ("output_index", int item.output_index)
      ∷ ("content_index", int 0)
      ∷ ("delta", str text)
      ∷ []))

abbrev pub text_done_frame : OpenItem → String → SseFrame
text_done_frame item text = frame "response.output_text.done" (
    object (
      ("type", str "response.output_text.done")
      ∷ ("item_id", str item.id)
      ∷ ("output_index", int item.output_index)
      ∷ ("content_index", int 0)
      ∷ ("text", str text)
      ∷ []))

abbrev pub part_done : OpenItem → String → SseFrame
part_done item text = frame "response.content_part.done" (
    object (
      ("type", str "response.content_part.done")
      ∷ ("item_id", str item.id)
      ∷ ("output_index", int item.output_index)
      ∷ ("content_index", int 0)
      ∷ ("part", output_text text)
      ∷ []))

abbrev pub call_json : String → String → String → String → String → Value
call_json id call_id name args status = object (
    ("type", str "function_call")
    ∷ ("id", str id)
    ∷ ("call_id", str call_id)
    ∷ ("name", str name)
    ∷ ("arguments", str args)
    ∷ ("status", str status)
    ∷ [])

abbrev pub args_delta_frame : ToolItem → String → SseFrame
args_delta_frame t delta = frame "response.function_call_arguments.delta" (
    object (
      ("type", str "response.function_call_arguments.delta")
      ∷ ("item_id", str t.id)
      ∷ ("output_index", int t.output_index)
      ∷ ("delta", str delta)
      ∷ []))

abbrev pub args_done_frame : ToolItem → SseFrame
args_done_frame t = frame "response.function_call_arguments.done" (
    object (
      ("type", str "response.function_call_arguments.done")
      ∷ ("item_id", str t.id)
      ∷ ("output_index", int t.output_index)
      ∷ ("arguments", str t.args)
      ∷ []))

abbrev pub failed_frame : String → String → ℕ → SseFrame
failed_frame response_id message status = frame "response.failed" (
    object (
      ("type", str "response.failed")
      ∷ (
        "response",
        object (
            ("id", str response_id)
            ∷ ("status", str "failed")
            ∷ ("error", object (("code", int status) ∷ ("message", str message) ∷ []))
            ∷ []),
      )
      ∷ []))
