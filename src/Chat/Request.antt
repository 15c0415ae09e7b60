-- ===== src/Chat/Request.antt =====
-- `build_request` of src/wire/chat.rs: the body that is sent upstream. `json!` of an `f32` is a
-- parameter.
pub mod Reading
pub mod Found
pub mod RoundTrip
use ai_api_bridge.Prelude.{
  String, Bool, true, false, Option, none, some, List, [], ◌∷◌, ◌++◌, map, if◌then◌else◌, is_empty,
}
use ai_api_bridge.Json.{Value, null, bool, str, obj, Fields, end, insert, object, array, int}
use ai_api_bridge.Canonical.{
  ToolCall, Message, user, assistant, tool, ToolDef, ToolChoice, auto, none_, required, function,
  Float32, CanonicalRequest, as_str,
}
use ai_api_bridge.Chat.Parents.{normalize_tool_parents}
use ai_api_bridge.Chat.Schema.{sanitize_parameters}

-- A text, or null.
abbrev pub opt_str : Option String → Value
opt_str none = null
opt_str (some s) = str s

-- `if let Some(a) = .. { map.insert(key, ..) }`
abbrev pub put {ℓ} : {A : Type ℓ} → String → (A → Value) → Option A → Fields → Fields
put k f none m = m
put k f (some a) m = insert k (f a) m

abbrev pub tool_call_json : ToolCall → Value
tool_call_json tc = object (
    ("id", str tc.call_id)
    ∷ ("type", str "function")
    ∷ ("function", object (("name", str tc.name) ∷ ("arguments", str tc.arguments) ∷ []))
    ∷ [])

abbrev pub put_tool_calls : List ToolCall → Fields → Fields
put_tool_calls tool_calls m =
    if is_empty tool_calls then m else insert "tool_calls" (array (map tool_call_json tool_calls)) m

unfoldable pub message_json : Message → Value
message_json (user text) = object (("role", str "user") ∷ ("content", str text) ∷ [])
message_json (assistant text reasoning_content tool_calls) = obj (
    put_tool_calls tool_calls (
      put "reasoning_content" str reasoning_content
        (insert "content" (opt_str text) (insert "role" (str "assistant") end))))
message_json (tool call_id output) =
    object (("role", str "tool") ∷ ("tool_call_id", str call_id) ∷ ("content", str output) ∷ [])

abbrev pub system_json : Option String → List Value
system_json none = []
system_json (some sys) = object (("role", str "system") ∷ ("content", str sys) ∷ []) ∷ []

unfoldable pub messages_json : Option String → List Message → List Value
unfolding message_json normalize_tool_parents
messages_json system messages =
    system_json system ++ map message_json (normalize_tool_parents messages)

unfoldable pub tool_choice_json : ToolChoice → Value
tool_choice_json auto = str "auto"
tool_choice_json none_ = str "none"
tool_choice_json required = str "required"
tool_choice_json (function name) =
    object (("type", str "function") ∷ ("function", object (("name", str name) ∷ [])) ∷ [])

unfoldable pub tool_json : ToolDef → Value
unfolding sanitize_parameters
tool_json t = object (
    ("type", str "function")
    ∷ (
      "function",
      object (
          ("name", str t.name)
          ∷ ("description", opt_str t.description)
          ∷ ("parameters", sanitize_parameters t.parameters)
          ∷ []),
    )
    ∷ [])

unfoldable pub put_tools : List ToolDef → ToolChoice → Fields → Fields
unfolding tool_json tool_choice_json
put_tools tools choice body =
    if is_empty tools
    then body
    else insert "tool_choice" (tool_choice_json choice)
        (insert "tools" (array (map tool_json tools)) body)

abbrev pub put_stream : Bool → Fields → Fields
put_stream false body = body
put_stream true body =
    insert "stream_options" (object (("include_usage", bool true) ∷ []))
      (insert "stream" (bool true) body)

module _ (json_f32 : Float32 → Value) where
  unfoldable pub build_request : CanonicalRequest → String → String → Value
  unfolding messages_json put_tools
  build_request req upstream_model max_tokens_field =
      let body =
        insert "messages" (array (messages_json req.system req.messages))
          (insert "model" (str upstream_model) end) in
      let body = put_tools req.tools req.tool_choice body in
      let body = put "top_p" json_f32 req.top_p (put "temperature" json_f32 req.temperature body) in
      let body = put max_tokens_field int req.max_output_tokens body in
      let body = put "reasoning_effort" (λ e. str (as_str e)) req.reasoning_effort body in
      let body = put "parallel_tool_calls" bool req.parallel_tool_calls body in
      obj (put_stream req.stream body)
