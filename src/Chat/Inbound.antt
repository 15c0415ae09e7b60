-- ===== src/Chat/Inbound.antt =====
-- `parse_request` of src/wire/chat.rs: a Chat Completions request body to the canonical request.
-- `as f32` of a number is a parameter.
use mathlib.Core.Option
use ai_api_bridge.Prelude.{
  String, false, not, ◌||◌, Option, none, some, List, [], ◌∷◌, ◌==◌, string_eq, if◌then◌else◌,
  is_blank, and_then, unwrap_or, filter_map,
}
use ai_api_bridge.Json.{
  Number, Value, Fields, null, str, obj, get, get_str, str_at, array_of, number, as_u64, as_str,
  as_bool, as_object, lookup,
}
use ai_api_bridge.Error.{bad_request, Result, ok, ◌>>=◌, ok_or}
use ai_api_bridge.Canonical.{
  ToolCall, Message, user, assistant, tool, ToolDef, ToolChoice, auto, none_, required, function,
  Float32, CanonicalRequest,
}
use ai_api_bridge.Wire.{as_u32}

-- `.filter(|s| !s.is_empty())`
abbrev pub unless_blank : Option String → Option String
unless_blank none = none
unless_blank (some s) = if not (is_blank s) then some s else none

abbrev pub read_tool_call : Value → Option ToolCall
read_tool_call tc = and_then (get "function" tc) λ f.
    Option.map
      (λ name. record { call_id = str_at "id" tc; name = name; arguments = str_at "arguments" f })
      (get_str "name" f)

unfoldable pub parse_chat_tool_calls : Option Value → List ToolCall
parse_chat_tool_calls v = filter_map read_tool_call (array_of v)

abbrev pub read_tool : Value → Option ToolDef
read_tool t = and_then (get "function" t) λ f.
    Option.map
      (λ name. record {
        name = name;
        description = get_str "description" f;
        parameters = unwrap_or (get "parameters" f) null;
      })
      (get_str "name" f)

unfoldable pub parse_chat_tools : Option Value → List ToolDef
parse_chat_tools v = filter_map read_tool (array_of v)

unfoldable pub parse_chat_tool_choice : Option Value → ToolChoice
parse_chat_tool_choice (some (str s)) =
    if s == "none" then none_ else if s == "required" then required else auto
parse_chat_tool_choice (some (obj o)) =
    unwrap_or (Option.map function (and_then (lookup "function" o) (get_str "name"))) auto
parse_chat_tool_choice v = auto

abbrev pub with_message : Message → Option String × List Message → Option String × List Message
with_message m (system, messages) = (system, m ∷ messages)

-- The loop over `messages`, with the system text so far.
unfoldable pub read_messages : Option String → List Value → Option String × List Message
unfolding parse_chat_tool_calls
read_messages system [] = (system, [])
read_messages system (m ∷ ms) =
    let role = unwrap_or (get_str "role" m) "user" in
    let content = str_at "content" m in
    let is_system = role == "system" || role == "developer" in
    let rest = read_messages (if is_system then some content else system) ms in
    if is_system
    then rest
    else if role == "tool"
    then with_message (tool (str_at "tool_call_id" m) content) rest
    else if role == "assistant"
    then with_message
        (assistant (unless_blank (get_str "content" m)) (get_str "reasoning_content" m)
          (parse_chat_tool_calls (get "tool_calls" m)))
        rest
    else with_message (user content) rest

module _ (as_f32 : Number → Float32) where
  -- The request that is read from an object with a model.
  unfoldable pub request_of : Fields → String → CanonicalRequest
  unfolding read_messages parse_chat_tools parse_chat_tool_choice
  request_of o model =
      let read = read_messages none (array_of (lookup "messages" o)) in
      record {
        model = model;
        system = read.0;
        messages = read.1;
        tools = parse_chat_tools (lookup "tools" o);
        tool_choice = parse_chat_tool_choice (lookup "tool_choice" o);
        temperature = Option.map as_f32 (and_then (lookup "temperature" o) number);
        top_p = none;
        max_output_tokens = Option.map as_u32 (and_then (lookup "max_tokens" o) as_u64);
        reasoning_effort = none;
        parallel_tool_calls = and_then (lookup "parallel_tool_calls" o) as_bool;
        stream = unwrap_or (and_then (lookup "stream" o) as_bool) false;
      }

  unfoldable pub parse_request : Value → Result CanonicalRequest
  unfolding request_of
  parse_request body = do
    o ← ok_or (as_object body) (bad_request "body must be a JSON object")
    model ← ok_or (and_then (lookup "model" o) as_str) (bad_request "missing `model`")
    ok (request_of o model)
