-- ===== src/Anthropic/Request.antt =====
-- `parse_request` of src/wire/anthropic.rs: a Messages request body to the canonical request.
-- `as f32` of a number and `to_string` of a JSON value are parameters.
pub mod Laws
use mathlib.Core.Option
use ai_api_bridge.Prelude.{
  String, Bool, true, false, not, ◌&&◌, Option, none, some, List, [], ◌∷◌, ◌++◌, ◌==◌, string_eq,
  if◌then◌else◌, is_blank, push_str, and_then, unwrap_or, filter_map, is_some, is_empty,
}
use ai_api_bridge.Json.{
  Number, Value, null, str, arr, items, get, get_str, str_at, array_of, number, as_u64, as_str,
  as_bool, as_object, lookup,
}
use ai_api_bridge.Error.{bad_request, Result, ok, ◌>>=◌, ok_or}
use ai_api_bridge.Canonical.{
  ToolCall, Message, user, assistant, tool, ToolDef, ToolChoice, auto, none_, required, function,
  ReasoningEffort, high, Float32, CanonicalRequest,
}
use ai_api_bridge.Wire.{as_u32}
use ai_api_bridge.Responses.Request.{join_texts}

-- `Some(k) == b.get("type").and_then(|v| v.as_str())`
abbrev pub is_kind : String → Value → Bool
is_kind k b = unwrap_or (get_str "type" b) "" == k

abbrev pub add_line : String → Option String → String
add_line out none = out
add_line out (some t) = push_str (if not (is_blank out) then push_str out "\n" else out) t

abbrev pub join_lines : String → List Value → String
join_lines out [] = out
join_lines out (b ∷ bs) = join_lines (add_line out (get_str "text" b)) bs

abbrev pub unless_empty : String → Option String
unless_empty s = if not (is_blank s) then some s else none

unfoldable pub parse_system : Option Value → Option String
parse_system (some (str s)) = some s
parse_system (some (arr bs)) = unless_empty (join_lines "" (items bs))
parse_system v = none

-- What the loop over the blocks of an assistant message collects.
pub record Reply : Type 0 where
  pub text : Option String
  pub reasoning : Option String
  pub calls : List ToolCall

abbrev pub no_reply : Reply
no_reply = record { text = none; reasoning = none; calls = [] }

abbrev pub keep_thinking : String → Reply → Reply
keep_thinking t r = if not (is_blank t) then record r { reasoning = some t } else r

-- A turn with reasoning alone gets an empty text.
unfoldable pub content_or_empty : Reply → Option String
content_or_empty r =
    if not (is_some r.text) && is_empty r.calls && is_some r.reasoning then some "" else r.text

abbrev pub reply_message : Reply → Message
reply_message r = assistant (content_or_empty r) r.reasoning r.calls

module _ (to_text : Value → String) where
  unfoldable pub block_text : Option Value → String
  block_text none = ""
  block_text (some (str s)) = s
  block_text (some (arr bs)) = join_texts (items bs)
  block_text (some other) = to_text other

  abbrev pub result_of : Value → Message
  result_of b = tool (str_at "tool_use_id" b) (block_text (get "content" b))

  -- The loop over the blocks of a user message, with the text and the messages so far.
  unfoldable pub user_blocks : List Value → String → List Message → String × List Message
  unfolding block_text
  user_blocks [] text messages = (text, messages)
  user_blocks (b ∷ bs) text messages =
      user_blocks bs (if is_kind "text" b then push_str text (str_at "text" b) else text)
        (if is_kind "tool_result" b then messages ++ result_of b ∷ [] else messages)

  abbrev pub push_text : String × List Message → List Message
  push_text (text, messages) = if not (is_blank text) then messages ++ user text ∷ [] else messages

  unfoldable pub parse_user : Option Value → List Message → List Message
  unfolding user_blocks
  parse_user (some (str s)) messages = messages ++ user s ∷ []
  parse_user (some (arr bs)) messages = push_text (user_blocks (items bs) "" messages)
  parse_user content messages = messages

  abbrev pub input_text : Option Value → String
  input_text none = "{}"
  input_text (some v) = to_text v

  abbrev pub call_of : Value → ToolCall
  call_of b = record {
    call_id = str_at "id" b;
    name = str_at "name" b;
    arguments = input_text (get "input" b);
  }

  unfoldable pub reply_block : Value → Reply → Reply
  reply_block b r =
      if is_kind "text" b
      then record r { text = some (push_str (unwrap_or r.text "") (str_at "text" b)) }
      else if is_kind "thinking" b
      then keep_thinking (str_at "thinking" b) r
      else if is_kind "tool_use" b
      then record r { calls = r.calls ++ call_of b ∷ [] }
      else r

  unfoldable pub reply_blocks : List Value → Reply → Reply
  unfolding reply_block
  reply_blocks [] r = r
  reply_blocks (b ∷ bs) r = reply_blocks bs (reply_block b r)

  unfoldable pub parse_assistant : Option Value → Reply
  unfolding reply_blocks
  parse_assistant (some (str s)) = record no_reply { text = some s }
  parse_assistant (some (arr bs)) = reply_blocks (items bs) no_reply
  parse_assistant content = no_reply

  unfoldable pub parse_message : String → Option Value → List Message → List Message
  unfolding parse_user parse_assistant content_or_empty
  parse_message role content messages =
      if role == "user"
      then parse_user content messages
      else if role == "assistant"
      then messages ++ reply_message (parse_assistant content) ∷ []
      else messages

  -- The loop over `messages`.
  unfoldable pub parse_messages : List Value → List Message → List Message
  unfolding parse_message
  parse_messages [] messages = messages
  parse_messages (m ∷ ms) messages =
      parse_messages ms
        (parse_message (unwrap_or (get_str "role" m) "user") (get "content" m) messages)

abbrev pub tool_def : Value → Option ToolDef
tool_def t =
    Option.map
      (λ name. record {
        name = name;
        description = get_str "description" t;
        parameters = unwrap_or (get "input_schema" t) null;
      })
      (get_str "name" t)

unfoldable pub parse_tools : Option Value → List ToolDef
parse_tools v = filter_map tool_def (array_of v)

abbrev pub choice_of : String → Option Value → ToolChoice
choice_of kind v =
    if kind == "any"
    then required
    else if kind == "none"
    then none_
    else if kind == "tool"
    then unwrap_or (Option.map function (and_then v (get_str "name"))) auto
    else auto

unfoldable pub parse_tool_choice : Option Value → ToolChoice
parse_tool_choice v = choice_of (unwrap_or (and_then v (get_str "type")) "") v

abbrev pub effort_of : Option String → Option ReasoningEffort
effort_of none = none
effort_of (some s) = if s == "enabled" then some high else none

module _ (to_text : Value → String) (as_f32 : Number → Float32) where
  unfoldable pub parse_request : Value → Result CanonicalRequest
  unfolding parse_system parse_messages parse_tools parse_tool_choice
  parse_request body = do
    o ← ok_or (as_object body) (bad_request "body must be a JSON object")
    model ← ok_or (and_then (lookup "model" o) as_str) (bad_request "missing `model`")
    ok (record {
      model = model;
      system = parse_system (lookup "system" o);
      messages = parse_messages to_text (array_of (lookup "messages" o)) [];
      tools = parse_tools (lookup "tools" o);
      tool_choice = parse_tool_choice (lookup "tool_choice" o);
      temperature = Option.map as_f32 (and_then (lookup "temperature" o) number);
      top_p = Option.map as_f32 (and_then (lookup "top_p" o) number);
      max_output_tokens = Option.map as_u32 (and_then (lookup "max_tokens" o) as_u64);
      reasoning_effort = effort_of (and_then (lookup "thinking" o) (get_str "type"));
      parallel_tool_calls = none;
      stream = unwrap_or (and_then (lookup "stream" o) as_bool) false;
    })
