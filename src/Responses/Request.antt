-- ===== src/Responses/Request.antt =====
-- `parse_request` of src/wire/responses.rs: a Responses request body to the canonical request.
-- `as f32` of a number and `to_string` of a JSON value are parameters.
pub mod Laws
pub mod Merging
pub mod Reasonings
use mathlib.Core.Option
use ai_api_bridge.Prelude.{
  Bool, String, true, false, not, ◌||◌, Option, none, some, List, [], ◌∷◌, ◌++◌, ◌==◌, string_eq,
  if◌then◌else◌, is_blank, push_str, and_then, unwrap_or, filter_map, is_some,
}
use ai_api_bridge.Json.{
  Number, Value, Fields, null, bool, num, str, arr, obj, items, get, get_str, str_at, number,
  as_u64, as_str, as_bool, as_array, as_object, lookup,
}
use ai_api_bridge.Error.{bad_request, Result, ok, err, ◌>>=◌, ok_or}
use ai_api_bridge.Canonical.{
  ToolCall, Message, user, assistant, tool, ToolDef, ToolChoice, auto, none_, required, function,
  from_str_opt, Float32, CanonicalRequest,
}
use ai_api_bridge.Wire.{as_u32}

-- The variables that the loop over `input` changes.
pub record Turns : Type 0 where
  pub messages : List Message
  pub system : Option String
  pub pending : Option String

-- Before the loop, with `instructions` as the system text.
abbrev pub before : Option String → Turns
before instructions = record { messages = []; system = instructions; pending = none }

abbrev pub push : Message → Turns → Turns
push m t = record t { messages = t.messages ++ m ∷ [] }

-- The texts under `text`, one after another.
abbrev pub join_texts : List Value → String
join_texts [] = ""
join_texts (p ∷ ps) = push_str (str_at "text" p) (join_texts ps)

unfoldable pub extract_text : Option Value → String
extract_text (some (str s)) = s
extract_text (some (arr parts)) = join_texts (items parts)
extract_text content = ""

unfoldable pub append_system : Option String → String → Option String
append_system none text = some text
append_system (some s) text = some (push_str s (push_str "\n" text))

abbrev pub call_of : Value → ToolCall
call_of item = record {
  call_id = str_at "call_id" item;
  name = str_at "name" item;
  arguments = str_at "arguments" item;
}

-- The last message, and the call: `match messages.last_mut()`. With the messages and the pending
-- reasoning that are left.
abbrev pub call_on : ToolCall → Option String → Message → List Message × Option String
call_on call pending (assistant text none calls) =
    (assistant text pending (calls ++ call ∷ []) ∷ [], none)
call_on call pending (assistant text (some reasoning) calls) =
    (assistant text (some reasoning) (calls ++ call ∷ []) ∷ [], pending)
call_on call pending m = (m ∷ assistant none pending (call ∷ []) ∷ [], none)

unfoldable pub add_call : ToolCall → Option String → List Message → List Message × Option String
add_call call pending [] = (assistant none pending (call ∷ []) ∷ [], none)
add_call call pending (m ∷ []) = call_on call pending m
add_call call pending (m ∷ n ∷ ms) =
    let (rest, left) = add_call call pending (n ∷ ms) in (m ∷ rest, left)

-- A message item, by its role.
unfoldable pub parse_message_item : String → String → Turns → Turns
unfolding append_system
parse_message_item role text t =
    if role == "system" || role == "developer"
    then record t { system = append_system t.system text }
    else if role == "assistant"
    then push (assistant (some text) t.pending []) (record t { pending = none })
    else push (user text) (record t { pending = none })

abbrev pub summary_text : Value → String
summary_text item = join_texts (unwrap_or (and_then (get "summary" item) as_array) [])

-- `if !text.is_empty() { *pending_reasoning = Some(text); }`
abbrev pub stash : Bool → String → Turns → Turns
stash true text t = record t { pending = some text }
stash false text t = t

module _ (to_text : Value → String) where
  abbrev pub output_text : Option Value → String
  output_text none = ""
  output_text (some (str s)) = s
  output_text (some other) = to_text other

  unfoldable pub parse_input_item : Value → Turns → Turns
  unfolding extract_text add_call parse_message_item
  parse_input_item item t =
      let kind = unwrap_or (get_str "type" item) "message" in
      if kind == "message"
      then parse_message_item (unwrap_or (get_str "role" item) "user")
          (extract_text (get "content" item)) t
      else if kind == "function_call"
      then (let (messages, pending) = add_call (call_of item) t.pending t.messages in
          record t { messages = messages; pending = pending })
      else if kind == "function_call_output"
      then push (tool (str_at "call_id" item) (output_text (get "output" item)))
          (record t { pending = none })
      else if kind == "reasoning"
      then stash (not (is_blank (summary_text item))) (summary_text item) t
      else t

  unfoldable pub parse_items : List Value → Turns → Turns
  unfolding parse_input_item
  parse_items [] t = t
  parse_items (item ∷ rest) t = parse_items rest (parse_input_item item t)

  unfoldable pub parse_input : Option Value → Turns → Result Turns
  unfolding parse_items
  parse_input none t = ok t
  parse_input (some (str s)) t = ok (push (user s) t)
  parse_input (some (arr vs)) t = ok (parse_items (items vs) t)
  parse_input (some v) t = err (bad_request "`input` must be string or array")

abbrev pub tool_def : Value → String → ToolDef
tool_def t name = record {
  name = name;
  description = get_str "description" t;
  parameters = unwrap_or (get "parameters" t) null;
}

abbrev pub is_function : Option String → Bool
is_function none = false
is_function (some s) = s == "function"

-- The loop over `tools`.
unfoldable pub read_tools : List Value → Result (List ToolDef)
read_tools [] = ok []
read_tools (t ∷ ts) =
    let rest = read_tools ts in
    if is_function (get_str "type" t)
    then (do
      name ← ok_or (get_str "name" t) (bad_request "tool missing `name`")
      tools ← rest
      ok (tool_def t name ∷ tools))
    else rest

unfoldable pub parse_tools : Option Value → Result (List ToolDef)
unfolding read_tools
parse_tools (some (arr vs)) = read_tools (items vs)
parse_tools v = ok []

unfoldable pub parse_tool_choice : Option Value → ToolChoice
parse_tool_choice (some (str s)) =
    if s == "none" then none_ else if s == "required" then required else auto
parse_tool_choice (some (obj o)) =
    unwrap_or (Option.map function (and_then (lookup "name" o) as_str)) auto
parse_tool_choice v = auto

module _ (to_text : Value → String) (as_f32 : Number → Float32) where
  unfoldable pub parse_request : Value → Result CanonicalRequest
  unfolding parse_input parse_tools parse_tool_choice from_str_opt
  parse_request body = do
    o ← ok_or (as_object body) (bad_request "body must be a JSON object")
    model ← ok_or (and_then (lookup "model" o) as_str) (bad_request "missing `model`")
    turns ←
        parse_input to_text (lookup "input" o) (before (and_then (lookup "instructions" o) as_str))
    tools ← parse_tools (lookup "tools" o)
    ok (record {
      model = model;
      system = turns.system;
      messages = turns.messages;
      tools = tools;
      tool_choice = parse_tool_choice (lookup "tool_choice" o);
      temperature = Option.map as_f32 (and_then (lookup "temperature" o) number);
      top_p = Option.map as_f32 (and_then (lookup "top_p" o) number);
      max_output_tokens = Option.map as_u32 (and_then (lookup "max_output_tokens" o) as_u64);
      reasoning_effort = and_then (and_then (lookup "reasoning" o) (get_str "effort")) from_str_opt;
      parallel_tool_calls = and_then (lookup "parallel_tool_calls" o) as_bool;
      stream = unwrap_or (and_then (lookup "stream" o) as_bool) false;
    })
