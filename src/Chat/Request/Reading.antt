-- ===== src/Chat/Request/Reading.antt =====
-- The parts of a request that `build_request` of src/wire/chat.rs prints, read by the parts of
-- `parse_request`.
use ai_api_bridge.Prelude.{
  String, Option, none, some, List, [], ◌∷◌, map, string_eq, filter_map, All, ◌≡◌, refl, ap, ◌∙◌,
  arith,
}
use ai_api_bridge.Json.{Value, items, values_of, array}
use ai_api_bridge.Canonical.{
  ToolCall, Message, user, assistant, tool, ToolDef, ToolChoice, auto, none_, required, function,
}
use ai_api_bridge.Chat.Parents.{normalize_tool_parents}
use ai_api_bridge.Chat.Parents.Laws.{Adopted, done, kept, parent, normalize_tool_parents-Adopted}
use ai_api_bridge.Chat.Schema.{sanitize_parameters}
use ai_api_bridge.Chat.Request.{
  tool_call_json, message_json, messages_json, tool_choice_json, tool_json,
}
use ai_api_bridge.Chat.Inbound.{
  unless_blank, read_tool_call, parse_chat_tool_calls, read_tool, parse_chat_tools,
  parse_chat_tool_choice, with_message, read_messages,
}

pub items-values_of : (vs : List Value) → items (values_of vs) ≡ vs
items-values_of [] = refl
items-values_of (v ∷ vs) = ap (λ l. v ∷ l) (items-values_of vs)

-- A reader of one item reads back a list of printed items.
pub filter_map-map :
    {A : Type 0} (print : A → Value) (read : Value → Option A) (back : A → A)
    → ((a : A) → read (print a) ≡ some (back a))
    → (xs : List A) → filter_map read (map print xs) ≡ map back xs
filter_map-map print read back h [] = refl
filter_map-map print read back h (x ∷ xs) =
    rw (h x) (ap (λ l. back x ∷ l) (filter_map-map print read back h xs))

map_same : (calls : List ToolCall) → map (λ c. c) calls ≡ calls
map_same [] = refl
map_same (c ∷ calls) = ap (λ l. c ∷ l) (map_same calls)

calls_read :
    (calls : List ToolCall)
    → parse_chat_tool_calls (some (array (map tool_call_json calls))) ≡ calls
unfolding parse_chat_tool_calls
calls_read calls =
    ap (filter_map read_tool_call) (items-values_of (map tool_call_json calls))
    ∙ filter_map-map tool_call_json read_tool_call (λ c. c) (λ c. refl) calls
    ∙ map_same calls

-- The tool with its schema repaired.
abbrev pub repaired : ToolDef → ToolDef
repaired t = record t { parameters = sanitize_parameters t.parameters }

tool_read : (t : ToolDef) → read_tool (tool_json t) ≡ some (repaired t)
unfolding tool_json
tool_read t = ground arith

pub tools_read :
    (tools : List ToolDef)
    → parse_chat_tools (some (array (map tool_json tools))) ≡ map repaired tools
unfolding parse_chat_tools
tools_read tools =
    ap (filter_map read_tool) (items-values_of (map tool_json tools))
    ∙ filter_map-map tool_json read_tool repaired tool_read tools

pub choice_read :
    (choice : ToolChoice) → parse_chat_tool_choice (some (tool_choice_json choice)) ≡ choice
unfolding parse_chat_tool_choice tool_choice_json
choice_read auto = refl
choice_read none_ = refl
choice_read required = refl
choice_read (function name) = refl

-- An assistant message that is not an empty text.
abbrev pub HasText : Message → Type 0
HasText (assistant text reasoning calls) = unless_blank text ≡ text
HasText m = Unit

message_read :
    (m : Message) (system : Option String) (rest : List Value)
    → HasText m
    → read_messages system (message_json m ∷ rest) ≡ with_message m (read_messages system rest)
unfolding read_messages message_json
message_read (user text) system rest h = refl
message_read (tool c o) system rest h = refl
message_read (assistant none none []) system rest h = refl
message_read (assistant (some t) none []) system rest h = rw h refl
message_read (assistant none (some r) []) system rest h = refl
message_read (assistant (some t) (some r) []) system rest h = rw h refl
message_read (assistant none none (c ∷ cs)) system rest h = rw (calls_read (c ∷ cs)) refl
message_read (assistant (some t) none (c ∷ cs)) system rest h = rw (h, calls_read (c ∷ cs)) refl
message_read (assistant none (some r) (c ∷ cs)) system rest h = rw (calls_read (c ∷ cs)) refl
message_read (assistant (some t) (some r) (c ∷ cs)) system rest h = rw (h, calls_read (c ∷ cs)) refl

messages_read :
    (ms : List Message) (system : Option String)
    → All HasText ms
    → read_messages system (map message_json ms) ≡ (system, ms)
unfolding read_messages
messages_read [] system h = refl
messages_read (m ∷ ms) system (p, h) =
    message_read m system (map message_json ms) p ∙ ap (with_message m) (messages_read ms system h)

Adopted-HasText : {ms out : List Message} → Adopted ms out → All HasText ms → All HasText out
Adopted-HasText done h = tt
Adopted-HasText (kept m a) h = (h.0, Adopted-HasText a h.1)
Adopted-HasText (parent c o a) h = (refl, (tt, Adopted-HasText a h.1))

pub conversation_read :
    (system : Option String) (ms : List Message)
    → All HasText ms
    → read_messages none (messages_json system ms) ≡ (system, normalize_tool_parents ms)
unfolding messages_json read_messages
conversation_read none ms h =
    messages_read (normalize_tool_parents ms) none
      (Adopted-HasText (normalize_tool_parents-Adopted ms) h)
conversation_read (some s) ms h =
    messages_read (normalize_tool_parents ms) (some s)
      (Adopted-HasText (normalize_tool_parents-Adopted ms) h)
