-- ===== src/Chat/Parents.antt =====
-- `normalize_tool_parents` of src/wire/chat.rs: every tool result gets a parent.
pub mod Laws
use ai_api_bridge.Prelude.{
  String, Bool, true, false, none, some, List, [], ◌∷◌, ◌||◌, ◌&&◌, not, string_eq, if◌then◌else◌,
  any, contains, is_blank,
}
use ai_api_bridge.Canonical.{ToolCall, Message, user, assistant, tool}

abbrev pub is_tool : Message → Bool
is_tool (tool _ _) = true
is_tool _ = false

-- The inner loop over the calls of an assistant message.
unfoldable pub announce : List ToolCall → List String → List String
announce [] announced = announced
announce (tc ∷ tcs) announced =
    announce tcs (if is_blank tc.call_id then announced else tc.call_id ∷ announced)

-- The parent that is made up for a tool result without one.
abbrev pub synthesized : String → Message
synthesized call_id =
    assistant none (some "") (record { call_id = call_id; name = "_"; arguments = "{}" } ∷ [])

-- A tool result needs a parent if its id is empty or not announced.
abbrev pub needs_parent : List String → String → Bool
needs_parent announced call_id = is_blank call_id || not (contains announced call_id)

-- The loop over the messages, with the set `announced`; the result is `out`.
unfoldable pub pair_up : List String → List Message → List Message
unfolding announce
pair_up announced [] = []
pair_up announced (assistant text reasoning calls ∷ ms) =
    assistant text reasoning calls ∷ pair_up (announce calls announced) ms
pair_up announced (tool call_id output ∷ ms) =
    let needed = needs_parent announced call_id in
    let announced' = if needed && not (is_blank call_id) then call_id ∷ announced else announced in
    let rest = tool call_id output ∷ pair_up announced' ms in
    if needed then synthesized call_id ∷ rest else rest
pair_up announced (user text ∷ ms) = user text ∷ pair_up announced ms

-- The fast path borrows the messages as they are.
unfoldable pub normalize_tool_parents : List Message → List Message
unfolding pair_up
normalize_tool_parents msgs = if not (any is_tool msgs) then msgs else pair_up [] msgs
