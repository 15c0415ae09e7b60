-- ===== src/Chat/Request/Found.antt =====
-- What `parse_request` of src/wire/chat.rs finds in the fields that `build_request` writes.
use mathlib.Core.Option
use ai_api_bridge.Prelude.{
  ℕ, String, Bool, true, false, Option, none, some, List, [], ◌∷◌, map, ◌==◌, string_eq,
  if◌then◌else◌, is_empty, and_then, unwrap_or, ◌≡◌, refl, ap, ◌∙◌,
}
use ai_api_bridge.Json.{Value, Fields, bool, lookup, insert, array, as_bool, as_u64, int}
use ai_api_bridge.Json.Laws.{lookup-insert_other, lookup-insert_same}
use ai_api_bridge.Canonical.{ToolDef, ToolChoice, auto}
use ai_api_bridge.Chat.Request.{put, tool_choice_json, tool_json, put_tools, put_stream}
use ai_api_bridge.Chat.Inbound.{parse_chat_tools, parse_chat_tool_choice}
use ai_api_bridge.Chat.Request.Reading.{repaired, tools_read, choice_read}

-- A key that is not written is found as before.
pub lookup-put :
    {A : Type 0} (j k : String) (f : A → Value) (o : Option A) (m : Fields)
    → (j == k) ≡ false
    → lookup k (put j f o m) ≡ lookup k m
lookup-put j k f none m h = refl
lookup-put j k f (some a) m h = lookup-insert_other j k (f a) m h

pub lookup-put_same :
    {A : Type 0} (k : String) (f : A → Value) (o : Option A) (m : Fields)
    → lookup k m ≡ none
    → lookup k (put k f o m) ≡ Option.map f o
lookup-put_same k f none m h = h
lookup-put_same k f (some a) m h = lookup-insert_same k (f a) m

pub bool_read : (o : Option Bool) → and_then (Option.map bool o) as_bool ≡ o
bool_read none = refl
bool_read (some b) = refl

pub int_read : (o : Option ℕ) → and_then (Option.map int o) as_u64 ≡ o
int_read none = refl
int_read (some n) = refl

pub lookup-put_stream :
    (k : String) (b : Bool) (m : Fields)
    → ("stream_options" == k) ≡ false
    → ("stream" == k) ≡ false
    → lookup k (put_stream b m) ≡ lookup k m
lookup-put_stream k false m o s = refl
lookup-put_stream k true m o s =
    lookup-insert_other "stream_options" k _ (insert "stream" (bool true) m) o
    ∙ lookup-insert_other "stream" k (bool true) m s

pub stream_found :
    (b : Bool) (m : Fields)
    → lookup "stream" m ≡ none
    → unwrap_or (and_then (lookup "stream" (put_stream b m)) as_bool) false ≡ b
stream_found false m h = rw h refl
stream_found true m h =
    ap (λ o. unwrap_or (and_then o as_bool) false)
      (lookup-insert_other "stream_options" "stream" _ (insert "stream" (bool true) m) refl
        ∙ lookup-insert_same "stream" (bool true) m)

pub tools_found :
    (tools : List ToolDef) (choice : ToolChoice) (m : Fields)
    → lookup "tools" m ≡ none
    → parse_chat_tools (lookup "tools" (put_tools tools choice m)) ≡ map repaired tools
unfolding put_tools parse_chat_tools
tools_found [] choice m h = rw h refl
tools_found (t ∷ ts) choice m h =
    ap parse_chat_tools (
      lookup-insert_other "tool_choice" "tools" _
        (insert "tools" (array (map tool_json (t ∷ ts))) m) refl
      ∙ lookup-insert_same "tools" (array (map tool_json (t ∷ ts))) m)
    ∙ tools_read (t ∷ ts)

pub choice_found :
    (tools : List ToolDef) (choice : ToolChoice) (m : Fields)
    → lookup "tool_choice" m ≡ none
    → parse_chat_tool_choice (lookup "tool_choice" (put_tools tools choice m))
      ≡ (if is_empty tools then auto else choice)
unfolding put_tools parse_chat_tool_choice
choice_found [] choice m h = rw h refl
choice_found (t ∷ ts) choice m h =
    ap parse_chat_tool_choice (
      lookup-insert_same "tool_choice" (tool_choice_json choice)
        (insert "tools" (array (map tool_json (t ∷ ts))) m))
    ∙ choice_read choice

pub lookup-put_tools :
    (k : String) (tools : List ToolDef) (choice : ToolChoice) (m : Fields)
    → ("tool_choice" == k) ≡ false
    → ("tools" == k) ≡ false
    → lookup k (put_tools tools choice m) ≡ lookup k m
unfolding put_tools
lookup-put_tools k [] choice m c t = refl
lookup-put_tools k (d ∷ ds) choice m c t =
    lookup-insert_other "tool_choice" k _ (insert "tools" (array (map tool_json (d ∷ ds))) m) c
    ∙ lookup-insert_other "tools" k _ m t
