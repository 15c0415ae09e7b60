-- ===== src/Examples/Streams.antt =====
-- Runs of the stream translation: the decoder, the chunk parser and the emitters.
use ai_api_bridge.Prelude.{
  ℕ, String, ◌≡◌, refl, Option, none, some, List, [], ◌∷◌, ◌++◌, map, arith, if◌then◌else◌, is_some,
}
use mathlib.Core.List.{Perm}
use ai_api_bridge.Json.{Value, str, array, object, int, get, get_str}
use ai_api_bridge.Canonical.{
  CanonicalEvent, created, text_delta, tool_call_start, tool_call_args_delta, tool_call_done,
  completed,
}
use ai_api_bridge.Wire.{emit_all}
use ai_api_bridge.Wire.Starts.{StartsOnce}
use ai_api_bridge.Sse.{Bytes, Text, push, find_separator}
use ai_api_bridge.Sse.Separator.{IsFirst, find_separator-IsFirst}
use ai_api_bridge.Sse.Laws.{flatten, push_all, push_all-eq-push, push_ends}
use ai_api_bridge.Chat.Stream as Parser
use ai_api_bridge.Chat.Stream.{on_chunks, completion_to_events, finish_events}
use ai_api_bridge.Chat.Stream.Starts.{on_chunks-StartsOnce, completion_to_events-StartsOnce}
use ai_api_bridge.Chat.Stream.Finish.{IsAscending, finish_events_lem}
use ai_api_bridge.Chat.Stream.Texts.{texts, chunks_text, texts-on_chunks}
use ai_api_bridge.Anthropic.Frames.{new as no_blocks}
use ai_api_bridge.Anthropic.Emitter as Anthropic
use ai_api_bridge.Anthropic.Balance.{starts, stops}
use ai_api_bridge.Anthropic.Blocks.{starts-eq-stops}
use ai_api_bridge.Responses.Emitter as Responses
use ai_api_bridge.Responses.Frames.{new}
use ai_api_bridge.Responses.Balance.{added, done}
use ai_api_bridge.Responses.Items.{added-eq-done}
use ai_api_bridge.Responses.Numbers.{Counts, done_items}
use ai_api_bridge.Responses.Final.{final_response_output}
use ai_api_bridge.Responses.Sequence.{emit_all-Counts}

-- A decoder for ASCII.
abbrev ascii : Bytes → Text
ascii b = b

-- The end mark of a stream, with the blank line after it cut in two.
abbrev chunks : List Bytes
chunks =
    (b'd' ∷ b'a' ∷ b't' ∷ b'a' ∷ b':' ∷ b' ' ∷ b'[' ∷ b'D' ∷ b'O' ∷ b'N' ∷ b'E' ∷ b']' ∷ b'\n' ∷ [])
    ∷ (b'\n' ∷ b':' ∷ [])
    ∷ []

push_all-eq-push_example : push_all ascii [] chunks ≡ push ascii [] (flatten chunks)
unfolding find_separator
push_all-eq-push_example = push_all-eq-push ascii [] chunks refl

push_ends_example : find_separator (push ascii [] (flatten chunks)).buf ≡ none
push_ends_example = push_ends ascii [] (flatten chunks)

find_separator-IsFirst_example : IsFirst (flatten chunks) (find_separator (flatten chunks))
find_separator-IsFirst_example = find_separator-IsFirst (flatten chunks)

abbrev call_delta : Value
call_delta = object (
    ("index", int 1)
    ∷ ("id", str "call_1")
    ∷ ("function", object (("name", str "f") ∷ ("arguments", str "{}") ∷ []))
    ∷ [])

abbrev choice : Value
choice = object (
    (
      "delta",
      object (("content", str "hi") ∷ ("tool_calls", array (call_delta ∷ call_delta ∷ [])) ∷ []),
    )
    ∷ ("finish_reason", str "tool_calls")
    ∷ [])

abbrev chunk : Value
chunk = object (("model", str "m") ∷ ("choices", array (choice ∷ [])) ∷ [])

on_chunks-StartsOnce_example : StartsOnce [] (on_chunks (chunk ∷ chunk ∷ []) (Parser.new "r"))
on_chunks-StartsOnce_example = on_chunks-StartsOnce (chunk ∷ chunk ∷ []) "r"

texts-on_chunks_example :
    texts (on_chunks (chunk ∷ chunk ∷ []) (Parser.new "r")) ≡ chunks_text (chunk ∷ chunk ∷ [])
texts-on_chunks_example = texts-on_chunks (chunk ∷ chunk ∷ []) (Parser.new "r")

finish_events_lem_example :
    (ended : List ℕ) × (finish_events (2 ∷ 1 ∷ []) choice ≡ map tool_call_done ended)
    × IsAscending ended
    × Perm ended (if is_some (get_str "finish_reason" choice) then 2 ∷ 1 ∷ [] else [])
finish_events_lem_example = finish_events_lem (2 ∷ 1 ∷ []) choice

abbrev whole : Value
whole = object (
    (
      "choices",
      array (
          object
            (("message", object (("tool_calls", array (call_delta ∷ call_delta ∷ [])) ∷ [])) ∷ [])
          ∷ []),
    )
    ∷ [])

completion_to_events-StartsOnce_example : StartsOnce [] (completion_to_events whole "r")
completion_to_events-StartsOnce_example = completion_to_events-StartsOnce whole "r" (omega arith)

-- A text, a tool call that is not finished by an event, and a text again.
abbrev events : List CanonicalEvent
events =
    created "r" "m"
    ∷ text_delta "a"
    ∷ tool_call_start 0 "call_0" "f"
    ∷ tool_call_args_delta 0 "{}"
    ∷ text_delta "b"
    ∷ []

started_once : StartsOnce [] (events ++ completed ∷ [])
started_once = (tt, (tt, (refl, (tt, (tt, (tt, tt))))))

abbrev unparsed : String → Option Value
unparsed s = none

abbrev one_uuid : ℕ → String
one_uuid n = "u"

starts-eq-stops_example :
    let a = emit_all (Anthropic.on_event unparsed) (events ++ completed ∷ []) no_blocks in
    starts 1 a.frames ≡ stops 1 a.frames
starts-eq-stops_example = starts-eq-stops unparsed 1 events started_once

added-eq-done_example :
    let a = emit_all (Responses.on_event one_uuid) (events ++ completed ∷ []) new in
    added 1 a.frames ≡ done 1 a.frames
added-eq-done_example = added-eq-done one_uuid 1 events started_once

final_response_output_example :
    let a = emit_all (Responses.on_event one_uuid) (events ++ completed ∷ []) new in
    get "output" (Responses.completed_response a.state) ≡ some (array (done_items a.frames))
final_response_output_example = final_response_output one_uuid (events ++ completed ∷ [])

emit_all-Counts_example :
    let a = emit_all (Responses.on_event one_uuid) events new in Counts 0 a.frames a.state.seq
emit_all-Counts_example = emit_all-Counts one_uuid events new
