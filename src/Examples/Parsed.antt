-- ===== src/Examples/Parsed.antt =====
-- Runs of the request parsers.
use ai_api_bridge.Prelude.{
  String, true, ◌≡◌, refl, none, some, List, [], ◌∷◌, ◌++◌, map, All, if◌then◌else◌, is_empty,
  and_then, ◌==◌, string_eq,
}
use mathlib.Core.Option
use ai_api_bridge.Json.{Number, Value, str, array, object, number}
use ai_api_bridge.Wire.{as_u32}
use ai_api_bridge.Error.{ok}
use ai_api_bridge.Canonical.{user, tool, auto, required, Float32, bits, CanonicalRequest}
use ai_api_bridge.Canonical.Deeds.{deeds}
use ai_api_bridge.Responses.Request.{Turns, before, parse_items}
use ai_api_bridge.Responses.Request.Laws.{items_deeds, deeds-parse_items}
use ai_api_bridge.Responses.Request.Merging.{IsMerged, IsMerged-parse_items}
use ai_api_bridge.Responses.Request.Reasonings.{Sublist, held_by, thoughts, reasonings-parse_items}
use ai_api_bridge.Anthropic.Request.{parse_messages}
use ai_api_bridge.Anthropic.Request.Laws.{
  traffic, conversation_traffic, traffic-parse_messages, IsSendable, parse_messages-IsSendable,
}
use ai_api_bridge.Chat.Parents.{normalize_tool_parents}
use ai_api_bridge.Chat.Request.{build_request}
use ai_api_bridge.Chat.Inbound as Chat
use ai_api_bridge.Chat.Request.Reading.{repaired}
use ai_api_bridge.Chat.Request.RoundTrip.{parse_request-build_request}

abbrev printed : Value → String
printed v = "{}"

abbrev halves : Number → Float32
halves n = bits 0

-- Reasoning, two calls that run together, and the result of one.
abbrev input : List Value
input =
    object (
      ("type", str "reasoning")
      ∷ ("summary", array (object (("text", str "because") ∷ []) ∷ []))
      ∷ [])
    ∷ object (("type", str "function_call") ∷ ("call_id", str "a") ∷ ("name", str "f") ∷ [])
    ∷ object (("type", str "function_call") ∷ ("call_id", str "b") ∷ ("name", str "g") ∷ [])
    ∷ object
        (("type", str "function_call_output") ∷ ("call_id", str "a") ∷ ("output", str "1") ∷ [])
    ∷ []

abbrev start : Turns
start = before none

deeds-parse_items_example :
    deeds (parse_items printed input start).messages
    ≡ deeds start.messages ++ items_deeds printed input
deeds-parse_items_example = deeds-parse_items printed input start

IsMerged-parse_items_example : IsMerged (parse_items printed input start).messages
IsMerged-parse_items_example = IsMerged-parse_items printed input start tt

reasonings-parse_items_example :
    Sublist (held_by (parse_items printed input start)) (held_by start ++ thoughts input)
reasonings-parse_items_example = reasonings-parse_items printed input start

-- A thought with a call, and the call's result.
abbrev conversation : List Value
conversation =
    object (
      ("role", str "assistant")
      ∷ (
        "content",
        array (
            object (("type", str "thinking") ∷ ("thinking", str "hm") ∷ [])
            ∷ object (("type", str "tool_use") ∷ ("id", str "a") ∷ ("name", str "f") ∷ [])
            ∷ []),
      )
      ∷ [])
    ∷ object (
        ("role", str "user")
        ∷ (
          "content",
          array (
              object
                (("type", str "tool_result") ∷ ("tool_use_id", str "a") ∷ ("content", str "1") ∷ [])
              ∷ []),
        )
        ∷ [])
    ∷ []

traffic-parse_messages_example :
    traffic (parse_messages printed conversation [])
    ≡ traffic [] ++ conversation_traffic printed conversation
traffic-parse_messages_example = traffic-parse_messages printed conversation []

parse_messages-IsSendable_example : All IsSendable (parse_messages printed conversation [])
parse_messages-IsSendable_example = parse_messages-IsSendable printed conversation [] tt

abbrev asked : CanonicalRequest
asked = record {
  model = "alias";
  system = some "be brief";
  messages = user "q" ∷ tool "call_1" "a" ∷ [];
  tools = record { name = "f"; description = none; parameters = object [] } ∷ [];
  tool_choice = required;
  temperature = none;
  top_p = none;
  max_output_tokens = some 10;
  reasoning_effort = none;
  parallel_tool_calls = some true;
  stream = true;
}

parse_request-build_request_example :
    (r : CanonicalRequest) × (Chat.parse_request halves
        (build_request (λ f. str "0") asked "gpt" "max_tokens")
      ≡ ok r)
    × (r.model ≡ "gpt")
    × (r.system ≡ asked.system)
    × (r.messages ≡ normalize_tool_parents asked.messages)
    × (r.tools ≡ map repaired asked.tools)
    × (r.tool_choice ≡ (if is_empty asked.tools then auto else asked.tool_choice))
    × (r.parallel_tool_calls ≡ asked.parallel_tool_calls)
    × (r.stream ≡ asked.stream)
    × (r.temperature
        ≡ Option.map halves (and_then (Option.map (λ f. str "0") asked.temperature) number))
    × (r.max_output_tokens
        ≡ Option.map as_u32
            (if ◌==◌ {K = String} "max_tokens" "max_tokens" then asked.max_output_tokens else none))
    × (r.top_p ≡ none)
    × (r.reasoning_effort ≡ none)
parse_request-build_request_example =
    parse_request-build_request (λ f. str "0") asked "gpt" "max_tokens" halves
      (refl, (refl, (refl, (refl, (refl, (refl, (refl, tt))))))) (tt, (tt, tt))
