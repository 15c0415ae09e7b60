-- ===== src/Chat/Request/RoundTrip.antt =====
-- What `build_request` of src/wire/chat.rs writes, `parse_request` reads back.
use mathlib.Core.Option
use ai_api_bridge.Prelude.{
  String, false, none, List, [], ◌∷◌, map, ◌==◌, string_eq, if◌then◌else◌, is_empty, and_then, All,
  ◌≡◌, refl, sym, ap, ◌∙◌, subst, Bool-cases, inl, inr,
}
use ai_api_bridge.Json.{
  Number, Value, Fields, bool, str, lookup, insert, array, as_bool, as_u64, number, array_of, end,
  int,
}
use ai_api_bridge.Error.{ok}
use ai_api_bridge.Canonical.{auto, Float32, CanonicalRequest, as_str as effort_str}
use ai_api_bridge.Wire.{as_u32}
use ai_api_bridge.Chat.Parents.{normalize_tool_parents}
use ai_api_bridge.Chat.Request.{put, messages_json, put_tools, put_stream, build_request}
use ai_api_bridge.Chat.Inbound.{
  parse_chat_tools, parse_chat_tool_choice, read_messages, parse_request, request_of,
}
use ai_api_bridge.Chat.Request.Reading.{HasText, repaired, items-values_of, conversation_read}
use ai_api_bridge.Chat.Request.Found.{
  lookup-put, lookup-put_same, bool_read, int_read, lookup-put_stream, stream_found, tools_found,
  choice_found, lookup-put_tools,
}

-- The keys that a request is read from, but for the token limit.
abbrev pub read_keys : List String
read_keys =
    "model" ∷ "messages" ∷ "tools" ∷ "tool_choice" ∷ "parallel_tool_calls" ∷ "stream"
    ∷ "temperature" ∷ []

module _ (json_f32 : Float32 → Value) (req : CanonicalRequest) (model field : String) where
  abbrev start : Fields
  start =
      insert "messages" (array (messages_json req.system req.messages))
        (insert "model" (str model) end)

  abbrev with_tools : Fields
  with_tools = put_tools req.tools req.tool_choice start

  abbrev with_limits : Fields
  with_limits =
      put field int req.max_output_tokens
        (put "top_p" json_f32 req.top_p (put "temperature" json_f32 req.temperature with_tools))

  abbrev with_effort : Fields
  with_effort = put "reasoning_effort" (λ e. str (effort_str e)) req.reasoning_effort with_limits

  abbrev with_parallel : Fields
  with_parallel = put "parallel_tool_calls" bool req.parallel_tool_calls with_effort

  abbrev whole : Fields
  whole = put_stream req.stream with_parallel

  -- None of the sampling parameters is one of the keys.
  lookup-with_effort :
      (k : String)
      → (field == k) ≡ false
      → ("reasoning_effort" == k) ≡ false
      → ("top_p" == k) ≡ false
      → ("temperature" == k) ≡ false
      → lookup k with_effort ≡ lookup k with_tools
  lookup-with_effort k f e p t =
      lookup-put "reasoning_effort" k (λ e. str (effort_str e)) req.reasoning_effort with_limits e
      ∙ lookup-put field k int req.max_output_tokens _ f
      ∙ lookup-put "top_p" k json_f32 req.top_p _ p
      ∙ lookup-put "temperature" k json_f32 req.temperature with_tools t

  lookup-whole :
      (k : String)
      → (field == k) ≡ false
      → ("reasoning_effort" == k) ≡ false
      → ("top_p" == k) ≡ false
      → ("temperature" == k) ≡ false
      → ("parallel_tool_calls" == k) ≡ false
      → ("stream_options" == k) ≡ false
      → ("stream" == k) ≡ false
      → lookup k whole ≡ lookup k with_tools
  lookup-whole k f e p t c o s =
      lookup-put_stream k req.stream with_parallel o s
      ∙ lookup-put "parallel_tool_calls" k bool req.parallel_tool_calls with_effort c
      ∙ lookup-with_effort k f e p t

  parallel_read :
      (field == "parallel_tool_calls") ≡ false
      → and_then (lookup "parallel_tool_calls" whole) as_bool ≡ req.parallel_tool_calls
  parallel_read f =
      let free =
        lookup-with_effort "parallel_tool_calls" f refl refl refl
        ∙ lookup-put_tools "parallel_tool_calls" req.tools req.tool_choice start refl refl in
      ap (λ o. and_then o as_bool)
        (lookup-put_stream "parallel_tool_calls" req.stream with_parallel refl refl
          ∙ lookup-put_same "parallel_tool_calls" bool req.parallel_tool_calls with_effort free)
      ∙ bool_read req.parallel_tool_calls

  stream_free : (field == "stream") ≡ false → lookup "stream" with_parallel ≡ none
  stream_free f =
      lookup-put "parallel_tool_calls" "stream" bool req.parallel_tool_calls with_effort refl
      ∙ lookup-with_effort "stream" f refl refl refl
      ∙ lookup-put_tools "stream" req.tools req.tool_choice start refl refl

  lookup-with_limits :
      (k : String)
      → ("reasoning_effort" == k) ≡ false
      → ("parallel_tool_calls" == k) ≡ false
      → ("stream_options" == k) ≡ false
      → ("stream" == k) ≡ false
      → lookup k whole ≡ lookup k with_limits
  lookup-with_limits k e c o s =
      lookup-put_stream k req.stream with_parallel o s
      ∙ lookup-put "parallel_tool_calls" k bool req.parallel_tool_calls with_effort c
      ∙ lookup-put "reasoning_effort" k (λ x. str (effort_str x)) req.reasoning_effort with_limits e

  temperature_found :
      (field == "temperature") ≡ false
      → lookup "temperature" whole ≡ Option.map json_f32 req.temperature
  temperature_found f =
      lookup-with_limits "temperature" refl refl refl refl
      ∙ lookup-put field "temperature" int req.max_output_tokens _ f
      ∙ lookup-put "top_p" "temperature" json_f32 req.top_p _ refl
      ∙ lookup-put_same "temperature" json_f32 req.temperature with_tools
          (lookup-put_tools "temperature" req.tools req.tool_choice start refl refl)

  -- The limit is read where it was written under the key that is read.
  limit_read :
      and_then (lookup "max_tokens" whole) as_u64
      ≡ (if field == "max_tokens" then req.max_output_tokens else none)
  limit_read =
      let free =
        lookup-put "top_p" "max_tokens" json_f32 req.top_p _ refl
        ∙ lookup-put "temperature" "max_tokens" json_f32 req.temperature with_tools refl
        ∙ lookup-put_tools "max_tokens" req.tools req.tool_choice start refl refl in
      let found = lookup-with_limits "max_tokens" refl refl refl refl in
      elim (Bool-cases (field == "max_tokens")) [
        | inl e ↦
            ap (λ o. and_then o as_u64)
              (found
                ∙ subst (λ k. lookup k with_limits ≡ Option.map int req.max_output_tokens)
                    ((string_eq.decides field "max_tokens").0 e)
                    (lookup-put_same field int req.max_output_tokens _ (
                      subst
                        (λ k.
                          lookup k (
                            put "top_p" json_f32 req.top_p
                              (put "temperature" json_f32 req.temperature with_tools))
                          ≡ none)
                        (sym ((string_eq.decides field "max_tokens").0 e)) free)))
            ∙ int_read req.max_output_tokens
            ∙ rw e refl
        | inr e ↦
            ap (λ o. and_then o as_u64)
              (found ∙ lookup-put field "max_tokens" int req.max_output_tokens _ e ∙ free)
            ∙ rw e refl
      ]

  -- Where the provider's field for the token limit is none of the keys of the model, the messages, the
  -- tools, the choice of tools, the flags and the temperature, and no assistant message is an empty
  -- text, the request that is sent upstream is read back with the upstream's model, the same system
  -- text, the messages with the made-up parents, the tools with their schemas repaired, the same
  -- choice of tools if there are tools, the same flags, and the temperature that the written number
  -- says. The limit is read back, as 32 bits, where the provider's field is `max_tokens`, and is lost
  -- otherwise; the top_p and the reasoning effort are always lost.
  pub parse_request-build_request :
      (as_f32 : Number → Float32)
      → All (λ k. (field == k) ≡ false) read_keys
      → All HasText req.messages
      → (r : CanonicalRequest) × (parse_request as_f32 (build_request json_f32 req model field)
          ≡ ok r)
        × (r.model ≡ model)
        × (r.system ≡ req.system)
        × (r.messages ≡ normalize_tool_parents req.messages)
        × (r.tools ≡ map repaired req.tools)
        × (r.tool_choice ≡ (if is_empty req.tools then auto else req.tool_choice))
        × (r.parallel_tool_calls ≡ req.parallel_tool_calls)
        × (r.stream ≡ req.stream)
        × (r.temperature
            ≡ Option.map as_f32 (and_then (Option.map json_f32 req.temperature) number))
        × (r.max_output_tokens
            ≡ Option.map as_u32 (if field == "max_tokens" then req.max_output_tokens else none))
        × (r.top_p ≡ none)
        × (r.reasoning_effort ≡ none)
  unfolding parse_request build_request request_of
  parse_request-build_request as_f32
        (f_model, (f_messages, (f_tools, (f_choice, (f_parallel, (f_stream, (f_temperature, _)))))))
        text =
      let tools = req.tools in
      let choice = req.tool_choice in
      let model_at =
        lookup-whole "model" f_model refl refl refl refl refl refl
        ∙ lookup-put_tools "model" tools choice start refl refl in
      let messages_at =
        lookup-whole "messages" f_messages refl refl refl refl refl refl
        ∙ lookup-put_tools "messages" tools choice start refl refl in
      let read =
        ap (λ o. read_messages none (array_of o)) messages_at
        ∙ ap (read_messages none) (items-values_of (messages_json req.system req.messages))
        ∙ conversation_read req.system req.messages text in
      (
        request_of as_f32 whole model,
        rw model_at refl,
        refl,
        ap (λ p. p.0) read,
        ap (λ p. p.1) read,
        ap parse_chat_tools (lookup-whole "tools" f_tools refl refl refl refl refl refl)
            ∙ tools_found tools choice start refl,
        ap parse_chat_tool_choice
              (lookup-whole "tool_choice" f_choice refl refl refl refl refl refl)
            ∙ choice_found tools choice start refl,
        parallel_read f_parallel,
        stream_found req.stream with_parallel (stream_free f_stream),
        ap (λ o. Option.map as_f32 (and_then o number)) (temperature_found f_temperature),
        ap (Option.map as_u32) limit_read,
        refl,
        refl,
      )
