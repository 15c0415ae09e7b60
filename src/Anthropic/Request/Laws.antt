-- ===== src/Anthropic/Request/Laws.antt =====
-- What `parse_message` of src/wire/anthropic.rs keeps of a conversation.
use ai_api_bridge.Prelude.{
  String, Bool, true, false, not, Option, none, some, List, [], ◌∷◌, ◌++◌, map, ◌==◌, string_eq,
  if◌then◌else◌, is_blank, unwrap_or, ◌≡◌, refl, sym, ap, ◌∙◌, append_assoc, append-nil, Bool-cases,
  inl, inr, All, All-append,
}
use ai_api_bridge.Json.{Value, null, bool, num, str, arr, obj, items, get, get_str, str_at}
use ai_api_bridge.Canonical.{ToolCall, Message, user, assistant, tool}
use ai_api_bridge.Canonical.Deeds.{Deed, called, answered, map-push}
use ai_api_bridge.Anthropic.Request.{
  is_kind, Reply, no_reply, keep_thinking, content_or_empty, reply_message, block_text, result_of,
  user_blocks, push_text, parse_user, call_of, reply_block, reply_blocks, parse_assistant,
  parse_message, parse_messages,
}

-- The calls and the results of a conversation, in order.
abbrev pub traffic_of : Message → List Deed
traffic_of (user text) = []
traffic_of (assistant text reasoning calls) = map called calls
traffic_of (tool call_id output) = answered call_id output ∷ []

abbrev pub traffic : List Message → List Deed
traffic [] = []
traffic (m ∷ ms) = traffic_of m ++ traffic ms

traffic-append : (xs ys : List Message) → traffic (xs ++ ys) ≡ traffic xs ++ traffic ys
traffic-append [] ys = refl
traffic-append (x ∷ xs) ys =
    ap (λ l. traffic_of x ++ l) (traffic-append xs ys)
    ∙ sym (append_assoc (traffic_of x) (traffic xs) (traffic ys))

traffic-push :
    (ms : List Message) (m : Message) → traffic (ms ++ m ∷ []) ≡ traffic ms ++ traffic_of m
traffic-push ms m =
    traffic-append ms (m ∷ []) ∙ ap (λ l. traffic ms ++ l) (append-nil (traffic_of m))

traffic-push_if :
    (b : Bool) (m : Message) (ms : List Message)
    → traffic (if b then ms ++ m ∷ [] else ms) ≡ traffic ms ++ (if b then traffic_of m else [])
traffic-push_if true m ms = traffic-push ms m
traffic-push_if false m ms = sym (append-nil (traffic ms))

-- A message that an upstream takes: one with reasoning has a text or calls, too.
abbrev pub IsSendable : Message → Type 0
IsSendable (assistant none (some reasoning) []) = ⊥
IsSendable m = Unit

IsSendable-content :
    (text reasoning : Option String) (cs : List ToolCall)
    → IsSendable (reply_message (record { text = text; reasoning = reasoning; calls = cs }))
unfolding content_or_empty
IsSendable-content (some t) none [] = tt
IsSendable-content (some t) none (c ∷ cs) = tt
IsSendable-content (some t) (some r) [] = tt
IsSendable-content (some t) (some r) (c ∷ cs) = tt
IsSendable-content none none [] = tt
IsSendable-content none none (c ∷ cs) = tt
IsSendable-content none (some r) [] = tt
IsSendable-content none (some r) (c ∷ cs) = tt

All-push_if :
    (b : Bool) (m : Message) (ms : List Message)
    → IsSendable m
    → All IsSendable ms
    → All IsSendable (if b then ms ++ m ∷ [] else ms)
All-push_if true m ms s h = All-append IsSendable ms (m ∷ []) h (s, tt)
All-push_if false m ms s h = h

module _ (to_text : Value → String) where
  -- The results and the calls that the blocks of a message carry.
  abbrev pub results : List Value → List Deed
  results [] = []
  results (b ∷ bs) =
      (if is_kind "tool_result" b
        then answered (str_at "tool_use_id" b) (block_text to_text (get "content" b)) ∷ []
        else [])
      ++ results bs

  abbrev pub calls : List Value → List Deed
  calls [] = []
  calls (b ∷ bs) =
      (if is_kind "text" b
        then []
        else if is_kind "thinking" b
        then []
        else if is_kind "tool_use" b
        then called (call_of to_text b) ∷ []
        else [])
      ++ calls bs

  abbrev pub blocks_of : Option Value → List Value
  blocks_of (some (arr bs)) = items bs
  blocks_of v = []

  abbrev pub turn_traffic : String → Option Value → List Deed
  turn_traffic role content =
      if role == "user"
      then results (blocks_of content)
      else if role == "assistant"
      then calls (blocks_of content)
      else []

  abbrev pub conversation_traffic : List Value → List Deed
  conversation_traffic [] = []
  conversation_traffic (m ∷ ms) =
      turn_traffic (unwrap_or (get_str "role" m) "user") (get "content" m)
      ++ conversation_traffic ms

  traffic-user_blocks :
      (bs : List Value) (text : String) (ms : List Message)
      → traffic (user_blocks to_text bs text ms).1 ≡ traffic ms ++ results bs
  unfolding user_blocks
  traffic-user_blocks [] text ms = sym (append-nil (traffic ms))
  traffic-user_blocks (b ∷ bs) text ms =
      let is_result = is_kind "tool_result" b in
      traffic-user_blocks bs _ _
      ∙ ap (λ l. l ++ results bs) (traffic-push_if is_result (result_of to_text b) ms)
      ∙ append_assoc (traffic ms) (if is_result then traffic_of (result_of to_text b) else [])
          (results bs)

  traffic-push_text :
      (text : String) (ms : List Message) → traffic (push_text to_text (text, ms)) ≡ traffic ms
  traffic-push_text text ms = elim (Bool-cases (is_blank text)) [
    | inl e ↦ rw e refl
    | inr e ↦ rw e (traffic-push ms (user text) ∙ append-nil (traffic ms))
  ]

  traffic-parse_user :
      (content : Option Value) (ms : List Message)
      → traffic (parse_user to_text content ms) ≡ traffic ms ++ results (blocks_of content)
  unfolding parse_user
  traffic-parse_user none ms = sym (append-nil (traffic ms))
  traffic-parse_user (some (str s)) ms = traffic-push ms (user s)
  traffic-parse_user (some (arr bs)) ms =
      let r = user_blocks to_text (items bs) "" ms in
      traffic-push_text r.0 r.1 ∙ traffic-user_blocks (items bs) "" ms
  traffic-parse_user (some null) ms = sym (append-nil (traffic ms))
  traffic-parse_user (some (bool b)) ms = sym (append-nil (traffic ms))
  traffic-parse_user (some (num n)) ms = sym (append-nil (traffic ms))
  traffic-parse_user (some (obj o)) ms = sym (append-nil (traffic ms))

  map_called-keep_thinking :
      (t : String) (r : Reply) → map called (keep_thinking t r).calls ≡ map called r.calls
  map_called-keep_thinking t r = elim (Bool-cases (is_blank t)) [
    | inl e ↦ rw e refl
    | inr e ↦ rw e refl
  ]

  called-reply_block :
      (b : Value) (r : Reply)
      → map called (reply_block to_text b r).calls ≡ map called r.calls ++ calls (b ∷ [])
  unfolding reply_block
  called-reply_block b r = elim (Bool-cases (is_kind "text" b)) [
    | inl e ↦ rw e (sym (append-nil (map called r.calls)))
    | inr e ↦ elim (Bool-cases (is_kind "thinking" b)) [
      | inl f ↦
          rw (e, f)
            (map_called-keep_thinking (str_at "thinking" b) r
              ∙ sym (append-nil (map called r.calls)))
      | inr f ↦ elim (Bool-cases (is_kind "tool_use" b)) [
        | inl g ↦ rw (e, f, g) (map-push r.calls (call_of to_text b))
        | inr g ↦ rw (e, f, g) (sym (append-nil (map called r.calls)))
      ]
    ]
  ]

  called-reply_blocks :
      (bs : List Value) (r : Reply)
      → map called (reply_blocks to_text bs r).calls ≡ map called r.calls ++ calls bs
  unfolding reply_blocks
  called-reply_blocks [] r = sym (append-nil (map called r.calls))
  called-reply_blocks (b ∷ bs) r =
      called-reply_blocks bs (reply_block to_text b r)
      ∙ ap (λ l. l ++ calls bs) (called-reply_block b r)
      ∙ simp (append_assoc, append-nil)

  called-parse_assistant :
      (content : Option Value)
      → map called (parse_assistant to_text content).calls ≡ calls (blocks_of content)
  unfolding parse_assistant
  called-parse_assistant none = refl
  called-parse_assistant (some (str s)) = refl
  called-parse_assistant (some (arr bs)) = called-reply_blocks (items bs) no_reply
  called-parse_assistant (some null) = refl
  called-parse_assistant (some (bool b)) = refl
  called-parse_assistant (some (num n)) = refl
  called-parse_assistant (some (obj o)) = refl

  traffic-parse_message :
      (role : String) (content : Option Value) (ms : List Message)
      → traffic (parse_message to_text role content ms) ≡ traffic ms ++ turn_traffic role content
  unfolding parse_message
  traffic-parse_message role content ms = elim (Bool-cases (role == "user")) [
    | inl e ↦ rw e (traffic-parse_user content ms)
    | inr e ↦ elim (Bool-cases (role == "assistant")) [
      | inl f ↦
          rw (e, f)
            (traffic-push ms (reply_message (parse_assistant to_text content))
              ∙ ap (λ l. traffic ms ++ l) (called-parse_assistant content))
      | inr f ↦ rw (e, f) (sym (append-nil (traffic ms)))
    ]
  ]

  -- The messages of a request carry exactly the tool calls and the tool results of its blocks, in
  -- the same order.
  pub traffic-parse_messages :
      (body : List Value) (ms : List Message)
      → traffic (parse_messages to_text body ms) ≡ traffic ms ++ conversation_traffic body
  unfolding parse_messages
  traffic-parse_messages [] ms = sym (append-nil (traffic ms))
  traffic-parse_messages (m ∷ body) ms =
      let role = unwrap_or (get_str "role" m) "user" in
      traffic-parse_messages body (parse_message to_text role (get "content" m) ms)
      ∙ ap (λ l. l ++ conversation_traffic body) (traffic-parse_message role (get "content" m) ms)
      ∙ append_assoc (traffic ms) (turn_traffic role (get "content" m)) (conversation_traffic body)

  All-user_blocks :
      (bs : List Value) (text : String) (ms : List Message)
      → All IsSendable ms
      → All IsSendable (user_blocks to_text bs text ms).1
  unfolding user_blocks
  All-user_blocks [] text ms h = h
  All-user_blocks (b ∷ bs) text ms h =
      All-user_blocks bs _ _ (All-push_if (is_kind "tool_result" b) (result_of to_text b) ms tt h)

  All-push_text :
      (text : String) (ms : List Message)
      → All IsSendable ms
      → All IsSendable (push_text to_text (text, ms))
  All-push_text text ms h = All-push_if (not (is_blank text)) (user text) ms tt h

  All-parse_user :
      (content : Option Value) (ms : List Message)
      → All IsSendable ms
      → All IsSendable (parse_user to_text content ms)
  unfolding parse_user
  All-parse_user none ms h = h
  All-parse_user (some (str s)) ms h = All-push_if true (user s) ms tt h
  All-parse_user (some (arr bs)) ms h =
      let r = user_blocks to_text (items bs) "" ms in
      All-push_text r.0 r.1 (All-user_blocks (items bs) "" ms h)
  All-parse_user (some null) ms h = h
  All-parse_user (some (bool b)) ms h = h
  All-parse_user (some (num n)) ms h = h
  All-parse_user (some (obj o)) ms h = h

  All-parse_message :
      (role : String) (content : Option Value) (ms : List Message)
      → All IsSendable ms
      → All IsSendable (parse_message to_text role content ms)
  unfolding parse_message
  All-parse_message role content ms h = elim (Bool-cases (role == "user")) [
    | inl e ↦ rw e (All-parse_user content ms h)
    | inr e ↦ elim (Bool-cases (role == "assistant")) [
      | inl f ↦
          let r = parse_assistant to_text content in
          rw (e, f)
            (All-push_if true (reply_message r) ms (IsSendable-content r.text r.reasoning r.calls)
              h)
      | inr f ↦ rw (e, f) h
    ]
  ]

  -- No message of a request has reasoning and neither a text nor a call.
  pub parse_messages-IsSendable :
      (body : List Value) (ms : List Message)
      → All IsSendable ms
      → All IsSendable (parse_messages to_text body ms)
  unfolding parse_messages
  parse_messages-IsSendable [] ms h = h
  parse_messages-IsSendable (m ∷ body) ms h =
      parse_messages-IsSendable body _
        (All-parse_message (unwrap_or (get_str "role" m) "user") (get "content" m) ms h)
