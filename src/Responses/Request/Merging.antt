-- ===== src/Responses/Request/Merging.antt =====
-- The assistant turns that `parse_input_item` of src/wire/responses.rs groups a request into.
use ai_api_bridge.Prelude.{
  String, Bool, true, false, not, ◌||◌, Option, none, some, List, [], ◌∷◌, ◌++◌, ◌==◌, string_eq,
  if◌then◌else◌, is_blank, unwrap_or, ◌≡◌, refl, Bool-cases, inl, inr,
}
use ai_api_bridge.Json.{Value, get, get_str, str_at}
use ai_api_bridge.Canonical.{ToolCall, Message, user, assistant, tool}
use ai_api_bridge.Responses.Request.{
  Turns, push, extract_text, append_system, call_of, add_call, parse_message_item, summary_text,
  output_text, stash, parse_input_item, parse_items,
}

-- The turns after a call.
abbrev pub with_call : ToolCall → Turns → Turns
with_call call t =
    let (messages, pending) = add_call call t.pending t.messages in
    record t { messages = messages; pending = pending }

abbrev pub is_reasoning : Value → Bool
is_reasoning item = unwrap_or (get_str "type" item) "message" == "reasoning"

-- What holds after each thing that an item may be holds after the item.
module _ (P : Turns → Type 0) (t : Turns) where
  after_stash :
      (b c : Bool) (text : String)
      → P t
      → (b ≡ true → c ≡ true → P (record t { pending = some text }))
      → P (if b then stash c text t else t)
  after_stash true true text h k = k refl refl
  after_stash true false text h k = h
  after_stash false c text h k = h

  after_message_item :
      (role text : String)
      → P t
      → ((s : Option String) → P (record t { system = s }))
      → P (push (assistant (some text) t.pending []) (record t { pending = none }))
      → P (push (user text) (record t { pending = none }))
      → P (parse_message_item role text t)
  unfolding parse_message_item
  after_message_item role text h s a u =
      elim (Bool-cases (role == "system" || role == "developer")) [
        | inl e ↦ rw e (s (append_system t.system text))
        | inr e ↦ elim (Bool-cases (role == "assistant")) [
          | inl f ↦ rw (e, f) a
          | inr f ↦ rw (e, f) u
        ]
      ]

  pub after_item :
      (to_text : Value → String) (item : Value)
      → P t
      → ((s : Option String) → P (record t { system = s }))
      → ((text : String)
          → P (push (assistant (some text) t.pending []) (record t { pending = none })))
      → ((text : String) → P (push (user text) (record t { pending = none })))
      → ((call : ToolCall) → P (with_call call t))
      → ((c o : String) → P (push (tool c o) (record t { pending = none })))
      → (is_reasoning item ≡ true
          → not (is_blank (summary_text item)) ≡ true
          → P (record t { pending = some (summary_text item) }))
      → P (parse_input_item to_text item t)
  unfolding parse_input_item
  after_item to_text item h s a u c o r =
      let kind = unwrap_or (get_str "type" item) "message" in
      let text = extract_text (get "content" item) in
      elim (Bool-cases (kind == "message")) [
        | inl e ↦
            rw e (
              after_message_item (unwrap_or (get_str "role" item) "user") text h s (a text)
                (u text))
        | inr e ↦ elim (Bool-cases (kind == "function_call")) [
          | inl f ↦ rw (e, f) (c (call_of item))
          | inr f ↦ elim (Bool-cases (kind == "function_call_output")) [
            | inl g ↦
                rw (e, f, g) (o (str_at "call_id" item) (output_text to_text (get "output" item)))
            | inr g ↦
                rw (e, f, g)
                  (after_stash (kind == "reasoning") (not (is_blank (summary_text item)))
                    (summary_text item) h r)
          ]
        ]
      ]

-- An assistant message with no text does not follow an assistant message: its calls would have
-- been added to that one.
abbrev pub MayFollow : Message → Message → Type 0
MayFollow (assistant _ _ _) (assistant none _ _) = ⊥
MayFollow m n = Unit

abbrev pub Follows : Message → List Message → Type 0
Follows m [] = Unit
Follows m (n ∷ ms) = MayFollow m n

abbrev pub IsMerged : List Message → Type 0
IsMerged [] = Unit
IsMerged (m ∷ ms) = Follows m ms × IsMerged ms

-- A message that may follow any other.
abbrev Opens : Message → Type 0
Opens (assistant none _ _) = ⊥
Opens m = Unit

may_open : (m n : Message) → Opens n → MayFollow m n
may_open (user _) (user _) h = tt
may_open (user _) (tool _ _) h = tt
may_open (user _) (assistant (some _) _ _) h = tt
may_open (user _) (assistant none _ _) h = tt
may_open (tool _ _) (user _) h = tt
may_open (tool _ _) (tool _ _) h = tt
may_open (tool _ _) (assistant (some _) _ _) h = tt
may_open (tool _ _) (assistant none _ _) h = tt
may_open (assistant _ _ _) (user _) h = tt
may_open (assistant _ _ _) (tool _ _) h = tt
may_open (assistant _ _ _) (assistant (some _) _ _) h = tt
may_open (assistant _ _ _) (assistant none _ _) h = h

IsMerged-push : (ms : List Message) (m : Message) → Opens m → IsMerged ms → IsMerged (ms ++ m ∷ [])
IsMerged-push [] m o h = (tt, tt)
IsMerged-push (n ∷ []) m o h = (may_open n m o, (tt, tt))
IsMerged-push (n ∷ k ∷ ms) m o (f, h) = (f, IsMerged-push (k ∷ ms) m o h)

follows_text :
    (m : Message) (text r r' : Option String) (cs cs' : List ToolCall)
    → MayFollow m (assistant text r cs)
    → MayFollow m (assistant text r' cs')
follows_text (user _) none r r' cs cs' h = tt
follows_text (user _) (some _) r r' cs cs' h = tt
follows_text (tool _ _) none r r' cs cs' h = tt
follows_text (tool _ _) (some _) r r' cs cs' h = tt
follows_text (assistant _ _ _) none r r' cs cs' h = h
follows_text (assistant _ _ _) (some _) r r' cs cs' h = tt

-- A call leaves the first message's text as it is.
Follows-add_call :
    (m : Message) (call : ToolCall) (pending : Option String) (n : Message) (ms : List Message)
    → MayFollow m n
    → Follows m (add_call call pending (n ∷ ms)).0
unfolding add_call
Follows-add_call m call pending (user t) [] f = f
Follows-add_call m call pending (tool c o) [] f = f
Follows-add_call m call pending (assistant x none cs) [] f =
    follows_text m x none pending cs (cs ++ call ∷ []) f
Follows-add_call m call pending (assistant x (some r) cs) [] f =
    follows_text m x (some r) (some r) cs (cs ++ call ∷ []) f
Follows-add_call m call pending n (k ∷ ms) f = f

IsMerged-add_call :
    (call : ToolCall) (pending : Option String) (ms : List Message)
    → IsMerged ms
    → IsMerged (add_call call pending ms).0
unfolding add_call
IsMerged-add_call call pending [] h = (tt, tt)
IsMerged-add_call call pending (user t ∷ []) h = (tt, (tt, tt))
IsMerged-add_call call pending (tool c o ∷ []) h = (tt, (tt, tt))
IsMerged-add_call call pending (assistant x none cs ∷ []) h = (tt, tt)
IsMerged-add_call call pending (assistant x (some r) cs ∷ []) h = (tt, tt)
IsMerged-add_call call pending (m ∷ n ∷ ms) (f, h) =
    (Follows-add_call m call pending n ms f, IsMerged-add_call call pending (n ∷ ms) h)

module _ (to_text : Value → String) where
  IsMerged-parse_input_item :
      (item : Value) (t : Turns)
      → IsMerged t.messages
      → IsMerged (parse_input_item to_text item t).messages
  IsMerged-parse_input_item item t h =
      after_item (λ t'. IsMerged t'.messages) t to_text item h (λ s. h)
        (λ text. IsMerged-push t.messages (assistant (some text) t.pending []) tt h)
        (λ text. IsMerged-push t.messages (user text) tt h)
        (λ call. IsMerged-add_call call t.pending t.messages h)
        (λ c o. IsMerged-push t.messages (tool c o) tt h) (λ is told. h)

  -- In the messages of a request, from a list with this property on, no assistant message without a
  -- text follows another assistant message.
  pub IsMerged-parse_items :
      (items : List Value) (t : Turns)
      → IsMerged t.messages
      → IsMerged (parse_items to_text items t).messages
  unfolding parse_items
  IsMerged-parse_items [] t h = h
  IsMerged-parse_items (item ∷ rest) t h =
      IsMerged-parse_items rest (parse_input_item to_text item t)
        (IsMerged-parse_input_item item t h)
