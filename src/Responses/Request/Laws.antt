-- ===== src/Responses/Request/Laws.antt =====
-- What `parse_input_item` of src/wire/responses.rs keeps of the items of a request.
use ai_api_bridge.Prelude.{
  String, Bool, true, false, ◌||◌, Option, none, some, List, [], ◌∷◌, ◌++◌, ◌==◌, string_eq,
  if◌then◌else◌, unwrap_or, ◌≡◌, refl, sym, ap, ◌∙◌, append_assoc, append-nil, Bool-cases, inl, inr,
}
use ai_api_bridge.Json.{Value, get, get_str, str_at}
use ai_api_bridge.Canonical.{ToolCall, Message, user, assistant, tool}
use ai_api_bridge.Canonical.Deeds.{
  Deed, said, replied, called, answered, deeds_of, deeds, deeds-append, map-push,
}
use ai_api_bridge.Responses.Request.{
  Turns, extract_text, call_of, call_on, add_call, parse_message_item, output_text, stash,
  parse_input_item, parse_items,
}

-- What a message item says, by its role.
abbrev pub message_deeds : String → String → List Deed
message_deeds role text =
    if role == "system" || role == "developer"
    then []
    else if role == "assistant"
    then replied text ∷ []
    else said text ∷ []

-- What an input item says or does.
abbrev pub item_deeds : (Value → String) → Value → List Deed
item_deeds to_text item =
    let kind = unwrap_or (get_str "type" item) "message" in
    if kind == "message"
    then message_deeds (unwrap_or (get_str "role" item) "user") (extract_text (get "content" item))
    else if kind == "function_call"
    then called (call_of item) ∷ []
    else if kind == "function_call_output"
    then answered (str_at "call_id" item) (output_text to_text (get "output" item)) ∷ []
    else []

abbrev pub items_deeds : (Value → String) → List Value → List Deed
items_deeds to_text [] = []
items_deeds to_text (item ∷ rest) = item_deeds to_text item ++ items_deeds to_text rest

deeds-push : (ms : List Message) (m : Message) → deeds (ms ++ m ∷ []) ≡ deeds ms ++ deeds_of m
deeds-push ms m = deeds-append ms (m ∷ []) ∙ ap (λ l. deeds ms ++ l) (append-nil (deeds_of m))

messages-stash :
    (b c : Bool) (text : String) (t : Turns)
    → (if b then stash c text t else t).messages ≡ t.messages
messages-stash true true text t = refl
messages-stash true false text t = refl
messages-stash false c text t = refl

deeds-called :
    (text reasoning : Option String) (calls : List ToolCall) (call : ToolCall)
    → deeds (assistant text reasoning (calls ++ call ∷ []) ∷ [])
      ≡ deeds (assistant text reasoning calls ∷ []) ++ called call ∷ []
deeds-called text reasoning calls call = simp (map-push calls call, append_assoc, append-nil)

deeds-call_on :
    (call : ToolCall) (pending : Option String) (m : Message)
    → deeds (call_on call pending m).0 ≡ deeds (m ∷ []) ++ called call ∷ []
deeds-call_on call pending (assistant text none calls) = deeds-called text pending calls call
deeds-call_on call pending (assistant text (some r) calls) = deeds-called text (some r) calls call
deeds-call_on call pending (user text) = refl
deeds-call_on call pending (tool c o) = refl

deeds-add_call :
    (call : ToolCall) (pending : Option String) (ms : List Message)
    → deeds (add_call call pending ms).0 ≡ deeds ms ++ called call ∷ []
unfolding add_call
deeds-add_call call pending [] = refl
deeds-add_call call pending (m ∷ []) = deeds-call_on call pending m
deeds-add_call call pending (m ∷ n ∷ ms) =
    ap (λ l. deeds_of m ++ l) (deeds-add_call call pending (n ∷ ms))
    ∙ sym (append_assoc (deeds_of m) (deeds (n ∷ ms)) (called call ∷ []))

deeds-parse_message_item :
    (role text : String) (t : Turns)
    → deeds (parse_message_item role text t).messages ≡ deeds t.messages ++ message_deeds role text
unfolding parse_message_item
deeds-parse_message_item role text t = elim (Bool-cases (role == "system" || role == "developer")) [
  | inl e ↦ rw e (sym (append-nil (deeds t.messages)))
  | inr e ↦ elim (Bool-cases (role == "assistant")) [
    | inl f ↦ rw (e, f) (deeds-push t.messages (assistant (some text) t.pending []))
    | inr f ↦ rw (e, f) (deeds-push t.messages (user text))
  ]
]

module _ (to_text : Value → String) where
  deeds-parse_input_item :
      (item : Value) (t : Turns)
      → deeds (parse_input_item to_text item t).messages
        ≡ deeds t.messages ++ item_deeds to_text item
  unfolding parse_input_item
  deeds-parse_input_item item t =
      let kind = unwrap_or (get_str "type" item) "message" in
      elim (Bool-cases (kind == "message")) [
        | inl e ↦ rw e (
            deeds-parse_message_item (unwrap_or (get_str "role" item) "user")
              (extract_text (get "content" item)) t)
        | inr e ↦ elim (Bool-cases (kind == "function_call")) [
          | inl f ↦ rw (e, f) (deeds-add_call (call_of item) t.pending t.messages)
          | inr f ↦ elim (Bool-cases (kind == "function_call_output")) [
            | inl g ↦ rw (e, f, g) (deeds-push t.messages _)
            | inr g ↦
                rw (e, f, g)
                  (ap deeds (messages-stash (kind == "reasoning") _ _ t)
                    ∙ sym (append-nil (deeds t.messages)))
          ]
        ]
      ]

  -- The messages say and do exactly what the items do, in the same order: no call, result or text is
  -- lost, doubled or moved by the grouping into assistant turns.
  pub deeds-parse_items :
      (items : List Value) (t : Turns)
      → deeds (parse_items to_text items t).messages ≡ deeds t.messages ++ items_deeds to_text items
  unfolding parse_items
  deeds-parse_items [] t = sym (append-nil (deeds t.messages))
  deeds-parse_items (item ∷ rest) t =
      deeds-parse_items rest (parse_input_item to_text item t)
      ∙ ap (λ l. l ++ items_deeds to_text rest) (deeds-parse_input_item item t)
      ∙ append_assoc (deeds t.messages) (item_deeds to_text item) (items_deeds to_text rest)
