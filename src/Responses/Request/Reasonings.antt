-- ===== src/Responses/Request/Reasonings.antt =====
-- Where the reasoning texts of the turns come from that `parse_input_item` of
-- src/wire/responses.rs groups a request into.
use ai_api_bridge.Prelude.{
  String, not, ◌&&◌, Option, none, some, List, [], ◌∷◌, ◌++◌, if◌then◌else◌, is_blank, ◌≡◌, refl,
  sym, ap, ◌∙◌, subst, append_assoc, append-nil,
}
use ai_api_bridge.Json.{Value}
use ai_api_bridge.Canonical.{ToolCall, Message, user, assistant, tool}
use ai_api_bridge.Responses.Request.{
  Turns, push, add_call, summary_text, parse_input_item, parse_items,
}
use ai_api_bridge.Responses.Request.Merging.{is_reasoning, after_item}

-- The first list is the second one with some entries left out.
pub data Sublist {A : Type 0} : List A → List A → Type 0 where
  done : Sublist [] []
  keep : (x : A) {xs ys : List A} → Sublist xs ys → Sublist (x ∷ xs) (x ∷ ys)
  drop : (y : A) {xs ys : List A} → Sublist xs ys → Sublist xs (y ∷ ys)

Sublist-refl : {A : Type 0} (xs : List A) → Sublist xs xs
Sublist-refl [] = done
Sublist-refl (x ∷ xs) = keep x (Sublist-refl xs)

Sublist-nil : {A : Type 0} (ys : List A) → Sublist [] ys
Sublist-nil [] = done
Sublist-nil (y ∷ ys) = drop y (Sublist-nil ys)

Sublist-append :
    {A : Type 0} {xs ys us vs : List A}
    → Sublist xs ys
    → Sublist us vs
    → Sublist (xs ++ us) (ys ++ vs)
Sublist-append done k = k
Sublist-append (keep x h) k = keep x (Sublist-append h k)
Sublist-append (drop y h) k = drop y (Sublist-append h k)

Sublist-trans : {A : Type 0} {xs ys zs : List A} → Sublist xs ys → Sublist ys zs → Sublist xs zs
Sublist-trans h (drop z k) = drop z (Sublist-trans h k)
Sublist-trans h done = h
Sublist-trans (keep x h) (keep y k) = keep x (Sublist-trans h k)
Sublist-trans (drop y h) (keep z k) = drop y (Sublist-trans h k)

Sublist-front : {A : Type 0} (xs ys : List A) → Sublist xs (xs ++ ys)
Sublist-front xs ys =
    subst (λ l. Sublist l (xs ++ ys)) (append-nil xs)
      (Sublist-append (Sublist-refl xs) (Sublist-nil ys))

abbrev pub held : Option String → List String
held none = []
held (some r) = r ∷ []

-- The reasoning texts of the messages, in order.
abbrev pub reasonings : List Message → List String
reasonings [] = []
reasonings (assistant text reasoning calls ∷ ms) = held reasoning ++ reasonings ms
reasonings (m ∷ ms) = reasonings ms

-- With the one that is pending.
abbrev pub held_by : Turns → List String
held_by t = reasonings t.messages ++ held t.pending

-- What a reasoning item says, unless it is blank.
abbrev pub thought : Value → List String
thought item =
    if is_reasoning item && not (is_blank (summary_text item)) then summary_text item ∷ [] else []

abbrev pub thoughts : List Value → List String
thoughts [] = []
thoughts (item ∷ items) = thought item ++ thoughts items

reasonings-push :
    (ms : List Message) (m : Message)
    → reasonings (ms ++ m ∷ []) ≡ reasonings ms ++ reasonings (m ∷ [])
reasonings-push [] m = refl
reasonings-push (user _ ∷ ms) m = reasonings-push ms m
reasonings-push (tool _ _ ∷ ms) m = reasonings-push ms m
reasonings-push (assistant _ r _ ∷ ms) m =
    ap (λ l. held r ++ l) (reasonings-push ms m)
    ∙ sym (append_assoc (held r) (reasonings ms) (reasonings (m ∷ [])))

pending_moves : (o : Option String) → (held o ++ []) ++ [] ≡ held o
pending_moves none = refl
pending_moves (some r) = refl

-- A call leaves all reasoning texts where they are in the order.
reasonings-add_call :
    (call : ToolCall) (pending : Option String) (ms : List Message)
    → let (ms', left) = add_call call pending ms in
      reasonings ms' ++ held left ≡ reasonings ms ++ held pending
unfolding add_call
reasonings-add_call call pending [] = pending_moves pending
reasonings-add_call call pending (user t ∷ []) = pending_moves pending
reasonings-add_call call pending (tool c o ∷ []) = pending_moves pending
reasonings-add_call call pending (assistant x none cs ∷ []) = pending_moves pending
reasonings-add_call call pending (assistant x (some r) cs ∷ []) = refl
reasonings-add_call call pending (user t ∷ n ∷ ms) = reasonings-add_call call pending (n ∷ ms)
reasonings-add_call call pending (tool c o ∷ n ∷ ms) = reasonings-add_call call pending (n ∷ ms)
reasonings-add_call call pending (assistant x r cs ∷ n ∷ ms) =
    let (ms', left) = add_call call pending (n ∷ ms) in
    append_assoc (held r) (reasonings ms') (held left)
    ∙ ap (λ l. held r ++ l) (reasonings-add_call call pending (n ∷ ms))
    ∙ sym (append_assoc (held r) (reasonings (n ∷ ms)) (held pending))

-- A message with a part of what is pending, or with nothing, and nothing pending any more.
Sublist-push :
    (t : Turns) (m : Message) (more : List String)
    → Sublist (reasonings (m ∷ [])) (held t.pending)
    → Sublist (held_by (push m (record t { pending = none }))) (held_by t ++ more)
Sublist-push t m more h =
    Sublist-trans
      (subst (λ l. Sublist l (held_by t))
        (sym (append-nil (reasonings (t.messages ++ m ∷ [])) ∙ reasonings-push t.messages m))
        (Sublist-append (Sublist-refl (reasonings t.messages)) h))
      (Sublist-front (held_by t) more)

module _ (to_text : Value → String) where
  held_by-parse_input_item :
      (item : Value) (t : Turns)
      → Sublist (held_by (parse_input_item to_text item t)) (held_by t ++ thought item)
  held_by-parse_input_item item t =
      let more = thought item in
      let same = Sublist-front (held_by t) more in
      after_item (λ t'. Sublist (held_by t') (held_by t ++ more)) t to_text item same (λ s. same)
        (λ text. Sublist-push t (assistant (some text) t.pending []) more (
          subst (λ l. Sublist l (held t.pending)) (sym (append-nil (held t.pending)))
            (Sublist-refl (held t.pending))))
        (λ text. Sublist-push t (user text) more (Sublist-nil (held t.pending)))
        (λ call.
          subst (λ l. Sublist l (held_by t ++ more))
            (sym (reasonings-add_call call t.pending t.messages)) same)
        (λ c o. Sublist-push t (tool c o) more (Sublist-nil (held t.pending)))
        (λ is told.
          rw (is, told)
            (Sublist-append (Sublist-front (reasonings t.messages) (held t.pending))
              (Sublist-refl (summary_text item ∷ []))))

  -- The reasoning texts of the messages after a list of items, in order, with the pending one at the
  -- end, are those from before followed by the texts of the reasoning items that are not blank, in
  -- order, with some left out. So each is the text of a reasoning item, and none is used for two
  -- turns.
  pub reasonings-parse_items :
      (items : List Value) (t : Turns)
      → Sublist (held_by (parse_items to_text items t)) (held_by t ++ thoughts items)
  unfolding parse_items
  reasonings-parse_items [] t = Sublist-front (held_by t) []
  reasonings-parse_items (item ∷ rest) t =
      let t' = parse_input_item to_text item t in
      subst (Sublist (held_by (parse_items to_text rest t')))
        (append_assoc (held_by t) (thought item) (thoughts rest))
        (Sublist-trans (reasonings-parse_items rest t')
          (Sublist-append (held_by-parse_input_item item t) (Sublist-refl (thoughts rest))))
