-- ===== src/Chat/Parents/Laws.antt =====
-- What `normalize_tool_parents` of src/wire/chat.rs guarantees to a strict upstream.
use text.Mathlib.TextEquality.{eq_iff}
use text.Mathlib.TextPositions.{eq_refl}
use ai_api_bridge.Prelude.{
  String, ◌≡◌, refl, sym, ap, ◌∙◌, Option, Bool, true, false, List, [], ◌∷◌, ◌||◌, ◌==◌, string_eq,
  any, contains, is_blank, arith, All, inl, inr, Bool-cases,
}
use ai_api_bridge.Canonical.{ToolCall, Message, user, assistant, tool}
use ai_api_bridge.Chat.Parents.{
  announce, is_tool, needs_parent, synthesized, pair_up, normalize_tool_parents,
}

abbrev pub has_id : String → ToolCall → Bool
has_id c tc = tc.call_id == c

-- Whether a message is an assistant's that carries a call with this id.
abbrev pub announces : String → Message → Bool
announces c (assistant _ _ calls) = any (has_id c) calls
announces c _ = false

-- A tool result has an earlier message that announces its id; `seen` holds the earlier messages.
abbrev pub HasParent : List Message → Message → Type 0
HasParent seen (tool c _) = any (announces c) seen ≡ true
HasParent seen _ = Unit

abbrev pub Parented : List Message → List Message → Type 0
Parented seen [] = Unit
Parented seen (m ∷ ms) = HasParent seen m × Parented (m ∷ seen) ms

-- The set agrees with a scan of the earlier messages, at every id that is not empty.
abbrev Knows : List String → List Message → Type 0
Knows announced seen =
    (c : String) → is_blank c ≡ false → contains announced c ≡ any (announces c) seen

contains-announce :
    (c : String) (calls : List ToolCall) (announced : List String)
    → is_blank c ≡ false
    → contains (announce calls announced) c ≡ (any (has_id c) calls || contains announced c)
unfolding announce
contains-announce c [] announced h = refl
contains-announce c (tc ∷ tcs) announced h = ground (
  arith,
  eq_iff tc.call_id "",
  eq_iff tc.call_id c,
  eq_iff c "",
  contains-announce c tcs announced h,
  contains-announce c tcs (tc.call_id ∷ announced) h,
)

Knows-announce :
    (text reasoning : Option String) (calls : List ToolCall) (announced : List String)
    (seen : List Message)
    → Knows announced seen
    → Knows (announce calls announced) (assistant text reasoning calls ∷ seen)
Knows-announce text reasoning calls announced seen k c h =
    ground (arith, contains-announce c calls announced h, k c h)

Knows-synthesized :
    (call_id output : String) (announced : List String) (seen : List Message)
    → Knows announced seen
    → Knows (call_id ∷ announced) (tool call_id output ∷ synthesized call_id ∷ seen)
Knows-synthesized call_id output announced seen k c h = ground (arith, k c h)

Knows-blank :
    (call_id output : String) (announced : List String) (seen : List Message)
    → is_blank call_id ≡ true
    → Knows announced seen
    → Knows announced (tool call_id output ∷ synthesized call_id ∷ seen)
Knows-blank call_id output announced seen b k c h =
    ground (arith, k c h, eq_iff call_id "", eq_iff call_id c, eq_iff c "")

own : (c : String) (seen : List Message) → any (announces c) (synthesized c ∷ seen) ≡ true
own c seen = ground (arith, eq_refl c)

Parented-pair_up :
    (announced : List String) (seen ms : List Message)
    → Knows announced seen
    → Parented seen (pair_up announced ms)
unfolding pair_up
Parented-pair_up announced seen [] k = tt
Parented-pair_up announced seen (user text ∷ ms) k =
    (tt, Parented-pair_up announced (user text ∷ seen) ms (λ c h. k c h))
Parented-pair_up announced seen (assistant text reasoning calls ∷ ms) k = (
  tt,
  Parented-pair_up (announce calls announced) (assistant text reasoning calls ∷ seen) ms
      (Knows-announce text reasoning calls announced seen k),
)
Parented-pair_up announced seen (tool c o ∷ ms) k = elim (Bool-cases (is_blank c)) [
  | inl b ↦ rw b (
    tt,
    (
      own c seen,
      Parented-pair_up announced (tool c o ∷ synthesized c ∷ seen) ms
          (Knows-blank c o announced seen b k),
    ),
  )
  | inr b ↦ elim (Bool-cases (contains announced c)) [
    | inl old ↦
        rw (b, old)
          (sym (k c b) ∙ old, Parented-pair_up announced (tool c o ∷ seen) ms (λ d h. k d h))
    | inr new ↦
        rw (b, new)
          (
            tt,
            (
              own c seen,
              Parented-pair_up (c ∷ announced) (tool c o ∷ synthesized c ∷ seen) ms
                  (Knows-synthesized c o announced seen k),
            ),
          )
  ]
]

-- Without a tool result there is nothing to check.
Parented-of_no_tool : (seen ms : List Message) → any is_tool ms ≡ false → Parented seen ms
Parented-of_no_tool seen [] h = tt
Parented-of_no_tool seen (user text ∷ ms) h = (tt, Parented-of_no_tool _ ms h)
Parented-of_no_tool seen (assistant t r calls ∷ ms) h = (tt, Parented-of_no_tool _ ms h)
Parented-of_no_tool seen (tool c o ∷ ms) h = cc

-- In what is sent upstream every tool result comes after an assistant message that carries a call
-- with the result's id.
pub normalize_tool_parents-Parented :
    (msgs : List Message) → Parented [] (normalize_tool_parents msgs)
unfolding normalize_tool_parents
normalize_tool_parents-Parented msgs = elim (Bool-cases (any is_tool msgs)) [
  | inl some_tool ↦ rw some_tool (Parented-pair_up [] [] msgs (λ c h. refl))
  | inr no_tool ↦ rw no_tool (Parented-of_no_tool [] msgs no_tool)
]

-- What the pass may do: keep a message, or put a made-up parent directly before a tool result.
pub data Adopted : List Message → List Message → Type 0 where
  done : Adopted [] []
  kept : {ms out : List Message} (m : Message) → Adopted ms out → Adopted (m ∷ ms) (m ∷ out)
  parent :
      {ms out : List Message} (c o : String)
      → Adopted ms out
      → Adopted (tool c o ∷ ms) (synthesized c ∷ tool c o ∷ out)

Adopted-refl : (ms : List Message) → Adopted ms ms
Adopted-refl [] = done
Adopted-refl (m ∷ ms) = kept m (Adopted-refl ms)

pair_up-Adopted : (announced : List String) (ms : List Message) → Adopted ms (pair_up announced ms)
unfolding pair_up
pair_up-Adopted announced [] = done
pair_up-Adopted announced (user text ∷ ms) = kept (user text) (pair_up-Adopted announced ms)
pair_up-Adopted announced (assistant t r calls ∷ ms) =
    kept (assistant t r calls) (pair_up-Adopted (announce calls announced) ms)
pair_up-Adopted announced (tool c o ∷ ms) = elim (Bool-cases (needs_parent announced c)) [
  | inl needed ↦ rw needed (parent c o (pair_up-Adopted _ ms))
  | inr known ↦ rw known (kept (tool c o) (pair_up-Adopted _ ms))
]

-- The pass drops, changes and reorders nothing: it only puts made-up parents directly before
-- tool results.
pub normalize_tool_parents-Adopted :
    (msgs : List Message) → Adopted msgs (normalize_tool_parents msgs)
unfolding normalize_tool_parents
normalize_tool_parents-Adopted msgs = elim (Bool-cases (any is_tool msgs)) [
  | inl some_tool ↦ rw some_tool (pair_up-Adopted [] msgs)
  | inr no_tool ↦ rw no_tool (Adopted-refl msgs)
]

-- No tool result has an empty id.
abbrev pub IsNamed : Message → Type 0
IsNamed (tool c _) = is_blank c ≡ false
IsNamed _ = Unit

pair_up_of_Parented :
    (announced : List String) (seen ms : List Message)
    → Knows announced seen
    → All IsNamed ms
    → Parented seen ms
    → pair_up announced ms ≡ ms
unfolding pair_up
pair_up_of_Parented announced seen [] k n h = refl
pair_up_of_Parented announced seen (user text ∷ ms) k n h =
    ap (λ r. user text ∷ r)
      (pair_up_of_Parented announced (user text ∷ seen) ms (λ c b. k c b) n.1 h.1)
pair_up_of_Parented announced seen (assistant t r calls ∷ ms) k n h =
    ap (λ q. assistant t r calls ∷ q)
      (pair_up_of_Parented (announce calls announced) (assistant t r calls ∷ seen) ms
        (Knows-announce t r calls announced seen k) n.1 h.1)
pair_up_of_Parented announced seen (tool c o ∷ ms) k n h =
    let old : contains announced c ≡ true = k c n.0 ∙ h.0 in
    rw (n.0, old)
      (ap (λ q. tool c o ∷ q)
        (pair_up_of_Parented announced (tool c o ∷ seen) ms (λ d b. k d b) n.1 h.1))

-- A conversation whose tool results all have an id and a parent is passed on unchanged.
pub normalize_tool_parents_of_Parented :
    (msgs : List Message) → All IsNamed msgs → Parented [] msgs → normalize_tool_parents msgs ≡ msgs
unfolding normalize_tool_parents
normalize_tool_parents_of_Parented msgs n h = elim (Bool-cases (any is_tool msgs)) [
  | inl some_tool ↦ rw some_tool (pair_up_of_Parented [] [] msgs (λ c b. refl) n h)
  | inr no_tool ↦ rw no_tool refl
]

Adopted-IsNamed : {ms out : List Message} → Adopted ms out → All IsNamed ms → All IsNamed out
Adopted-IsNamed done n = tt
Adopted-IsNamed (kept m a) n = (n.0, Adopted-IsNamed a n.1)
Adopted-IsNamed (parent c o a) n = (tt, (n.0, Adopted-IsNamed a n.1))

-- Where no tool result has an empty id, a second pass changes nothing.
normalize_tool_parents_idem :
    (msgs : List Message)
    → All IsNamed msgs
    → normalize_tool_parents (normalize_tool_parents msgs) ≡ normalize_tool_parents msgs
normalize_tool_parents_idem msgs n =
    normalize_tool_parents_of_Parented (normalize_tool_parents msgs)
      (Adopted-IsNamed (normalize_tool_parents-Adopted msgs) n)
      (normalize_tool_parents-Parented msgs)
