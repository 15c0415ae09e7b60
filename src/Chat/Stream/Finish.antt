-- ===== src/Chat/Stream/Finish.antt =====
-- The end of a choice in src/wire/chat.rs: which tool calls `finish_reason` ends, and in what order.
use mathlib.Core.List.{Perm}
use mathlib.Core.List.Perm
use ai_api_bridge.Prelude.{
  ℕ, ◌≤◌, ◌≡◌, refl, List, [], ◌∷◌, map, arith, leb, if◌then◌else◌, is_some, Bool-cases, inl, inr,
}
use ai_api_bridge.Json.{Value, get_str}
use ai_api_bridge.Canonical.{tool_call_done}
use ai_api_bridge.Chat.Stream.{insert_sorted, sorted, finish_events}

-- Each number is at most the next one.
abbrev pub IsAscending : List ℕ → Type 0
IsAscending [] = Unit
IsAscending (i ∷ []) = Unit
IsAscending (i ∷ j ∷ js) = (i ≤ j) × IsAscending (j ∷ js)

insert_sorted-perm : (i : ℕ) (js : List ℕ) → Perm (insert_sorted i js) (i ∷ js)
unfolding insert_sorted
insert_sorted-perm i [] = Perm.refl (i ∷ [])
insert_sorted-perm i (j ∷ js) = elim (Bool-cases (leb i j)) [
  | inl le ↦ rw (le, insert_sorted) (Perm.refl (i ∷ j ∷ js))
  | inr gt ↦
      rw (gt, insert_sorted) (Perm.trans (Perm.cons j (insert_sorted-perm i js)) (Perm.swap i j js))
]

sorted-perm : (is : List ℕ) → Perm (sorted is) is
unfolding sorted
sorted-perm [] = Perm.refl []
sorted-perm (i ∷ is) = Perm.trans (insert_sorted-perm i (sorted is)) (Perm.cons i (sorted-perm is))

insert_sorted-IsAscending :
    (i : ℕ) (js : List ℕ) → IsAscending js → IsAscending (insert_sorted i js)
unfolding insert_sorted
insert_sorted-IsAscending i [] h = tt
insert_sorted-IsAscending i (j ∷ []) h = ground arith
insert_sorted-IsAscending i (j ∷ k ∷ js) h =
    ground (arith, insert_sorted-IsAscending i (k ∷ js) h.1)

sorted-IsAscending : (is : List ℕ) → IsAscending (sorted is)
unfolding sorted
sorted-IsAscending [] = tt
sorted-IsAscending (i ∷ is) = insert_sorted-IsAscending i (sorted is) (sorted-IsAscending is)

-- A choice with a finish reason ends exactly the tool calls that were started, each as often as the
-- set holds it, in ascending order of their indices; without a reason no event is given.
pub finish_events_lem :
    (started : List ℕ) (choice : Value)
    → (ended : List ℕ) × (finish_events started choice ≡ map tool_call_done ended)
      × IsAscending ended
      × Perm ended (if is_some (get_str "finish_reason" choice) then started else [])
unfolding finish_events
finish_events_lem started choice = elim (Bool-cases (is_some (get_str "finish_reason" choice))) [
  | inl e ↦ (sorted started, rw e refl, sorted-IsAscending started, rw e (sorted-perm started))
  | inr e ↦ ([], rw e refl, tt, rw e (Perm.refl []))
]
