-- ===== src/Wire/Starts.antt =====
-- Streams of canonical events in which no tool call is started twice: what the emitters need of the
-- chunk parser.
use ai_api_bridge.Prelude.{ℕ, ◌≡◌, refl, false, List, [], ◌∷◌, ◌++◌, nat_eq, contains}
use ai_api_bridge.Canonical.{CanonicalEvent, tool_call_start}

-- The event starts no tool call whose index has been seen.
abbrev pub IsNew : List ℕ → CanonicalEvent → Type 0
IsNew seen (tool_call_start index _ _) = contains seen index ≡ false
IsNew seen _ = Unit

abbrev pub saw : List ℕ → CanonicalEvent → List ℕ
saw seen (tool_call_start index _ _) = index ∷ seen
saw seen _ = seen

abbrev pub saw_all : List ℕ → List CanonicalEvent → List ℕ
saw_all seen [] = seen
saw_all seen (ev ∷ evs) = saw_all (saw seen ev) evs

-- No tool-call index is started twice, nor one that has been seen.
abbrev pub StartsOnce : List ℕ → List CanonicalEvent → Type 0
StartsOnce seen [] = Unit
StartsOnce seen (ev ∷ evs) = IsNew seen ev × StartsOnce (saw seen ev) evs

pub StartsOnce-append :
    (seen : List ℕ) (xs ys : List CanonicalEvent)
    → StartsOnce seen xs
    → StartsOnce (saw_all seen xs) ys
    → StartsOnce seen (xs ++ ys)
StartsOnce-append seen [] ys h k = k
StartsOnce-append seen (x ∷ xs) ys (p, h) k = (p, StartsOnce-append (saw seen x) xs ys h k)

pub saw_all-append :
    (seen : List ℕ) (xs ys : List CanonicalEvent)
    → saw_all seen (xs ++ ys) ≡ saw_all (saw_all seen xs) ys
saw_all-append seen [] ys = refl
saw_all-append seen (x ∷ xs) ys = saw_all-append (saw seen x) xs ys
