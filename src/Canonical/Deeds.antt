-- ===== src/Canonical/Deeds.antt =====
-- What a conversation says and does, message by message: the view in which it does not matter how
-- the parsers of src/wire group it into messages.
use ai_api_bridge.Prelude.{
  String, Option, none, some, List, [], ◌∷◌, ◌++◌, map, ◌≡◌, refl, sym, ap, ◌∙◌, append_assoc,
}
use ai_api_bridge.Canonical.{ToolCall, Message, user, assistant, tool}

pub data Deed : Type 0 where
  said replied : String → Deed
  called : ToolCall → Deed
  -- call_id, output
  answered : String → String → Deed

abbrev pub reply : Option String → List Deed
reply none = []
reply (some text) = replied text ∷ []

abbrev pub deeds_of : Message → List Deed
deeds_of (user text) = said text ∷ []
deeds_of (assistant text reasoning calls) = reply text ++ map called calls
deeds_of (tool call_id output) = answered call_id output ∷ []

abbrev pub deeds : List Message → List Deed
deeds [] = []
deeds (m ∷ ms) = deeds_of m ++ deeds ms

pub deeds-append : (xs ys : List Message) → deeds (xs ++ ys) ≡ deeds xs ++ deeds ys
deeds-append [] ys = refl
deeds-append (x ∷ xs) ys =
    ap (λ l. deeds_of x ++ l) (deeds-append xs ys)
    ∙ sym (append_assoc (deeds_of x) (deeds xs) (deeds ys))

pub map-push :
    (calls : List ToolCall) (call : ToolCall)
    → map called (calls ++ call ∷ []) ≡ map called calls ++ called call ∷ []
map-push [] call = refl
map-push (c ∷ calls) call = ap (λ l. called c ∷ l) (map-push calls call)
