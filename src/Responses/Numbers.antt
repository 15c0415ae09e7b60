-- ===== src/Responses/Numbers.antt =====
-- The sequence numbers that `on_event` of src/wire/responses.rs puts into its frames.
use ai_api_bridge.Prelude.{
  ℕ, ◌≡◌, refl, ap, ap₂, String, Option, none, some, List, [], ◌∷◌, ◌++◌, if◌then◌else◌, ◌==◌,
  string_eq, All,
}
use ai_api_bridge.Json.{Value, null, bool, num, str, arr, obj, int, get, get_u64}
use ai_api_bridge.Json.Laws.{lookup-insert}
use ai_api_bridge.Wire.{SseFrame}
use ai_api_bridge.Wire.Counting.{hits}
use ai_api_bridge.Responses.Emitter.{number_body, number_frame, number_frames, next_u64}

-- The item of a frame that finishes an output item.
abbrev pub done_item : SseFrame → Option Value
done_item f = if f.event == "response.output_item.done" then get "item" f.body else none

abbrev pub add_item : Option Value → List Value → List Value
add_item none items = items
add_item (some item) items = item ∷ items

abbrev pub done_items : List SseFrame → List Value
done_items [] = []
done_items (f ∷ fs) = add_item (done_item f) (done_items fs)

-- The number of a frame.
abbrev pub seq_of : SseFrame → Option ℕ
seq_of f = get_u64 "sequence_number" f.body

get-number_body :
    (n : ℕ) (v : Value)
    → (get "output_index" (number_body n v) ≡ get "output_index" v)
      × (get "item" (number_body n v) ≡ get "item" v)
get-number_body n null = (refl, refl)
get-number_body n (bool b) = (refl, refl)
get-number_body n (num m) = (refl, refl)
get-number_body n (str s) = (refl, refl)
get-number_body n (arr vs) = (refl, refl)
get-number_body n (obj fs) = (
  lookup-insert "sequence_number" "output_index" (int n) fs,
  lookup-insert "sequence_number" "item" (int n) fs,
)

pub hits-number_frames :
    (event : String) (i n : ℕ) (fs : List SseFrame)
    → hits event "output_index" i (number_frames n fs).0 ≡ hits event "output_index" i fs
unfolding number_frames
hits-number_frames event i n [] = refl
hits-number_frames event i n (f ∷ fs) =
    rw ((get-number_body n f.body).0, hits-number_frames event i (next_u64 n) fs) refl

pub done_items-number_frames :
    (n : ℕ) (fs : List SseFrame) → done_items (number_frames n fs).0 ≡ done_items fs
unfolding number_frames
done_items-number_frames n [] = refl
done_items-number_frames n (f ∷ fs) =
    ap₂ add_item
      (ap (λ (o : Option Value). if f.event == "response.output_item.done" then o else none)
        (get-number_body n f.body).1)
      (done_items-number_frames (next_u64 n) fs)

abbrev pub IsObject : Value → Type 0
IsObject (obj fs) = Unit
IsObject v = ⊥

-- The frames carry consecutive numbers, as a `u64` counts, from `n` on up to before `m`.
abbrev pub Counts : ℕ → List SseFrame → ℕ → Type 0
Counts n [] m = n ≡ m
Counts n (f ∷ fs) m = (seq_of f ≡ some n) × Counts (next_u64 n) fs m

pub Counts-append :
    (n m k : ℕ) (fs gs : List SseFrame) → Counts n fs m → Counts m gs k → Counts n (fs ++ gs) k
Counts-append n m k [] gs e h = rw e h
Counts-append n m k (f ∷ fs) gs h h' = (h.0, Counts-append (next_u64 n) m k fs gs h.1 h')

seq_of-number_frame : (n : ℕ) (f : SseFrame) → IsObject f.body → seq_of (number_frame n f) ≡ some n
seq_of-number_frame n f h = go f.body h
  where
    go : (v : Value) → IsObject v → get_u64 "sequence_number" (number_body n v) ≡ some n
    go (obj fs) h = rw (lookup-insert "sequence_number" "sequence_number" (int n) fs) refl
    go null h = absurd h
    go (bool b) h = absurd h
    go (num m) h = absurd h
    go (str s) h = absurd h
    go (arr vs) h = absurd h

pub Counts-number_frames :
    (n : ℕ) (fs : List SseFrame)
    → All (λ f. IsObject f.body) fs
    → let (gs, m) = number_frames n fs in Counts n gs m
unfolding number_frames
Counts-number_frames n [] h = refl
Counts-number_frames n (f ∷ fs) h =
    (seq_of-number_frame n f h.0, Counts-number_frames (next_u64 n) fs h.1)

pub done_items-append :
    (fs gs : List SseFrame) → done_items (fs ++ gs) ≡ done_items fs ++ done_items gs
done_items-append [] gs = refl
done_items-append (f ∷ fs) gs = rw (done_items-append fs gs) (add_item-append (done_item f))
  where
    add_item-append :
        (o : Option Value)
        → add_item o (done_items fs ++ done_items gs) ≡ add_item o (done_items fs) ++ done_items gs
    add_item-append none = refl
    add_item-append (some v) = refl
