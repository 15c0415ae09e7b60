-- ===== src/Sse/Laws.antt =====
-- The decoder of src/sse.rs as a whole: how a stream is cut into chunks does not matter.
use ai_api_bridge.Prelude.{
  ℕ, zero, suc, ◌+◌, ◌-◌, ◌≤◌, ◌<◌, ◌≡◌, refl, sym, ap, ◌∙◌, Option, none, some, List, [], ◌∷◌,
  ◌++◌, append-nil, append_assoc, inl, inr, arith, length, length-append, take, drop, Option-cases,
}
use ai_api_bridge.Sse.{
  Bytes, Text, SseItem, Decoded, push_item, find_separator, parse_event_block, drain, push,
}
use ai_api_bridge.Sse.Separator.{find_separator-append, find_separator_bounds}

drop-append : (n : ℕ) (xs ys : Bytes) → n ≤ length xs → drop n (xs ++ ys) ≡ drop n xs ++ ys
drop-append zero xs ys h = refl
drop-append (suc n) [] ys h = absurd (omega arith)
drop-append (suc n) (x ∷ xs) ys h = drop-append n xs ys (omega arith)

take-append : (n : ℕ) (xs ys : Bytes) → n ≤ length xs → take n (xs ++ ys) ≡ take n xs
take-append zero xs ys h = refl
take-append (suc n) [] ys h = absurd (omega arith)
take-append (suc n) (x ∷ xs) ys h = ap (λ r. x ∷ r) (take-append n xs ys (omega arith))

length-drop : (n : ℕ) (xs : Bytes) → length (drop n xs) ≡ length xs - n
length-drop zero xs = omega arith
length-drop (suc n) [] = omega arith
length-drop (suc n) (x ∷ xs) = omega (arith, length-drop n xs)

-- What a round leaves is shorter.
drop_shorter :
    (buf : Bytes) (pos n : ℕ)
    → find_separator buf ≡ some (pos, n)
    → length (drop (pos + n) buf) < length buf
drop_shorter buf pos n e =
    let (fits, some_len) = find_separator_bounds buf pos n e in
    omega (arith, length-drop (pos + n) buf)

-- Two results one after the other.
abbrev joined : List SseItem → Decoded → Decoded
joined first later = record { found = first ++ later.found; buf = later.buf }

-- The result of a round, from the event block that it takes off and the result of the later ones.
abbrev took : Text → Decoded → Decoded
took block rest = record { found = push_item (parse_event_block block) rest.found; buf = rest.buf }

push_item-append :
    (o : Option SseItem) (is js : List SseItem) → push_item o (is ++ js) ≡ push_item o is ++ js
push_item-append none is js = refl
push_item-append (some i) is js = refl

abbrev pub flatten : List Bytes → Bytes
flatten [] = []
flatten (c ∷ cs) = c ++ flatten cs

module _ (from_utf8_lossy : Bytes → Text) where
  drain-stop :
      (f : ℕ) (buf : Bytes)
      → find_separator buf ≡ none
      → drain from_utf8_lossy (suc f) buf ≡ record { found = []; buf = buf }
  unfolding drain
  drain-stop f buf e = rw (e, drain)

  drain-round :
      (f : ℕ) (buf : Bytes) (pos n : ℕ)
      → find_separator buf ≡ some (pos, n)
      → drain from_utf8_lossy (suc f) buf
        ≡ took (from_utf8_lossy (take pos buf)) (drain from_utf8_lossy f (drop (pos + n) buf))
  unfolding drain
  drain-round f buf pos n e = rw (e, drain)

module _ (from_utf8_lossy : Bytes → Text) where
  -- Any fuel above the buffer's length gives the same result.
  drain_fuel :
      (f g : ℕ) (buf : Bytes)
      → length buf < f
      → length buf < g
      → drain from_utf8_lossy f buf ≡ drain from_utf8_lossy g buf
  drain_fuel zero g buf h k = absurd (omega arith)
  drain_fuel (suc f) zero buf h k = absurd (omega arith)
  drain_fuel (suc f) (suc g) buf h k = elim (Option-cases (find_separator buf)) [
    | inl stop ↦ drain-stop from_utf8_lossy f buf stop ∙ sym (drain-stop from_utf8_lossy g buf stop)
    | inr ((pos, n), e) ↦
        drain-round from_utf8_lossy f buf pos n e
        ∙ (ap (took (from_utf8_lossy (take pos buf))) (
              drain_fuel f g (drop (pos + n) buf) (omega (arith, drop_shorter buf pos n e))
                (omega (arith, drop_shorter buf pos n e)))
            ∙ sym (drain-round from_utf8_lossy g buf pos n e))
  ]

  -- With that fuel the loop ends by its test: no separator is left in the buffer.
  drain_ends :
      (f : ℕ) (buf : Bytes)
      → length buf < f
      → find_separator (drain from_utf8_lossy f buf).buf ≡ none
  drain_ends zero buf h = absurd (omega arith)
  drain_ends (suc f) buf h = elim (Option-cases (find_separator buf)) [
    | inl stop ↦ rw (drain-stop from_utf8_lossy f buf stop) stop
    | inr ((pos, n), e) ↦
        rw (drain-round from_utf8_lossy f buf pos n e)
          (drain_ends f (drop (pos + n) buf) (omega (arith, drop_shorter buf pos n e)))
  ]

  -- Over a longer buffer a round does the same, and the rest grows by the same bytes.
  drain-round-append :
      (f : ℕ) (buf more : Bytes) (pos n : ℕ)
      → find_separator buf ≡ some (pos, n)
      → drain from_utf8_lossy (suc f) (buf ++ more)
        ≡ took
            (from_utf8_lossy (take pos buf))
            (drain from_utf8_lossy f (drop (pos + n) buf ++ more))
  drain-round-append f buf more pos n e =
      let fits = (find_separator_bounds buf pos n e).0 in
      rw
        (
          drain-round from_utf8_lossy f (buf ++ more) pos n
              (find_separator-append buf more pos n e),
          take-append pos buf more (omega arith),
          drop-append (pos + n) buf more fits,
        )
        refl

  drain-append :
      (f : ℕ) (buf more : Bytes)
      → length buf + length more < f
      → drain from_utf8_lossy f (buf ++ more)
        ≡ joined
            (drain from_utf8_lossy f buf).found
            (push from_utf8_lossy (drain from_utf8_lossy f buf).buf more)
  unfolding push
  drain-append zero buf more h = absurd (omega arith)
  drain-append (suc f) buf more h = elim (Option-cases (find_separator buf)) [
    | inl stop ↦ rw (drain-stop from_utf8_lossy f buf stop) (
        drain_fuel (suc f) (suc (length (buf ++ more))) (buf ++ more)
          (omega (arith, length-append buf more)) (omega arith))
    | inr ((pos, n), e) ↦
        rw (drain-round-append f buf more pos n e, drain-round from_utf8_lossy f buf pos n e)
          (rw
            (
              drain-append f (drop (pos + n) buf) more (omega (arith, drop_shorter buf pos n e)),
              push_item-append,
            )
            refl)
  ]

  -- Two chunks one after the other give what their concatenation gives at once.
  pub push-append :
      (buf a b : Bytes)
      → push from_utf8_lossy buf (a ++ b)
        ≡ joined
            (push from_utf8_lossy buf a).found
            (push from_utf8_lossy (push from_utf8_lossy buf a).buf b)
  unfolding push
  push-append buf a b = rw (← append_assoc buf a b) (
      drain-append (suc (length ((buf ++ a) ++ b))) (buf ++ a) b
        (omega (arith, length-append (buf ++ a) b))
      ∙ ap (λ (d : Decoded). joined d.found (push from_utf8_lossy d.buf b))
          (drain_fuel (suc (length ((buf ++ a) ++ b))) (suc (length (buf ++ a))) (buf ++ a)
            (omega (arith, length-append (buf ++ a) b)) (omega arith)))

  -- The chunks of a stream, one call of `push` each.
  abbrev pub push_all : Bytes → List Bytes → Decoded
  push_all buf [] = record { found = []; buf = buf }
  push_all buf (c ∷ cs) = let d = push from_utf8_lossy buf c in joined d.found (push_all d.buf cs)

  -- After a call no complete event is left in the buffer.
  pub push_ends : (buf chunk : Bytes) → find_separator (push from_utf8_lossy buf chunk).buf ≡ none
  unfolding push
  push_ends buf chunk = drain_ends (suc (length (buf ++ chunk))) (buf ++ chunk) (omega arith)

  drained :
      (buf : Bytes)
      → find_separator buf ≡ none
      → push from_utf8_lossy buf [] ≡ record { found = []; buf = buf }
  unfolding push
  drained buf h =
      let same = append-nil buf in rw same (drain-stop from_utf8_lossy (length buf) buf h)

  -- However a stream is cut into chunks, the decoder returns the same events and keeps the same
  -- bytes as when it gets the stream as one chunk.
  pub push_all-eq-push :
      (buf : Bytes) (chunks : List Bytes)
      → find_separator buf ≡ none
      → push_all buf chunks ≡ push from_utf8_lossy buf (flatten chunks)
  push_all-eq-push buf [] h = sym (drained buf h)
  push_all-eq-push buf (c ∷ cs) h =
      ap (joined (push from_utf8_lossy buf c).found)
        (push_all-eq-push (push from_utf8_lossy buf c).buf cs (push_ends buf c))
      ∙ sym (push-append buf c (flatten cs))
