-- ===== src/Chat/Stream/Texts.antt =====
-- No streamed text is lost: what the chunks of src/wire/chat.rs say is what the text events say.
use ai_api_bridge.Prelude.{
  ℕ, String, ◌≡◌, refl, sym, ap, ap₂, ◌∙◌, List, [], ◌∷◌, ◌++◌, Option, none, some, map, is_blank,
  Bool-cases, inl, inr, push_str, push_str_assoc, push_str-blank, blank-push_str, eq_of_is_blank,
  unwrap_or, contains, nat_eq, Option-cases,
}
use ai_api_bridge.Json.{Value, get, get_str, is_null}
use ai_api_bridge.Canonical.{
  CanonicalEvent, reasoning_delta, text_delta, tool_call_args_delta, tool_call_done,
}
use ai_api_bridge.Chat.Stream.{
  ChatStreamParser, usage_event, if_usage, usage_events, text_events, function_str, index_of,
  tool_events, calls_of, reasoning_of, delta_events, sorted, finish_events, if_delta, choice_events,
  if_choice, first_choice, error_of, created_events, chunk_events, unless_error, on_chunk,
  on_chunks,
}

-- The text of one event, and of a list of events.
abbrev pub said : CanonicalEvent → String
said (text_delta text) = text
said _ = ""

abbrev pub texts : List CanonicalEvent → String
texts [] = ""
texts (ev ∷ evs) = push_str (said ev) (texts evs)

pub texts-append : (xs ys : List CanonicalEvent) → texts (xs ++ ys) ≡ push_str (texts xs) (texts ys)
texts-append [] ys = sym (blank-push_str (texts ys))
texts-append (x ∷ xs) ys =
    ap (push_str (said x)) (texts-append xs ys)
    ∙ sym (push_str_assoc (said x) (texts xs) (texts ys))

-- Text events say their text, also where the text is empty and no event is given.
texts-text_events : (o : Option String) → texts (text_events text_delta o) ≡ unwrap_or o ""
texts-text_events none = refl
texts-text_events (some t) = elim (Bool-cases (is_blank t)) [
  | inl b ↦ rw b (sym (eq_of_is_blank t b))
  | inr b ↦ rw b (push_str-blank t)
]

silent_text_events :
    (event : String → CanonicalEvent) (o : Option String)
    → ((t : String) → said (event t) ≡ "")
    → texts (text_events event o) ≡ ""
silent_text_events event none h = refl
silent_text_events event (some t) h = elim (Bool-cases (is_blank t)) [
  | inl b ↦ rw b refl
  | inr b ↦ rw b (rw h refl)
]

silent-append :
    (xs ys : List CanonicalEvent) → texts xs ≡ "" → texts ys ≡ "" → texts (xs ++ ys) ≡ ""
silent-append xs ys h k = texts-append xs ys ∙ (ap₂ push_str h k ∙ blank-push_str "")

texts_of_args :
    (tc : Value)
    → texts (text_events (tool_call_args_delta (index_of tc)) (function_str "arguments" tc)) ≡ ""
texts_of_args tc =
    silent_text_events (tool_call_args_delta (index_of tc)) (function_str "arguments" tc)
      (λ t. refl)

texts-tool_events : (started : List ℕ) (tcs : List Value) → texts (tool_events started tcs).0 ≡ ""
unfolding tool_events
texts-tool_events started [] = refl
texts-tool_events started (tc ∷ tcs) = elim (Bool-cases (contains started (index_of tc))) [
  | inl known ↦ rw known (
      silent-append _ (tool_events started tcs).0 (texts_of_args tc)
        (texts-tool_events started tcs))
  | inr new_one ↦ rw new_one (
      let s = index_of tc ∷ started in
      blank-push_str _
      ∙ silent-append _ (tool_events s tcs).0 (texts_of_args tc) (texts-tool_events s tcs))
]

texts-finish_events :
    (started : List ℕ) (choice : Value) → texts (finish_events started choice) ≡ ""
unfolding finish_events
texts-finish_events started choice = elim (Option-cases (get_str "finish_reason" choice)) [
  | inl e ↦ rw e refl
  | inr (r, e) ↦ rw e (done (sorted started))
]
  where
    done : (is : List ℕ) → texts (map tool_call_done is) ≡ ""
    done [] = refl
    done (i ∷ is) = blank-push_str _ ∙ done is

texts-if_usage : (u : Option Value) → texts (if_usage u) ≡ ""
unfolding if_usage usage_event
texts-if_usage none = refl
texts-if_usage (some u) = elim (Bool-cases (is_null u)) [ inl n ↦ rw n refl | inr n ↦ rw n refl ]

texts-usage_events : (v : Value) → texts (usage_events v) ≡ ""
unfolding usage_events
texts-usage_events v = texts-if_usage (get "usage" v)

-- What the upstream says in a delta, in a choice, and in a chunk that is no error.
abbrev pub delta_text : Option Value → String
delta_text none = ""
delta_text (some delta) = unwrap_or (get_str "content" delta) ""

abbrev pub choice_text : Option Value → String
choice_text none = ""
choice_text (some choice) = delta_text (get "delta" choice)

abbrev pub unless_error_text : Option Value → Value → String
unless_error_text none chunk = choice_text (first_choice chunk)
unless_error_text (some _) chunk = ""

abbrev pub chunk_text : Value → String
chunk_text chunk = unless_error_text (error_of chunk) chunk

abbrev pub chunks_text : List Value → String
chunks_text [] = ""
chunks_text (c ∷ cs) = push_str (chunk_text c) (chunks_text cs)

texts-delta_events :
    (started : List ℕ) (delta : Value)
    → texts (delta_events started delta).0 ≡ unwrap_or (get_str "content" delta) ""
unfolding delta_events
texts-delta_events started delta =
    let calls = tool_events started (calls_of delta) in
    let told = text_events text_delta (get_str "content" delta) in
    texts-append (text_events reasoning_delta (reasoning_of delta)) (told ++ calls.0)
    ∙ (ap₂ push_str (silent_text_events reasoning_delta (reasoning_of delta) (λ t. refl)) (
          texts-append told calls.0
          ∙ (ap₂ push_str (texts-text_events (get_str "content" delta))
                (texts-tool_events started (calls_of delta))
              ∙ push_str-blank _))
        ∙ blank-push_str _)

texts-if_delta :
    (started : List ℕ) (delta : Option Value) → texts (if_delta started delta).0 ≡ delta_text delta
unfolding if_delta
texts-if_delta started none = refl
texts-if_delta started (some delta) = texts-delta_events started delta

texts-if_choice :
    (started : List ℕ) (choice : Option Value)
    → texts (if_choice started choice).0 ≡ choice_text choice
unfolding if_choice choice_events
texts-if_choice started none = refl
texts-if_choice started (some choice) =
    let d = if_delta started (get "delta" choice) in
    texts-append d.0 (finish_events d.1 choice)
    ∙ (ap₂ push_str (texts-if_delta started (get "delta" choice)) (texts-finish_events d.1 choice)
        ∙ push_str-blank _)

texts-created_events :
    (chunk : Value) (p : ChatStreamParser) → texts (created_events chunk p).0 ≡ ""
unfolding created_events
texts-created_events chunk p = elim (Bool-cases p.created) [ inl e ↦ rw e refl | inr e ↦ rw e refl ]

texts-chunk_events :
    (chunk : Value) (p : ChatStreamParser)
    → texts (chunk_events chunk p).0 ≡ choice_text (first_choice chunk)
unfolding chunk_events
texts-chunk_events chunk p =
    let made = created_events chunk p in
    let c = if_choice made.1.started_tools (first_choice chunk) in
    texts-append made.0 (c.0 ++ usage_events chunk)
    ∙ (ap₂ push_str (texts-created_events chunk p) (
          texts-append c.0 (usage_events chunk)
          ∙ (ap₂ push_str (texts-if_choice made.1.started_tools (first_choice chunk))
                (texts-usage_events chunk)
              ∙ push_str-blank _))
        ∙ blank-push_str _)

texts-unless_error :
    (err : Option Value) (chunk : Value) (p : ChatStreamParser)
    → texts (unless_error err chunk p).0 ≡ unless_error_text err chunk
unfolding unless_error
texts-unless_error none chunk p = texts-chunk_events chunk p
texts-unless_error (some err) chunk p = refl

texts-on_chunk :
    (chunk : Value) (p : ChatStreamParser) → texts (on_chunk chunk p).0 ≡ chunk_text chunk
unfolding on_chunk
texts-on_chunk chunk p = texts-unless_error (error_of chunk) chunk p

-- The text events of a stream say what its chunks say, in order: a text is neither lost nor doubled
-- nor moved, and an error chunk says nothing.
pub texts-on_chunks :
    (chunks : List Value) (p : ChatStreamParser) → texts (on_chunks chunks p) ≡ chunks_text chunks
unfolding on_chunks
texts-on_chunks [] p = refl
texts-on_chunks (c ∷ cs) p =
    texts-append (on_chunk c p).0 (on_chunks cs (on_chunk c p).1)
    ∙ ap₂ push_str (texts-on_chunk c p) (texts-on_chunks cs (on_chunk c p).1)
