-- ===== src/Chat/Stream/Starts.antt =====
-- The chunk parser of src/wire/chat.rs starts each tool call once.
use ai_api_bridge.Prelude.{
  ℕ, ◌+◌, ◌≤◌, ◌<◌, ◌^◌, String, ◌≡◌, refl, sym, ap, ◌∙◌, subst, false, List, [], ◌∷◌, ◌++◌, Option,
  none, some, All, arith, nat_eq, contains, is_blank, Bool-cases, Option-cases, inl, inr, map,
  length, unwrap_or, and_then,
}
use mathlib.Core.Option
use ai_api_bridge.Json.{Value, get, is_null, get_str}
use ai_api_bridge.Canonical.{
  CanonicalEvent, created, reasoning_delta, text_delta, tool_call_start, tool_call_args_delta,
  tool_call_done, usage, completed, error,
}
use ai_api_bridge.Wire.{as_u32}
use ai_api_bridge.Wire.Starts.{saw_all, StartsOnce, StartsOnce-append, saw_all-append}
use ai_api_bridge.Chat.Stream.{
  ChatStreamParser, new, if_usage, usage_events, text_events, function_str, index_of, tool_events,
  calls_of, reasoning_of, delta_events, sorted, finish_events, choice_events, if_delta, if_choice,
  unless_error, if_message, first_choice, error_of, created_events, chunk_events, on_chunk,
  on_chunks, whole_call, whole_calls, message_events, completion_to_events,
}

-- The events start only tool calls that are not in `before`, and lead to the set `after`.
abbrev pub Threads : List ℕ → List CanonicalEvent → List ℕ → Type 0
Threads before evs after = StartsOnce before evs × (saw_all before evs ≡ after)

Threads-append :
    (a b c : List ℕ) (xs ys : List CanonicalEvent)
    → Threads a xs b
    → Threads b ys c
    → Threads a (xs ++ ys) c
Threads-append a b c xs ys (h, e) (k, d) = (
  StartsOnce-append a xs ys h (subst (λ s. StartsOnce s ys) (sym e) k),
  saw_all-append a xs ys ∙ (ap (λ s. saw_all s ys) e ∙ d),
)

abbrev IsQuiet : CanonicalEvent → Type 0
IsQuiet (tool_call_start _ _ _) = ⊥
IsQuiet _ = Unit

Threads-of_quiet :
    (seen : List ℕ) (evs : List CanonicalEvent) → All IsQuiet evs → Threads seen evs seen
Threads-of_quiet seen [] h = (tt, refl)
Threads-of_quiet seen (tool_call_start index id name ∷ evs) h = absurd h.0
Threads-of_quiet seen (created id model ∷ evs) h =
    let r = Threads-of_quiet seen evs h.1 in ((tt, r.0), r.1)
Threads-of_quiet seen (reasoning_delta text ∷ evs) h =
    let r = Threads-of_quiet seen evs h.1 in ((tt, r.0), r.1)
Threads-of_quiet seen (text_delta text ∷ evs) h =
    let r = Threads-of_quiet seen evs h.1 in ((tt, r.0), r.1)
Threads-of_quiet seen (tool_call_args_delta index delta ∷ evs) h =
    let r = Threads-of_quiet seen evs h.1 in ((tt, r.0), r.1)
Threads-of_quiet seen (tool_call_done index ∷ evs) h =
    let r = Threads-of_quiet seen evs h.1 in ((tt, r.0), r.1)
Threads-of_quiet seen (usage counts ∷ evs) h =
    let r = Threads-of_quiet seen evs h.1 in ((tt, r.0), r.1)
Threads-of_quiet seen (completed ∷ evs) h =
    let r = Threads-of_quiet seen evs h.1 in ((tt, r.0), r.1)
Threads-of_quiet seen (error message status ∷ evs) h =
    let r = Threads-of_quiet seen evs h.1 in ((tt, r.0), r.1)

text_events-IsQuiet :
    (event : String → CanonicalEvent) (o : Option String)
    → ((t : String) → IsQuiet (event t))
    → All IsQuiet (text_events event o)
text_events-IsQuiet event none h = tt
text_events-IsQuiet event (some t) h = elim (Bool-cases (is_blank t)) [
  | inl b ↦ rw b tt
  | inr b ↦ rw b (h t, tt)
]

if_usage-IsQuiet : (u : Option Value) → All IsQuiet (if_usage u)
unfolding if_usage
if_usage-IsQuiet none = tt
if_usage-IsQuiet (some u) = elim (Bool-cases (is_null u)) [
  | inl e ↦ rw e tt
  | inr e ↦ rw e (tt, tt)
]

usage_events-IsQuiet : (v : Value) → All IsQuiet (usage_events v)
unfolding usage_events
usage_events-IsQuiet v = if_usage-IsQuiet (get "usage" v)

done_events-IsQuiet : (is : List ℕ) → All IsQuiet (map tool_call_done is)
done_events-IsQuiet [] = tt
done_events-IsQuiet (i ∷ is) = (tt, done_events-IsQuiet is)

finish_events-IsQuiet :
    (started : List ℕ) (choice : Value) → All IsQuiet (finish_events started choice)
unfolding finish_events
finish_events-IsQuiet started choice = elim (Option-cases (get_str "finish_reason" choice)) [
  | inl e ↦ rw e tt
  | inr (r, e) ↦ rw e (done_events-IsQuiet (sorted started))
]

tool_events-Threads :
    (started : List ℕ) (tcs : List Value)
    → let r = tool_events started tcs in Threads started r.0 r.1
unfolding tool_events
tool_events-Threads started [] = (tt, refl)
tool_events-Threads started (tc ∷ tcs) = elim (Bool-cases (contains started (index_of tc))) [
  | inl known ↦ rw known (after started (tool_events-Threads started tcs))
  | inr new_one ↦ rw new_one (
      let r = after (index_of tc ∷ started) (tool_events-Threads (index_of tc ∷ started) tcs) in
      ((new_one, r.0), r.1))
]
  where
    after :
        (s : List ℕ)
        → Threads s (tool_events s tcs).0 (tool_events s tcs).1
        → Threads s
            (text_events (tool_call_args_delta (index_of tc)) (function_str "arguments" tc)
              ++ (tool_events s tcs).0)
            (tool_events s tcs).1
    after s h =
        Threads-append s s (tool_events s tcs).1 _ (tool_events s tcs).0
          (Threads-of_quiet s _ (text_events-IsQuiet _ (function_str "arguments" tc) (λ t. tt))) h

delta_events-Threads :
    (started : List ℕ) (delta : Value)
    → let r = delta_events started delta in Threads started r.0 r.1
unfolding delta_events
delta_events-Threads started delta =
    let calls = tool_events started (calls_of delta) in
    Threads-append started started calls.1 _ _
      (Threads-of_quiet started _ (text_events-IsQuiet _ (reasoning_of delta) (λ t. tt)))
      (Threads-append started started calls.1 _ _
        (Threads-of_quiet started _ (text_events-IsQuiet _ (get_str "content" delta) (λ t. tt)))
        (tool_events-Threads started (calls_of delta)))

if_delta-Threads :
    (started : List ℕ) (delta : Option Value)
    → let r = if_delta started delta in Threads started r.0 r.1
unfolding if_delta
if_delta-Threads started none = (tt, refl)
if_delta-Threads started (some delta) = delta_events-Threads started delta

choice_events-Threads :
    (started : List ℕ) (choice : Value)
    → let r = choice_events started choice in Threads started r.0 r.1
unfolding choice_events
choice_events-Threads started choice =
    let d = if_delta started (get "delta" choice) in
    Threads-append started d.1 d.1 d.0 _ (if_delta-Threads started (get "delta" choice))
      (Threads-of_quiet d.1 _ (finish_events-IsQuiet d.1 choice))

if_choice-Threads :
    (started : List ℕ) (choice : Option Value)
    → let r = if_choice started choice in Threads started r.0 r.1
unfolding if_choice
if_choice-Threads started none = (tt, refl)
if_choice-Threads started (some choice) = choice_events-Threads started choice

created_events-Threads :
    (chunk : Value) (p : ChatStreamParser)
    → Threads p.started_tools (created_events chunk p).0 (created_events chunk p).1.started_tools
unfolding created_events
created_events-Threads chunk p = ground arith

chunk_events-Threads :
    (chunk : Value) (p : ChatStreamParser)
    → let r = chunk_events chunk p in Threads p.started_tools r.0 r.1.started_tools
unfolding chunk_events
chunk_events-Threads chunk p =
    let made = created_events chunk p in
    let c = if_choice made.1.started_tools (first_choice chunk) in
    Threads-append p.started_tools made.1.started_tools c.1 made.0 _
      (created_events-Threads chunk p)
      (Threads-append made.1.started_tools c.1 c.1 c.0 _
        (if_choice-Threads made.1.started_tools (first_choice chunk))
        (Threads-of_quiet c.1 _ (usage_events-IsQuiet chunk)))

unless_error-Threads :
    (err : Option Value) (chunk : Value) (p : ChatStreamParser)
    → let r = unless_error err chunk p in Threads p.started_tools r.0 r.1.started_tools
unfolding unless_error
unless_error-Threads (some err) chunk p = ((tt, tt), refl)
unless_error-Threads none chunk p = chunk_events-Threads chunk p

pub on_chunk-Threads :
    (chunk : Value) (p : ChatStreamParser)
    → let r = on_chunk chunk p in Threads p.started_tools r.0 r.1.started_tools
unfolding on_chunk
on_chunk-Threads chunk p = unless_error-Threads (error_of chunk) chunk p

on_chunks-StartsOnce_from :
    (chunks : List Value) (p : ChatStreamParser) → StartsOnce p.started_tools (on_chunks chunks p)
unfolding on_chunks
on_chunks-StartsOnce_from [] p = tt
on_chunks-StartsOnce_from (c ∷ cs) p =
    let (once, reached) = on_chunk-Threads c p in
    StartsOnce-append p.started_tools (on_chunk c p).0 (on_chunks cs (on_chunk c p).1) once (
      subst (λ s. StartsOnce s (on_chunks cs (on_chunk c p).1)) (sym reached)
        (on_chunks-StartsOnce_from cs (on_chunk c p).1))

-- Over all the chunks of a stream, whatever they hold, no tool-call index is started twice.
pub on_chunks-StartsOnce :
    (chunks : List Value) (response_id : String)
    → StartsOnce [] (on_chunks chunks (new response_id))
on_chunks-StartsOnce chunks response_id = on_chunks-StartsOnce_from chunks (new response_id)

-- No index from `i` up is in the set.
abbrev IsFreeFrom : ℕ → List ℕ → Type 0
IsFreeFrom i seen = (k : ℕ) → i ≤ k → contains seen k ≡ false

IsFreeFrom-cons :
    (i : ℕ) (seen : List ℕ) → i < 2 ^ 32 → IsFreeFrom i seen → IsFreeFrom (i + 1) (as_u32 i ∷ seen)
IsFreeFrom-cons i seen h free k le = ground (arith, free k)

StartsOnce-quiet :
    (seen : List ℕ) (xs ys : List CanonicalEvent)
    → All IsQuiet xs
    → StartsOnce seen ys
    → StartsOnce seen (xs ++ ys)
StartsOnce-quiet seen xs ys q h =
    let (once, same) = Threads-of_quiet seen xs q in
    StartsOnce-append seen xs ys once (subst (λ s. StartsOnce s ys) (sym same) h)

whole_call-StartsOnce :
    (index : ℕ) (seen : List ℕ) (tc : Value) (later : List CanonicalEvent)
    → contains seen index ≡ false
    → StartsOnce (index ∷ seen) later
    → StartsOnce seen (whole_call index tc later)
whole_call-StartsOnce index seen tc later new_one h = (
  new_one,
  StartsOnce-quiet (index ∷ seen)
      (text_events (tool_call_args_delta index) (function_str "arguments" tc))
      (tool_call_done index ∷ later)
      (text_events-IsQuiet (tool_call_args_delta index) (function_str "arguments" tc) (λ t. tt))
      (tt, h),
)

whole_calls-StartsOnce :
    (i : ℕ) (seen : List ℕ) (tcs : List Value)
    → i + length tcs < 2 ^ 32
    → IsFreeFrom i seen
    → StartsOnce seen (whole_calls i tcs)
unfolding whole_calls
whole_calls-StartsOnce i seen [] h free = tt
whole_calls-StartsOnce i seen (tc ∷ tcs) h free =
    whole_call-StartsOnce (as_u32 i) seen tc (whole_calls (i + 1) tcs)
      (free (as_u32 i) (omega arith))
      (whole_calls-StartsOnce (i + 1) (as_u32 i ∷ seen) tcs (omega arith)
        (IsFreeFrom-cons i seen (omega arith) free))

-- The tool calls of a whole response.
abbrev pub response_calls : Value → List Value
response_calls resp =
    unwrap_or (Option.map calls_of (and_then (first_choice resp) (get "message"))) []

message_events-StartsOnce :
    (msg : Option Value)
    → length (unwrap_or (Option.map calls_of msg) []) < 2 ^ 32
    → StartsOnce [] (if_message msg)
unfolding if_message message_events
message_events-StartsOnce none h = tt
message_events-StartsOnce (some msg) h =
    let calls = whole_calls 0 (calls_of msg) in
    let said = text_events text_delta (get_str "content" msg) in
    StartsOnce-quiet [] (text_events reasoning_delta (reasoning_of msg)) (said ++ calls)
      (text_events-IsQuiet reasoning_delta (reasoning_of msg) (λ t. tt))
      (StartsOnce-quiet [] said calls
        (text_events-IsQuiet text_delta (get_str "content" msg) (λ t. tt))
        (whole_calls-StartsOnce 0 [] (calls_of msg) (omega arith) (λ k e. refl)))

-- In the events of a whole response with fewer than 2 ^ 32 tool calls no tool-call index is started
-- twice.
pub completion_to_events-StartsOnce :
    (resp : Value) (response_id : String)
    → length (response_calls resp) < 2 ^ 32
    → StartsOnce [] (completion_to_events resp response_id)
unfolding completion_to_events
completion_to_events-StartsOnce resp response_id h = (
  tt,
  StartsOnce-append [] _ _
      (message_events-StartsOnce (and_then (first_choice resp) (get "message")) h)
      (StartsOnce-quiet _ (usage_events resp) (completed ∷ []) (usage_events-IsQuiet resp)
        (tt, tt)),
)
