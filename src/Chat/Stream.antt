-- ===== src/Chat/Stream.antt =====
-- `ChatStreamParser` and `completion_to_events` of src/wire/chat.rs: the upstream's chunks and whole
-- responses to canonical events.
pub mod Starts
pub mod Finish
pub mod Texts
use ai_api_bridge.Prelude.{
  ℕ, ◌+◌, ◌%◌, ◌^◌, String, Bool, true, false, not, ◌&&◌, Option, none, some, List, [], ◌∷◌, ◌++◌,
  map, nat_eq, string_eq, if◌then◌else◌, leb, contains, first, is_blank, is_some, unwrap_or,
  and_then, or_else,
}
use ai_api_bridge.Json.{Value, get, get_str, get_u64, as_str, as_array, is_null}
use ai_api_bridge.Canonical.{
  CanonicalEvent, created, reasoning_delta, text_delta, tool_call_start, tool_call_args_delta,
  tool_call_done, usage, completed, error,
}
use ai_api_bridge.Wire.{as_u32}

-- `u as u16`
abbrev pub as_u16 : ℕ → ℕ
as_u16 n = n % 2 ^ 16

pub record ChatStreamParser : Type 0 where
  pub response_id : String
  pub model : String
  pub created : Bool
  pub started_tools : List ℕ

abbrev pub new : String → ChatStreamParser
new response_id = record {
  response_id = response_id;
  model = "";
  created = false;
  started_tools = [];
}

-- `v.get(k).and_then(|v| v.as_u64()).unwrap_or(0) as u32`
abbrev pub count_at : String → Value → ℕ
count_at k v = as_u32 (unwrap_or (get_u64 k v) 0)

unfoldable pub usage_event : Value → CanonicalEvent
usage_event u =
    let cached =
      or_else (and_then (get "prompt_tokens_details" u) (get_u64 "cached_tokens"))
        (get_u64 "prompt_cache_hit_tokens" u) in
    let reasoning = and_then (get "completion_tokens_details" u) (get_u64 "reasoning_tokens") in
    usage (record {
      input_tokens = count_at "prompt_tokens" u;
      output_tokens = count_at "completion_tokens" u;
      total_tokens = count_at "total_tokens" u;
      cached_input_tokens = as_u32 (unwrap_or cached 0);
      reasoning_tokens = as_u32 (unwrap_or reasoning 0);
    })

-- `if let Some(u) = v.get("usage") && !u.is_null()`
unfoldable pub if_usage : Option Value → List CanonicalEvent
unfolding usage_event
if_usage none = []
if_usage (some u) = if not (is_null u) then usage_event u ∷ [] else []

unfoldable pub usage_events : Value → List CanonicalEvent
unfolding if_usage
usage_events v = if_usage (get "usage" v)

-- A text that is there and not empty gives an event.
abbrev pub text_events : (String → CanonicalEvent) → Option String → List CanonicalEvent
text_events event none = []
text_events event (some text) = if not (is_blank text) then event text ∷ [] else []

abbrev pub reasoning_of : Value → Option String
reasoning_of delta =
    and_then (or_else (get "reasoning_content" delta) (get "reasoning" delta)) as_str

-- `tc.get("function").and_then(|f| f.get(k)).and_then(|v| v.as_str())`
abbrev pub function_str : String → Value → Option String
function_str k tc = and_then (get "function" tc) (get_str k)

-- `let index = ...`
abbrev pub index_of : Value → ℕ
index_of tc = count_at "index" tc

abbrev pub start_event : ℕ → Value → CanonicalEvent
start_event index tc =
    tool_call_start index (unwrap_or (get_str "id" tc) "") (unwrap_or (function_str "name" tc) "")

-- The loop over `delta.tool_calls`, with the set `started_tools`: the events and the set after it.
unfoldable pub tool_events : List ℕ → List Value → List CanonicalEvent × List ℕ
tool_events started [] = ([], started)
tool_events started (tc ∷ tcs) =
    let index = index_of tc in
    let known = contains started index in
    let rest = tool_events (if known then started else index ∷ started) tcs in
    (
      (if known then [] else start_event index tc ∷ [])
          ++ (text_events (tool_call_args_delta index) (function_str "arguments" tc) ++ rest.0),
      rest.1,
    )

-- `if let Some(tcs) = delta.get("tool_calls").and_then(|v| v.as_array())`
abbrev pub calls_of : Value → List Value
calls_of delta = unwrap_or (and_then (get "tool_calls" delta) as_array) []

unfoldable pub delta_events : List ℕ → Value → List CanonicalEvent × List ℕ
unfolding tool_events
delta_events started delta =
    let calls = tool_events started (calls_of delta) in
    (
      text_events reasoning_delta (reasoning_of delta)
          ++ (text_events text_delta (get_str "content" delta) ++ calls.0),
      calls.1,
    )

-- `sort_unstable` on the indices.
unfoldable pub insert_sorted : ℕ → List ℕ → List ℕ
insert_sorted i [] = i ∷ []
insert_sorted i (j ∷ js) =
    let later = j ∷ insert_sorted i js in if leb i j then i ∷ j ∷ js else later

unfoldable pub sorted : List ℕ → List ℕ
unfolding insert_sorted
sorted [] = []
sorted (i ∷ is) = insert_sorted i (sorted is)

-- `if choice.get("finish_reason").and_then(|v| v.as_str()).is_some()`
unfoldable pub finish_events : List ℕ → Value → List CanonicalEvent
unfolding sorted
finish_events started choice =
    if is_some (get_str "finish_reason" choice) then map tool_call_done (sorted started) else []

-- `if let Some(delta) = choice.get("delta")`
unfoldable pub if_delta : List ℕ → Option Value → List CanonicalEvent × List ℕ
unfolding delta_events
if_delta started none = ([], started)
if_delta started (some delta) = delta_events started delta

unfoldable pub choice_events : List ℕ → Value → List CanonicalEvent × List ℕ
unfolding if_delta finish_events
choice_events started choice =
    let d = if_delta started (get "delta" choice) in (d.0 ++ finish_events d.1 choice, d.1)

-- `if let Some(choice) = choice`
unfoldable pub if_choice : List ℕ → Option Value → List CanonicalEvent × List ℕ
unfolding choice_events
if_choice started none = ([], started)
if_choice started (some choice) = choice_events started choice

-- `.get("choices").and_then(|c| c.as_array()).and_then(|a| a.first())`
abbrev pub first_choice : Value → Option Value
first_choice chunk = and_then (and_then (get "choices" chunk) as_array) first

-- `if let Some(err) = chunk.get("error") && !err.is_null()`
abbrev pub error_of : Value → Option Value
error_of chunk = and_then (get "error" chunk) (λ err. if not (is_null err) then some err else none)

abbrev pub error_event : Value → CanonicalEvent
error_event err =
    error (unwrap_or (get_str "message" err) "upstream error")
      (elim (get_u64 "code" err) [ none ↦ 502 | some n ↦ as_u16 n ])

abbrev pub model_of : Value → String
model_of v = unwrap_or (get_str "model" v) ""

-- `if !self.created`
unfoldable pub created_events : Value → ChatStreamParser → List CanonicalEvent × ChatStreamParser
created_events chunk p =
    if not p.created
    then (
      created p.response_id (model_of chunk) ∷ [],
      record p { model = model_of chunk; created = true },
    )
    else ([], p)

unfoldable pub chunk_events : Value → ChatStreamParser → List CanonicalEvent × ChatStreamParser
unfolding created_events if_choice usage_events
chunk_events chunk p =
    let (head, p') = created_events chunk p in
    let c = if_choice p'.started_tools (first_choice chunk) in
    (head ++ (c.0 ++ usage_events chunk), record p' { started_tools = c.1 })

-- The early return for an error.
unfoldable pub unless_error :
    Option Value → Value → ChatStreamParser → List CanonicalEvent × ChatStreamParser
unfolding chunk_events
unless_error (some err) chunk p = (error_event err ∷ [], p)
unless_error none chunk p = chunk_events chunk p

unfoldable pub on_chunk : Value → ChatStreamParser → List CanonicalEvent × ChatStreamParser
unfolding unless_error
on_chunk chunk p = unless_error (error_of chunk) chunk p

-- The chunks of a stream.
unfoldable pub on_chunks : List Value → ChatStreamParser → List CanonicalEvent
unfolding on_chunk
on_chunks [] p = []
on_chunks (c ∷ cs) p = let (evs, p') = on_chunk c p in evs ++ on_chunks cs p'

-- The events of one call of a whole message, before those of the later calls.
abbrev pub whole_call : ℕ → Value → List CanonicalEvent → List CanonicalEvent
whole_call index tc later =
    start_event index tc
    ∷ (text_events (tool_call_args_delta index) (function_str "arguments" tc)
        ++ (tool_call_done index ∷ later))

-- The loop over the tool calls of a whole message; `i` counts them.
unfoldable pub whole_calls : ℕ → List Value → List CanonicalEvent
whole_calls i [] = []
whole_calls i (tc ∷ tcs) = whole_call (as_u32 i) tc (whole_calls (i + 1) tcs)

unfoldable pub message_events : Value → List CanonicalEvent
unfolding whole_calls
message_events msg =
    text_events reasoning_delta (reasoning_of msg)
    ++ (text_events text_delta (get_str "content" msg) ++ whole_calls 0 (calls_of msg))

-- `if let Some(msg) = ...`
unfoldable pub if_message : Option Value → List CanonicalEvent
unfolding message_events
if_message none = []
if_message (some msg) = message_events msg

unfoldable pub completion_to_events : Value → String → List CanonicalEvent
unfolding if_message usage_events
completion_to_events resp response_id =
    created response_id (model_of resp)
    ∷ (if_message (and_then (first_choice resp) (get "message"))
        ++ (usage_events resp ++ completed ∷ []))
