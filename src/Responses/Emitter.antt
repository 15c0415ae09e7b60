-- ===== src/Responses/Emitter.antt =====
-- `ResponsesEmitter` of src/wire/responses.rs: canonical events to Responses frames. The UUIDs that
-- `new_id` draws are a parameter, one for each draw.
use ai_api_bridge.Prelude.{
  ℕ, suc, ◌+◌, ◌%◌, ◌^◌, String, none, some, List, [], ◌∷◌, ◌++◌, push_str, unwrap_or,
}
use ai_api_bridge.Json.{Value, str, obj, object, array, int, insert}
use ai_api_bridge.Canonical.{
  UsageCounts, CanonicalEvent, created, reasoning_delta, text_delta, tool_call_start,
  tool_call_args_delta, tool_call_done, usage, completed, error,
}
use ai_api_bridge.Wire.{
  SseFrame, frame, new_id, Emitted, CanonicalEmitter, next_u32, pushed, nothing, panic, ◌>>◌,
}
use ai_api_bridge.Wire.IndexMap
use ai_api_bridge.Responses.Frames.{
  ToolItem, ResponsesEmitter, created_frame, item_added, item_done, reasoning_started,
  reasoning_json, reasoning_delta_frame, message_started, message_json, part_added,
  text_delta_frame, text_done_frame, part_done, call_json, args_delta_frame, args_done_frame,
  failed_frame,
}

-- `alloc_index`: the index, and the state after it.
abbrev pub alloc_index : ResponsesEmitter → ℕ × ResponsesEmitter
alloc_index s = (s.next_output_index, record s { next_output_index = next_u32 s.next_output_index })

unfoldable pub close_reasoning : ResponsesEmitter → Emitted ResponsesEmitter
close_reasoning s = elim s.reasoning_item [
  | none ↦ nothing s
  | some item ↦
      let item_json = reasoning_json item.id s.reasoning_text in
      pushed (item_done item.output_index item_json ∷ [])
        (record s { reasoning_item = none; final_items = s.final_items ++ item_json ∷ [] })
]

unfoldable pub close_message : ResponsesEmitter → Emitted ResponsesEmitter
close_message s = elim s.message_item [
  | none ↦ nothing s
  | some item ↦
      let item_json = message_json item.id s.message_text in
      pushed
        (text_done_frame item s.message_text
          ∷ part_done item s.message_text
          ∷ item_done item.output_index item_json
          ∷ [])
        (record s { message_item = none; final_items = s.final_items ++ item_json ∷ [] })
]

-- The rest of the branch for a reasoning delta.
unfoldable pub push_reasoning : String → ResponsesEmitter → Emitted ResponsesEmitter
push_reasoning text s =
    let s' = record s { reasoning_text = push_str s.reasoning_text text } in
    elim s.reasoning_item [
      | none ↦ panic s'
      | some item ↦ pushed (reasoning_delta_frame item text ∷ []) s'
    ]

-- The rest of the branch for a text delta.
unfoldable pub push_text : String → ResponsesEmitter → Emitted ResponsesEmitter
push_text text s =
    let s' = record s { message_text = push_str s.message_text text } in
    elim s.message_item [
      | none ↦ panic s'
      | some item ↦ pushed (text_delta_frame item text ∷ []) s'
    ]

abbrev pub push_args : String → ToolItem → ToolItem
push_args delta t = record t { args = push_str t.args delta }

unfoldable pub tool_args : ℕ → String → ResponsesEmitter → Emitted ResponsesEmitter
tool_args index delta s = elim (IndexMap.find index s.tools) [
  | none ↦ nothing s
  | some t ↦
      pushed (args_delta_frame t delta ∷ [])
        (record s { tools = IndexMap.update index (push_args delta) s.tools })
]

unfoldable pub finish_tool : ToolItem → ResponsesEmitter → Emitted ResponsesEmitter
finish_tool t s =
    let item = call_json t.id t.call_id t.name t.args "completed" in
    pushed (args_done_frame t ∷ item_done t.output_index item ∷ [])
      (record s { final_items = s.final_items ++ item ∷ [] })

-- `if let Some(t) = self.tools.remove(index)`
unfoldable pub tool_done : ℕ → ResponsesEmitter → Emitted ResponsesEmitter
unfolding finish_tool
tool_done index s = elim (IndexMap.find index s.tools) [
  | none ↦ nothing s
  | some t ↦ finish_tool t (record s { tools = IndexMap.remove index s.tools })
]

unfoldable pub finish_all : List ToolItem → ResponsesEmitter → Emitted ResponsesEmitter
unfolding finish_tool
finish_all [] s = nothing s
finish_all (t ∷ ts) s = (finish_tool t >> finish_all ts) s

unfoldable pub close_open_tools : ResponsesEmitter → Emitted ResponsesEmitter
unfolding finish_all
close_open_tools s = finish_all (IndexMap.values s.tools) (record s { tools = [] })

abbrev pub no_usage : UsageCounts
no_usage = record {
  input_tokens = 0;
  output_tokens = 0;
  total_tokens = 0;
  cached_input_tokens = 0;
  reasoning_tokens = 0;
}

abbrev pub usage_json : UsageCounts → Value
usage_json u = object (
    ("input_tokens", int u.input_tokens)
    ∷ ("input_tokens_details", object (("cached_tokens", int u.cached_input_tokens) ∷ []))
    ∷ ("output_tokens", int u.output_tokens)
    ∷ ("output_tokens_details", object (("reasoning_tokens", int u.reasoning_tokens) ∷ []))
    ∷ ("total_tokens", int u.total_tokens)
    ∷ [])

-- `completed_response` and `final_response`
unfoldable pub completed_response : ResponsesEmitter → Value
completed_response s = object (
    ("id", str s.response_id)
    ∷ ("object", str "response")
    ∷ ("status", str "completed")
    ∷ ("model", str s.model)
    ∷ ("output", array s.final_items)
    ∷ ("usage", usage_json (unwrap_or s.usage no_usage))
    ∷ [])

-- The end of the branch for `Completed`.
unfoldable pub finish_response : ResponsesEmitter → Emitted ResponsesEmitter
finish_response s =
    pushed
      (frame "response.completed"
          (object (("type", str "response.completed") ∷ ("response", completed_response s) ∷ []))
        ∷ [])
      s

-- `self.seq += 1` on a `u64`
abbrev pub next_u64 : ℕ → ℕ
next_u64 n = (n + 1) % 2 ^ 64

-- `map.insert("sequence_number", ..)` where the payload is an object.
abbrev pub number_body : ℕ → Value → Value
number_body n (obj fs) = obj (insert "sequence_number" (int n) fs)
number_body n v = v

abbrev pub number_frame : ℕ → SseFrame → SseFrame
number_frame n f = record f { body = number_body n f.body }

-- The loop at the end of `on_event`: the frames, and `seq` after them.
unfoldable pub number_frames : ℕ → List SseFrame → List SseFrame × ℕ
number_frames n [] = ([], n)
number_frames n (f ∷ fs) =
    let rest = number_frames (next_u64 n) fs in (number_frame n f ∷ rest.0, rest.1)

abbrev pub numbered : Emitted ResponsesEmitter → Emitted ResponsesEmitter
numbered a =
    let (fs, n) = number_frames a.state.seq a.frames in
    record { frames = fs; state = record (a.state) { seq = n }; panicked = a.panicked }

module _ (uuid : ℕ → String) where
  -- `new_id`, and the state after the draw.
  abbrev pub draw_id : String → ResponsesEmitter → String × ResponsesEmitter
  draw_id prefix s = (new_id prefix (uuid s.drawn), record s { drawn = suc s.drawn })

  abbrev pub open_reasoning : ResponsesEmitter → Emitted ResponsesEmitter
  open_reasoning s =
      let (output_index, s') = alloc_index s in
      let (id, s'') = draw_id "rs" s' in
      pushed (item_added output_index (reasoning_started id) ∷ [])
        (record s'' { reasoning_item = some (record { id = id; output_index = output_index }) })

  unfoldable pub ensure_reasoning_open : ResponsesEmitter → Emitted ResponsesEmitter
  ensure_reasoning_open s = elim s.reasoning_item [ some _ ↦ nothing s | none ↦ open_reasoning s ]

  abbrev pub open_message : ResponsesEmitter → Emitted ResponsesEmitter
  open_message s =
      let (output_index, s') = alloc_index s in
      let (id, s'') = draw_id "msg" s' in
      pushed (item_added output_index (message_started id) ∷ part_added id output_index ∷ [])
        (record s'' { message_item = some (record { id = id; output_index = output_index }) })

  unfoldable pub ensure_message_open : ResponsesEmitter → Emitted ResponsesEmitter
  ensure_message_open s = elim s.message_item [ some _ ↦ nothing s | none ↦ open_message s ]

  -- The rest of the branch for the start of a tool call.
  unfoldable pub start_tool : ℕ → String → String → ResponsesEmitter → Emitted ResponsesEmitter
  start_tool index call_id name s =
      let (output_index, s') = alloc_index s in
      let (id, s'') = draw_id "fc" s' in
      pushed (item_added output_index (call_json id call_id name "" "in_progress") ∷ [])
        (record s'' {
          tools =
              IndexMap.insert index
                (record {
                  id = id;
                  output_index = output_index;
                  call_id = call_id;
                  name = name;
                  args = "";
                })
                s''.tools;
        })

  -- The `match` of `on_event`.
  unfoldable pub handle : CanonicalEvent → ResponsesEmitter → Emitted ResponsesEmitter
  unfolding ensure_reasoning_open close_reasoning ensure_message_open close_message push_reasoning
      push_text start_tool tool_args tool_done close_open_tools finish_response completed_response
  handle (created response_id model) s =
      let s' = record s { response_id = response_id; model = model } in
      pushed (created_frame s' ∷ []) s'
  handle (reasoning_delta text) s = (ensure_reasoning_open >> push_reasoning text) s
  handle (text_delta text) s = (close_reasoning >> ensure_message_open >> push_text text) s
  handle (tool_call_start index call_id name) s =
      (close_reasoning >> close_message >> start_tool index call_id name) s
  handle (tool_call_args_delta index delta) s = tool_args index delta s
  handle (tool_call_done index) s = tool_done index s
  handle (usage counts) s = nothing (record s { usage = some counts })
  handle completed s = (close_reasoning >> close_message >> close_open_tools >> finish_response) s
  handle (error message status) s = pushed (failed_frame s.response_id message status ∷ []) s

  unfoldable pub on_event : CanonicalEvent → ResponsesEmitter → Emitted ResponsesEmitter
  unfolding handle number_frames
  on_event ev s = numbered (handle ev s)

  abbrev pub responses : CanonicalEmitter ResponsesEmitter
  responses = record { emit = on_event }
