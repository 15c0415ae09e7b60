-- ===== src/Responses/Final.antt =====
-- What src/wire/responses.rs gives at the end: the output of the final response.
use ai_api_bridge.Prelude.{
  ℕ, ◌≡◌, refl, sym, ap, ◌∙◌, some, List, [], ◌∷◌, ◌++◌, String, append_assoc, append-nil, arith,
}
use ai_api_bridge.Json.{array, get}
use ai_api_bridge.Canonical.{
  CanonicalEvent, created, reasoning_delta, text_delta, tool_call_start, tool_call_args_delta,
  tool_call_done, usage, completed, error,
}
use ai_api_bridge.Wire.{Emitted, ◌>>◌, emit_all}
use ai_api_bridge.Wire.IndexMap
use ai_api_bridge.Responses.Frames.{ToolItem, ResponsesEmitter, new}
use ai_api_bridge.Responses.Emitter.{
  ensure_reasoning_open, close_reasoning, ensure_message_open, close_message, push_reasoning,
  push_text, start_tool, tool_args, finish_tool, tool_done, finish_all, close_open_tools,
  finish_response, completed_response, handle, on_event,
}
use ai_api_bridge.Responses.Numbers.{done_items, done_items-append, done_items-number_frames}

-- The items that the frames finish are added to those that the emitter keeps, in order.
abbrev Keeps : ResponsesEmitter → Emitted ResponsesEmitter → Type 0
Keeps s a = a.state.final_items ≡ s.final_items ++ done_items a.frames

Keeps->> :
    (m k : ResponsesEmitter → Emitted ResponsesEmitter) (s : ResponsesEmitter)
    → Keeps s (m s)
    → Keeps (m s).state (k (m s).state)
    → Keeps s ((m >> k) s)
Keeps->> m k s p q =
    let fs = (m s).frames in
    let gs = (k (m s).state).frames in
    q
    ∙ (ap (λ l. l ++ done_items gs) p
        ∙ (append_assoc s.final_items (done_items fs) (done_items gs)
            ∙ sym (ap (λ l. s.final_items ++ l) (done_items-append fs gs))))

Keeps-close_reasoning : (s : ResponsesEmitter) → Keeps s (close_reasoning s)
unfolding close_reasoning
Keeps-close_reasoning s = ground (arith, append-nil s.final_items)

Keeps-close_message : (s : ResponsesEmitter) → Keeps s (close_message s)
unfolding close_message
Keeps-close_message s = ground (arith, append-nil s.final_items)

Keeps-finish_response : (s : ResponsesEmitter) → Keeps s (finish_response s)
unfolding finish_response
Keeps-finish_response s = ground (arith, append-nil s.final_items)

Keeps-push_reasoning : (text : String) (s : ResponsesEmitter) → Keeps s (push_reasoning text s)
unfolding push_reasoning
Keeps-push_reasoning text s = ground (arith, append-nil s.final_items)

Keeps-push_text : (text : String) (s : ResponsesEmitter) → Keeps s (push_text text s)
unfolding push_text
Keeps-push_text text s = ground (arith, append-nil s.final_items)

Keeps-tool_args :
    (index : ℕ) (delta : String) (s : ResponsesEmitter) → Keeps s (tool_args index delta s)
unfolding tool_args
Keeps-tool_args index delta s = ground (arith, append-nil s.final_items)

Keeps-tool_done : (index : ℕ) (s : ResponsesEmitter) → Keeps s (tool_done index s)
unfolding tool_done
Keeps-tool_done index s = ground (arith, append-nil s.final_items)

Keeps-finish_all : (ts : List ToolItem) (s : ResponsesEmitter) → Keeps s (finish_all ts s)
unfolding finish_all
Keeps-finish_all [] s = sym (append-nil s.final_items)
Keeps-finish_all (t ∷ ts) s =
    Keeps->> (finish_tool t) (finish_all ts) s refl (Keeps-finish_all ts (finish_tool t s).state)

Keeps-close_open_tools : (s : ResponsesEmitter) → Keeps s (close_open_tools s)
unfolding close_open_tools
Keeps-close_open_tools s = Keeps-finish_all (IndexMap.values s.tools) (record s { tools = [] })

module _ (uuid : ℕ → String) where
  Keeps-ensure_reasoning_open : (s : ResponsesEmitter) → Keeps s (ensure_reasoning_open uuid s)
  unfolding ensure_reasoning_open
  Keeps-ensure_reasoning_open s = ground (arith, append-nil s.final_items)

  Keeps-ensure_message_open : (s : ResponsesEmitter) → Keeps s (ensure_message_open uuid s)
  unfolding ensure_message_open
  Keeps-ensure_message_open s = ground (arith, append-nil s.final_items)

  Keeps-start_tool :
      (index : ℕ) (id name : String) (s : ResponsesEmitter)
      → Keeps s (start_tool uuid index id name s)
  unfolding start_tool
  Keeps-start_tool index id name s = sym (append-nil s.final_items)

  Keeps-handle : (ev : CanonicalEvent) (s : ResponsesEmitter) → Keeps s (handle uuid ev s)
  unfolding handle
  Keeps-handle (created id model) s = sym (append-nil s.final_items)
  Keeps-handle (reasoning_delta text) s =
      Keeps->> (ensure_reasoning_open uuid) (push_reasoning text) s (Keeps-ensure_reasoning_open s)
        (Keeps-push_reasoning text (ensure_reasoning_open uuid s).state)
  Keeps-handle (text_delta text) s =
      Keeps->> (close_reasoning >> ensure_message_open uuid) (push_text text) s
        (Keeps->> close_reasoning (ensure_message_open uuid) s (Keeps-close_reasoning s)
          (Keeps-ensure_message_open (close_reasoning s).state))
        (Keeps-push_text text ((close_reasoning >> ensure_message_open uuid) s).state)
  Keeps-handle (tool_call_start index id name) s =
      Keeps->> (close_reasoning >> close_message) (start_tool uuid index id name) s
        (Keeps->> close_reasoning close_message s (Keeps-close_reasoning s)
          (Keeps-close_message (close_reasoning s).state))
        (Keeps-start_tool index id name ((close_reasoning >> close_message) s).state)
  Keeps-handle (tool_call_args_delta index delta) s = Keeps-tool_args index delta s
  Keeps-handle (tool_call_done index) s = Keeps-tool_done index s
  Keeps-handle (usage counts) s = sym (append-nil s.final_items)
  Keeps-handle completed s =
      Keeps->> (close_reasoning >> close_message >> close_open_tools) finish_response s
        (Keeps->> (close_reasoning >> close_message) close_open_tools s
          (Keeps->> close_reasoning close_message s (Keeps-close_reasoning s)
            (Keeps-close_message (close_reasoning s).state))
          (Keeps-close_open_tools ((close_reasoning >> close_message) s).state))
        (Keeps-finish_response ((close_reasoning >> close_message >> close_open_tools) s).state)
  Keeps-handle (error message status) s = sym (append-nil s.final_items)

  Keeps-on_event : (ev : CanonicalEvent) (s : ResponsesEmitter) → Keeps s (on_event uuid ev s)
  unfolding on_event
  Keeps-on_event ev s =
      let a = handle uuid ev s in
      Keeps-handle ev s
      ∙ sym (ap (λ l. s.final_items ++ l) (done_items-number_frames a.state.seq a.frames))

  Keeps-emit_all :
      (evs : List CanonicalEvent) (s : ResponsesEmitter) → Keeps s (emit_all (on_event uuid) evs s)
  unfolding emit_all
  Keeps-emit_all [] s = sym (append-nil s.final_items)
  Keeps-emit_all (ev ∷ evs) s =
      Keeps->> (on_event uuid ev) (emit_all (on_event uuid) evs) s (Keeps-on_event ev s)
        (Keeps-emit_all evs (on_event uuid ev s).state)

  -- The output of the final response is what the stream's frames have finished, item by item and in
  -- their order.
  pub final_response_output :
      (evs : List CanonicalEvent)
      → let a = emit_all (on_event uuid) evs new in
        get "output" (completed_response a.state) ≡ some (array (done_items a.frames))
  unfolding completed_response
  final_response_output evs = ap (λ l. some (array l)) (Keeps-emit_all evs new)
