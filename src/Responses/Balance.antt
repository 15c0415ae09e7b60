-- ===== src/Responses/Balance.antt =====
-- How each method of `ResponsesEmitter` (src/wire/responses.rs) changes the open output items.
use ai_api_bridge.Prelude.{
  ℕ, ◌+◌, ◌≡◌, refl, none, some, List, [], ◌∷◌, String, Option, Option-cases, inl, inr, arith,
}
use ai_api_bridge.Wire.{SseFrame, Emitted, ◌>>◌}
use ai_api_bridge.Wire.Counting
use ai_api_bridge.Wire.Counting.{here, hits}
use ai_api_bridge.Wire.IndexMap
use ai_api_bridge.Wire.IndexMap.{IndexMap}
use ai_api_bridge.Responses.Frames.{OpenItem, ToolItem, ResponsesEmitter}
use ai_api_bridge.Responses.Emitter.{
  ensure_reasoning_open, close_reasoning, ensure_message_open, close_message, push_reasoning,
  push_text, start_tool, tool_args, push_args, finish_tool, tool_done, finish_all, close_open_tools,
  finish_response, draw_id, alloc_index,
}

-- How often frames add and finish the output item `i`.
abbrev pub added : ℕ → List SseFrame → ℕ
added = hits "response.output_item.added" "output_index"

abbrev pub done : ℕ → List SseFrame → ℕ
done = hits "response.output_item.done" "output_index"

abbrev pub item_at : ℕ → Option OpenItem → ℕ
item_at i none = 0
item_at i (some item) = here i (some item.output_index)

abbrev pub tool_at : ℕ → ToolItem → ℕ
tool_at i t = here i (some t.output_index)

-- How often the emitter holds the output item `i` open.
abbrev pub open_items : ℕ → ResponsesEmitter → ℕ
open_items i s =
    item_at i s.reasoning_item + item_at i s.message_item + IndexMap.total (tool_at i) s.tools

-- What is added is finished or stays open.
abbrev pub Balances : ℕ → ResponsesEmitter → Emitted ResponsesEmitter → Type 0
Balances =
    Counting.Balances "response.output_item.added" "response.output_item.done" "output_index"
      open_items

pub Balances->> :
    (i : ℕ) (m k : ResponsesEmitter → Emitted ResponsesEmitter) (s : ResponsesEmitter)
    → Balances i s (m s)
    → Balances i (m s).state (k (m s).state)
    → Balances i s ((m >> k) s)
Balances->> =
    Counting.Balances->> "response.output_item.added" "response.output_item.done" "output_index"
      open_items

pub Balances-close_reasoning : (i : ℕ) (s : ResponsesEmitter) → Balances i s (close_reasoning s)
unfolding close_reasoning
Balances-close_reasoning i s = ground arith

pub Balances-close_message : (i : ℕ) (s : ResponsesEmitter) → Balances i s (close_message s)
unfolding close_message
Balances-close_message i s = ground arith

pub Balances-finish_response : (i : ℕ) (s : ResponsesEmitter) → Balances i s (finish_response s)
unfolding finish_response
Balances-finish_response i s = ground arith

pub Balances-push_reasoning :
    (i : ℕ) (text : String) (s : ResponsesEmitter) → Balances i s (push_reasoning text s)
unfolding push_reasoning
Balances-push_reasoning i text s = ground arith

pub Balances-push_text :
    (i : ℕ) (text : String) (s : ResponsesEmitter) → Balances i s (push_text text s)
unfolding push_text
Balances-push_text i text s = ground arith

pub Balances-tool_args :
    (i index : ℕ) (delta : String) (s : ResponsesEmitter) → Balances i s (tool_args index delta s)
unfolding tool_args
Balances-tool_args i index delta s =
    ground (arith, IndexMap.total-update (tool_at i) index (push_args delta) s.tools (λ t. refl))

pub Balances-tool_done : (i index : ℕ) (s : ResponsesEmitter) → Balances i s (tool_done index s)
unfolding tool_done
Balances-tool_done i index s = elim (Option-cases (IndexMap.find index s.tools)) [
  | inl absent ↦ ground arith
  | inr (t, e) ↦ ground (arith, IndexMap.total-remove (tool_at i) index t s.tools e)
]

-- What `finish_all` finishes are the items of its list.
pub finish_all-done :
    (i : ℕ) (tools : IndexMap ToolItem) (s : ResponsesEmitter)
    → let a = finish_all (IndexMap.values tools) s in
      (done i a.frames ≡ IndexMap.total (tool_at i) tools)
      × (added i a.frames ≡ 0)
      × (open_items i a.state ≡ open_items i s)
unfolding finish_all
finish_all-done i [] s = (refl, refl, refl)
finish_all-done i ((j, t) ∷ tools) s =
    ground (arith, finish_all-done i tools (finish_tool t s).state)

pub Balances-close_open_tools : (i : ℕ) (s : ResponsesEmitter) → Balances i s (close_open_tools s)
unfolding close_open_tools
Balances-close_open_tools i s = omega (arith, finish_all-done i s.tools (record s { tools = [] }))

module _ (uuid : ℕ → String) where
  pub Balances-ensure_reasoning_open :
      (i : ℕ) (s : ResponsesEmitter) → Balances i s (ensure_reasoning_open uuid s)
  unfolding ensure_reasoning_open
  Balances-ensure_reasoning_open i s = ground arith

  pub Balances-ensure_message_open :
      (i : ℕ) (s : ResponsesEmitter) → Balances i s (ensure_message_open uuid s)
  unfolding ensure_message_open
  Balances-ensure_message_open i s = ground arith

  pub Balances-start_tool :
      (i index : ℕ) (call_id name : String) (s : ResponsesEmitter)
      → IndexMap.find index s.tools ≡ none
      → Balances i s (start_tool uuid index call_id name s)
  unfolding start_tool
  Balances-start_tool i index call_id name s fresh =
      let t : ToolItem = record {
        id = (draw_id uuid "fc" (alloc_index s).1).0;
        output_index = s.next_output_index;
        call_id = call_id;
        name = name;
        args = "";
      } in
      omega (arith, IndexMap.total-insert (tool_at i) index t s.tools fresh)
