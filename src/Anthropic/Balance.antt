-- ===== src/Anthropic/Balance.antt =====
-- How each method of `AnthropicEmitter` (src/wire/anthropic.rs) changes the open blocks.
use ai_api_bridge.Prelude.{
  ℕ, ◌+◌, ◌≡◌, refl, none, some, List, [], ◌∷◌, String, nat_eq, arith, Option, Option-cases, inl,
  inr,
}
use ai_api_bridge.Json.{Value}
use ai_api_bridge.Wire.{SseFrame, Emitted, ◌>>◌}
use ai_api_bridge.Wire.Counting
use ai_api_bridge.Wire.Counting.{here, hits, hits-append}
use ai_api_bridge.Wire.IndexMap
use ai_api_bridge.Anthropic.Frames.{AnthropicEmitter, ToolBlock}
use ai_api_bridge.Anthropic.Emitter.{
  start, ensure_thinking_open, close_thinking, ensure_text_open, close_text, push_thinking,
  push_text, start_tool, tool_args, finish_tool, tool_done, finish_all, close_open_tools,
  finish_message, push_args,
}

-- How often frames start and stop the block `i`.
abbrev pub starts : ℕ → List SseFrame → ℕ
starts = hits "content_block_start" "index"

abbrev pub stops : ℕ → List SseFrame → ℕ
stops = hits "content_block_stop" "index"

abbrev pub tool_at : ℕ → ToolBlock → ℕ
tool_at i tb = here i (some tb.index)

-- How often the emitter holds the block `i` open.
abbrev pub open_blocks : ℕ → AnthropicEmitter → ℕ
open_blocks i s = here i s.thinking_index + here i s.text_index + IndexMap.total (tool_at i) s.tools

-- What is started is stopped or stays open.
abbrev pub Balances : ℕ → AnthropicEmitter → Emitted AnthropicEmitter → Type 0
Balances = Counting.Balances "content_block_start" "content_block_stop" "index" open_blocks

pub Balances->> :
    (i : ℕ) (m k : AnthropicEmitter → Emitted AnthropicEmitter) (s : AnthropicEmitter)
    → Balances i s (m s)
    → Balances i (m s).state (k (m s).state)
    → Balances i s ((m >> k) s)
Balances->> = Counting.Balances->> "content_block_start" "content_block_stop" "index" open_blocks

pub Balances-start : (i : ℕ) (s : AnthropicEmitter) → Balances i s (start s)
unfolding start
Balances-start i s = ground arith

pub Balances-ensure_thinking_open :
    (i : ℕ) (s : AnthropicEmitter) → Balances i s (ensure_thinking_open s)
unfolding ensure_thinking_open
Balances-ensure_thinking_open i s = ground arith

pub Balances-close_thinking : (i : ℕ) (s : AnthropicEmitter) → Balances i s (close_thinking s)
unfolding close_thinking
Balances-close_thinking i s = ground arith

pub Balances-ensure_text_open : (i : ℕ) (s : AnthropicEmitter) → Balances i s (ensure_text_open s)
unfolding ensure_text_open
Balances-ensure_text_open i s = ground arith

pub Balances-close_text : (i : ℕ) (s : AnthropicEmitter) → Balances i s (close_text s)
unfolding close_text
Balances-close_text i s = ground arith

pub Balances-finish_message : (i : ℕ) (s : AnthropicEmitter) → Balances i s (finish_message s)
unfolding finish_message
Balances-finish_message i s = ground arith

pub Balances-push_thinking :
    (i : ℕ) (text : String) (s : AnthropicEmitter) → Balances i s (push_thinking text s)
unfolding push_thinking
Balances-push_thinking i text s = ground arith

pub Balances-push_text :
    (i : ℕ) (text : String) (s : AnthropicEmitter) → Balances i s (push_text text s)
unfolding push_text
Balances-push_text i text s = ground arith

pub Balances-start_tool :
    (i index : ℕ) (call_id name : String) (s : AnthropicEmitter)
    → IndexMap.find index s.tools ≡ none
    → Balances i s (start_tool index call_id name s)
unfolding start_tool
Balances-start_tool i index call_id name s fresh =
    let tb : ToolBlock = record { index = s.next_index; id = call_id; name = name; args = "" } in
    omega (arith, IndexMap.total-insert (tool_at i) index tb s.tools fresh)

pub Balances-tool_args :
    (i index : ℕ) (delta : String) (s : AnthropicEmitter) → Balances i s (tool_args index delta s)
unfolding tool_args
Balances-tool_args i index delta s =
    ground (arith, IndexMap.total-update (tool_at i) index (push_args delta) s.tools (λ tb. refl))

module _ (from_str : String → Option Value) where
  pub Balances-tool_done :
      (i index : ℕ) (s : AnthropicEmitter) → Balances i s (tool_done from_str index s)
  unfolding tool_done
  Balances-tool_done i index s = elim (Option-cases (IndexMap.find index s.tools)) [
    | inl absent ↦ ground arith
    | inr (tb, e) ↦ ground (arith, IndexMap.total-remove (tool_at i) index tb s.tools e)
  ]

  -- What `finish_all` stops are the blocks of its list.
  pub finish_all-stops :
      (i : ℕ) (tools : IndexMap.IndexMap ToolBlock) (s : AnthropicEmitter)
      → let a = finish_all from_str (IndexMap.values tools) s in
        (stops i a.frames ≡ IndexMap.total (tool_at i) tools)
        × (starts i a.frames ≡ 0)
        × (open_blocks i a.state ≡ open_blocks i s)
  unfolding finish_all
  finish_all-stops i [] s = (refl, refl, refl)
  finish_all-stops i ((j, tb) ∷ tools) s =
      ground (arith, finish_all-stops i tools (finish_tool from_str tb s).state)

  pub Balances-close_open_tools :
      (i : ℕ) (s : AnthropicEmitter) → Balances i s (close_open_tools from_str s)
  unfolding close_open_tools
  Balances-close_open_tools i s =
      omega (arith, finish_all-stops i s.tools (record s { tools = [] }))
