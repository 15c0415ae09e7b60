-- ===== src/Canonical.antt =====
-- The provider-neutral request and event model (src/canonical.rs).
pub mod Deeds
use ai_api_bridge.Prelude.{
  ℕ, String, Bool, Option, none, some, List, ◌==◌, string_eq, if◌then◌else◌,
}
use ai_api_bridge.Json.{Value}

pub record ToolCall : Type 0 where
  pub call_id : String
  pub name : String
  pub arguments : String

pub data Message : Type 0 where
  user : String → Message
  -- text, reasoning_content, tool_calls
  assistant : Option String → Option String → List ToolCall → Message
  -- call_id, output
  tool : String → String → Message

pub record ToolDef : Type 0 where
  pub name : String
  pub description : Option String
  pub parameters : Value

pub data ToolChoice : Type 0 where
  auto none_ required : ToolChoice
  function : String → ToolChoice

pub data ReasoningEffort : Type 0 where
  minimal low medium high xhigh : ReasoningEffort

-- An `f32`, by its bit pattern.
pub data Float32 : Type 0 where
  bits : ℕ → Float32

pub record CanonicalRequest : Type 0 where
  pub model : String
  pub system : Option String
  pub messages : List Message
  pub tools : List ToolDef
  pub tool_choice : ToolChoice
  pub temperature : Option Float32
  pub top_p : Option Float32
  pub max_output_tokens : Option ℕ
  pub reasoning_effort : Option ReasoningEffort
  pub parallel_tool_calls : Option Bool
  pub stream : Bool

-- The counts of a usage event.
pub record UsageCounts : Type 0 where
  pub input_tokens : ℕ
  pub output_tokens : ℕ
  pub total_tokens : ℕ
  pub cached_input_tokens : ℕ
  pub reasoning_tokens : ℕ

pub data CanonicalEvent : Type 0 where
  -- response_id, model
  created : String → String → CanonicalEvent
  reasoning_delta : String → CanonicalEvent
  text_delta : String → CanonicalEvent
  -- index, call_id, name
  tool_call_start : ℕ → String → String → CanonicalEvent
  -- index, delta
  tool_call_args_delta : ℕ → String → CanonicalEvent
  tool_call_done : ℕ → CanonicalEvent
  usage : UsageCounts → CanonicalEvent
  completed : CanonicalEvent
  -- message, status
  error : String → ℕ → CanonicalEvent

unfoldable pub as_str : ReasoningEffort → String
as_str minimal = "minimal"
as_str low = "low"
as_str medium = "medium"
as_str high = "high"
as_str xhigh = "xhigh"

unfoldable pub from_str_opt : String → Option ReasoningEffort
from_str_opt s =
    if s == "minimal"
    then some minimal
    else if s == "low"
    then some low
    else if s == "medium"
    then some medium
    else if s == "high"
    then some high
    else if s == "xhigh"
    then some xhigh
    else none
