-- ===== src/Server/Handlers.antt =====
-- The request handlers of src/server.rs, as the composition of authorization, request parser,
-- router, failover, stream and usage meter. A stream is run to its end.
pub mod Laws
use ai_api_bridge.Prelude.{
  ℕ, String, Bool, true, false, Option, none, some, List, [], ◌∷◌, map, is_empty, is_some,
  if◌then◌else◌, push_str, and_then, ℤ,
}
use ai_api_bridge.Json.{Value, Number, get}
use ai_api_bridge.Error.{BridgeError, Result, ok, err, ◌>>=◌}
use ai_api_bridge.Canonical.{Float32, CanonicalRequest, CanonicalEvent}
use ai_api_bridge.Config.{Float64, Config, UsageKind, ModelPrice}
use ai_api_bridge.Sse.{Bytes, Text}
use ai_api_bridge.Wire.{SseFrame, emit_all}
use ai_api_bridge.Router.{Resolved, resolve_candidates}
use ai_api_bridge.Usage.{
  Floats, Ledger, exhausted_set, usage_kinds, record_amounts, parse_cost, tokens_from_usage,
}
use ai_api_bridge.Chat.Inbound as Chat
use ai_api_bridge.Chat.Stream.{completion_to_events}
use ai_api_bridge.Responses.Request as ResponsesRequest
use ai_api_bridge.Responses.Frames.{new as no_items}
use ai_api_bridge.Responses.Emitter as Responses
use ai_api_bridge.Anthropic.Request as AnthropicRequest
use ai_api_bridge.Anthropic.Frames.{new as no_blocks, final_message}
use ai_api_bridge.Anthropic.Emitter as Anthropic
use ai_api_bridge.Server.Auth.{check_auth}
use ai_api_bridge.Server.State.{AppState}
use ai_api_bridge.Server.Stream.{Chunk, Picked, run_stream}
use ai_api_bridge.Server.Failover.{Watched, Served, call_upstream}

-- What the handlers take from outside: conversions of floats and JSON values, the clock, random ids,
-- and the answers of the network.
pub record Host : Type 0 where
  pub to_text : Value → String
  pub as_f32 : Number → Float32
  pub json_f32 : Float32 → Value
  pub ge : Float64 → Float64 → Bool
  pub floats : Floats
  pub now : ℤ
  pub uuid : ℕ → String
  pub from_utf8_lossy : Bytes → Text
  pub from_str : Text → Option Value
  pub parse_json : String → Option Value
  pub post_stream : ℕ → Resolved → Value → Result (List Chunk)
  pub post_json : ℕ → Resolved → Value → Result Value

-- `Sse` frames, a JSON object, or the upstream's bytes.
pub data Response : Type 0 where
  frames : List SseFrame → Response
  whole : Value → Response
  forwarded : List Chunk → Response

-- With the state that is left and the re-probes that were started.
pub record Outcome : Type 0 where
  pub response : Result Response
  pub state : AppState
  pub probes : List String

-- What differs between the two formats that are translated.
pub record Format : Type 0 where
  pub parse_request : Value → Result CanonicalRequest
  pub id_prefix : String
  pub stream_frames : List CanonicalEvent → List SseFrame
  pub whole_answer : List CanonicalEvent → Value

-- `CostRecorder`, but for the meter.
abbrev pub CostRecorder : Type 0
CostRecorder = String × List (UsageKind × Option ModelPrice)

abbrev pub recorder_of : String → List (UsageKind × Option ModelPrice) → Option CostRecorder
recorder_of provider kinds = if is_empty kinds then none else some (provider, kinds)

abbrev pub refused : BridgeError → AppState → Outcome
refused e s = record { response = err e; state = s; probes = [] }

abbrev pub watched : AppState → Watched
watched s = record { status = s.status; probes = [] }

abbrev pub ledger_of : AppState → Ledger
ledger_of s = record { meter = s.usage; database = s.database }

-- The state after a failover, with the charges.
abbrev pub left : AppState → Watched → Ledger → AppState
left s w ledger = record s { status = w.status; usage = ledger.meter; database = ledger.database }

module _ (host : Host) where
  abbrev pub responses : Format
  responses = record {
    parse_request = ResponsesRequest.parse_request host.to_text host.as_f32;
    id_prefix = "resp_";
    stream_frames = λ evs. (emit_all (Responses.on_event host.uuid) evs no_items).frames;
    whole_answer = λ evs.
        Responses.completed_response (emit_all (Responses.on_event host.uuid) evs no_items).state;
  }

  abbrev pub anthropic : Format
  anthropic = record {
    parse_request = AnthropicRequest.parse_request host.to_text host.as_f32;
    id_prefix = "msg_";
    stream_frames = λ evs. (emit_all (Anthropic.on_event host.parse_json) evs no_blocks).frames;
    whole_answer =
        λ evs. final_message (emit_all (Anthropic.on_event host.parse_json) evs no_blocks).state;
  }

  -- `None` when tracking is off or the provider has no usage specs.
  unfoldable pub cost_recorder : AppState → String → String → Option CostRecorder
  unfolding usage_kinds
  cost_recorder s provider model =
      if s.usage_on
      then recorder_of provider (usage_kinds host.floats s.config provider model)
      else none

  abbrev pub record_with :
      Option CostRecorder → Option Float64 → Option ℕ → Option ℕ → Ledger → Ledger
  record_with none cost pt ct ledger = ledger
  record_with (some (provider, kinds)) cost pt ct ledger =
      record_amounts host.floats provider kinds cost pt ct host.now ledger

  -- The same guards as for a stream.
  unfoldable pub record_nonstream : AppState → String → String → Value → Ledger
  unfolding cost_recorder record_amounts parse_cost
  record_nonstream s provider model resp =
      let (pt, ct) = tokens_from_usage (get "usage" resp) in
      record_with (cost_recorder s provider model)
        (and_then (get "cost" resp) (parse_cost host.floats)) pt ct (ledger_of s)

  -- Usage demotes providers only when it is tracked.
  abbrev pub exhausted_now : AppState → List String
  exhausted_now s =
      if s.usage_on then exhausted_set host.floats s.usage s.config.providers host.now else []

  unfoldable pub candidates : AppState → CanonicalRequest → Result (List Resolved)
  unfolding resolve_candidates exhausted_set
  candidates s req = resolve_candidates host.ge s.status (exhausted_now s) s.config req.model

  abbrev pub has_pool : AppState → Bool
  has_pool s = is_some s.database

  module _ (format : Format) where
    -- The frames of a stream; the recorder runs when it ends.
    abbrev pub stream_outcome : AppState → Result (Served (List Chunk)) × Watched → Outcome
    stream_outcome s (err e, w) = record {
      response = err e;
      state = left s w (ledger_of s);
      probes = w.probes;
    }
    stream_outcome s (ok (provider, model, chunks), w) =
        let recorder = cost_recorder s provider model in
        let (evs, picked) =
          run_stream host.from_utf8_lossy host.from_str host.floats (is_some recorder)
            (push_str format.id_prefix (host.uuid 0)) chunks in
        record {
          response = ok (frames (format.stream_frames evs));
          state = left s w (record_with recorder picked.cost picked.ptok picked.ctok (ledger_of s));
          probes = w.probes;
        }

    abbrev pub whole_outcome : AppState → Result (Served Value) × Watched → Outcome
    whole_outcome s (err e, w) = record {
      response = err e;
      state = left s w (ledger_of s);
      probes = w.probes;
    }
    whole_outcome s (ok (provider, model, resp), w) =
        let evs = completion_to_events resp (push_str format.id_prefix (host.uuid 0)) in
        record {
          response = ok (whole (format.whole_answer evs));
          state = left s w (record_nonstream s provider model resp);
          probes = w.probes;
        }

    abbrev pub serve : AppState → Result (CanonicalRequest × List Resolved) → Outcome
    serve s (err e) = refused e s
    serve s (ok (req, cs)) =
        if req.stream
        then stream_outcome s
            (call_upstream host.json_f32 host.post_stream (has_pool s) req cs (watched s))
        else whole_outcome s
            (call_upstream host.json_f32 host.post_json (has_pool s) req cs (watched s))

    -- `responses_handler` and `messages_handler`
    unfoldable pub translating_handler : Option String → Option String → Value → AppState → Outcome
    unfolding candidates call_upstream run_stream record_nonstream completion_to_events
    translating_handler authorization x_api_key body s = serve s (do
      _ ← check_auth s.config.auth_token authorization x_api_key
      req ← format.parse_request body
      cs ← candidates s req
      ok (req, cs))

  -- Streams are forwarded without a recorder.
  abbrev pub chat_stream : AppState → Result (Served (List Chunk)) × Watched → Outcome
  chat_stream s (err e, w) = record {
    response = err e;
    state = left s w (ledger_of s);
    probes = w.probes;
  }
  chat_stream s (ok (provider, model, chunks), w) = record {
    response = ok (forwarded chunks);
    state = left s w (ledger_of s);
    probes = w.probes;
  }

  abbrev pub chat_whole : AppState → Result (Served Value) × Watched → Outcome
  chat_whole s (err e, w) = record {
    response = err e;
    state = left s w (ledger_of s);
    probes = w.probes;
  }
  chat_whole s (ok (provider, model, resp), w) = record {
    response = ok (whole resp);
    state = left s w (record_nonstream s provider model resp);
    probes = w.probes;
  }

  abbrev pub serve_chat : AppState → Result (CanonicalRequest × List Resolved) → Outcome
  serve_chat s (err e) = refused e s
  serve_chat s (ok (req, cs)) =
      if req.stream
      then chat_stream s
          (call_upstream host.json_f32 host.post_stream (has_pool s) req cs (watched s))
      else chat_whole s (call_upstream host.json_f32 host.post_json (has_pool s) req cs (watched s))

  unfoldable pub chat_handler : Option String → Option String → Value → AppState → Outcome
  unfolding candidates call_upstream record_nonstream
  chat_handler authorization x_api_key body s = serve_chat s (do
    _ ← check_auth s.config.auth_token authorization x_api_key
    req ← Chat.parse_request host.as_f32 body
    cs ← candidates s req
    ok (req, cs))
