-- ===== src/Examples/Served.antt =====
-- A run of a whole stream: network, decoder, parser and emitters.
use ai_api_bridge.Prelude.{ℕ, String, ◌≡◌, ◌⊎◌, true, false, Option, none, some, List, [], ◌∷◌}
use ai_api_bridge.Json.{Value, str, array, object}
use ai_api_bridge.Sse.{Bytes, Text}
use ai_api_bridge.Wire.{emit_all}
use ai_api_bridge.Wire.Starts.{StartsOnce}
use ai_api_bridge.Responses.Frames.{new as no_items}
use ai_api_bridge.Responses.Emitter as Responses
use ai_api_bridge.Responses.Balance.{added, done}
use ai_api_bridge.Anthropic.Frames.{new as no_blocks}
use ai_api_bridge.Anthropic.Emitter as Anthropic
use ai_api_bridge.Anthropic.Balance.{starts, stops}
use ai_api_bridge.Server.Stream.{Chunk, bytes, run_stream}
use ai_api_bridge.Server.Stream.Laws.{EndsInError, run_stream-StartsOnce, run_stream_balanced}
use ai_api_bridge.Server.Stream.Panics.{emitters_never_panic}
use ai_api_bridge.Canonical.{tool_call_args_delta, completed}
use ai_api_bridge.Examples.Metering.{whole_numbers}

abbrev ascii : Bytes → Text
ascii b = b

-- Every data line is read as the same text delta.
abbrev a_delta : Text → Option Value
a_delta t = some (
    object
      (("choices", array (object (("delta", object (("content", str "hi") ∷ [])) ∷ []) ∷ [])) ∷ []))

abbrev unparsed : String → Option Value
unparsed s = none

abbrev one_uuid : ℕ → String
one_uuid n = "u"

-- `data:{}` cut in two, and the end mark.
abbrev network : List Chunk
network =
    bytes (b'd' ∷ b'a' ∷ b't' ∷ b'a' ∷ b':' ∷ b'{' ∷ [])
    ∷ bytes (b'}' ∷ b'\n' ∷ b'\n' ∷ [])
    ∷ bytes (
        b'd' ∷ b'a' ∷ b't' ∷ b'a' ∷ b':' ∷ b'[' ∷ b'D' ∷ b'O' ∷ b'N' ∷ b'E' ∷ b']' ∷ b'\n' ∷ b'\n'
        ∷ [])
    ∷ []

run_stream-StartsOnce_example :
    StartsOnce [] (run_stream ascii a_delta whole_numbers true "r" network).0
run_stream-StartsOnce_example = run_stream-StartsOnce ascii a_delta whole_numbers true "r" network

run_stream_balanced_example :
    let evs = (run_stream ascii a_delta whole_numbers true "r" network).0 in
    let r = emit_all (Responses.on_event one_uuid) evs no_items in
    let a = emit_all (Anthropic.on_event unparsed) evs no_blocks in
    EndsInError evs
    ⊎ ((added 0 r.frames ≡ done 0 r.frames) × (starts 0 a.frames ≡ stops 0 a.frames))
run_stream_balanced_example =
    run_stream_balanced ascii a_delta whole_numbers one_uuid unparsed true "r" network 0

-- Arguments of a call that was never started.
emitters_never_panic_example :
    let evs = tool_call_args_delta 3 "x" ∷ completed ∷ [] in
    ((emit_all (Responses.on_event one_uuid) evs no_items).panicked ≡ false)
    × ((emit_all (Anthropic.on_event unparsed) evs no_blocks).panicked ≡ false)
emitters_never_panic_example =
    emitters_never_panic one_uuid unparsed (tool_call_args_delta 3 "x" ∷ completed ∷ []) no_items
      no_blocks
