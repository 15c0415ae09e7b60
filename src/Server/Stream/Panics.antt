-- ===== src/Server/Stream/Panics.antt =====
-- The unwraps of the emitters that src/server.rs drives.
use ai_api_bridge.Prelude.{ℕ, String, Option, List, false, ◌≡◌}
use ai_api_bridge.Json.{Value}
use ai_api_bridge.Canonical.{CanonicalEvent}
use ai_api_bridge.Wire.{emit_all}
use ai_api_bridge.Responses.Frames.{ResponsesEmitter}
use ai_api_bridge.Responses.Emitter as Responses
use ai_api_bridge.Responses.Sequence.{responses_never_panics}
use ai_api_bridge.Anthropic.Frames.{AnthropicEmitter}
use ai_api_bridge.Anthropic.Emitter as Anthropic
use ai_api_bridge.Anthropic.Panics.{anthropic_never_panics}

-- No method of either emitter panics, whatever the events and the states.
pub emitters_never_panic :
    (uuid : ℕ → String) (from_str : String → Option Value) (evs : List CanonicalEvent)
    (r : ResponsesEmitter) (a : AnthropicEmitter)
    → ((emit_all (Responses.on_event uuid) evs r).panicked ≡ false)
      × ((emit_all (Anthropic.on_event from_str) evs a).panicked ≡ false)
emitters_never_panic uuid from_str evs r a =
    (responses_never_panics uuid evs r, anthropic_never_panics from_str evs a)
