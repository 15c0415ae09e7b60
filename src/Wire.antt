-- ===== src/Wire.antt =====
-- What the wire formats share (src/wire/mod.rs): frames, the emitters' interface, and the maps from
-- tool-call indices (`BTreeMap<u32, _>`). A method of an emitter takes the state and gives the
-- frames that it pushes, the new state, and whether an `unwrap` on its way has panicked.
pub mod IndexMap
pub mod Counting
pub mod Starts
use ai_api_bridge.Prelude.{
  ℕ, String, Bool, false, true, ◌||◌, List, [], ◌∷◌, ◌++◌, ◌+◌, ◌%◌, ◌^◌, ◌≡◌, refl, push_str,
}
use ai_api_bridge.Json.{Value}
use ai_api_bridge.Canonical.{CanonicalEvent}

pub record SseFrame : Type 0 where
  pub event : String
  pub body : Value

abbrev pub frame : String → Value → SseFrame
frame event body = record { event = event; body = body }

-- `new_id`; the random UUID is drawn by the caller.
abbrev pub new_id : String → String → String
new_id prefix uuid = push_str prefix (push_str "_" uuid)

pub record Emitted (S : Type 0) : Type 0 where
  pub frames : List SseFrame
  pub state : S
  pub panicked : Bool

-- `trait CanonicalEmitter`
pub record CanonicalEmitter (S : Type 0) : Type 0 where
  pub emit : CanonicalEvent → S → Emitted S

-- `self.next += 1` on a `u32`, as a release build computes it.
abbrev pub next_u32 : ℕ → ℕ
next_u32 n = (n + 1) % 2 ^ 32

-- `n as u32`
abbrev pub as_u32 : ℕ → ℕ
as_u32 n = n % 2 ^ 32

module _ {S : Type 0} where
  abbrev pub pushed : List SseFrame → S → Emitted S
  pushed fs s = record { frames = fs; state = s; panicked = false }

  abbrev pub nothing : S → Emitted S
  nothing s = pushed [] s

  abbrev pub panic : S → Emitted S
  panic s = record { frames = []; state = s; panicked = true }

  -- A method call after another.
  infixl 5 ◌>>◌
  abbrev pub ◌>>◌ : (S → Emitted S) → (S → Emitted S) → S → Emitted S
  ◌>>◌ m k s =
      let a = m s in
      let b = k a.state in
      record { frames = a.frames ++ b.frames; state = b.state; panicked = a.panicked || b.panicked }

  -- The events of a stream, one call each.
  unfoldable pub emit_all : (CanonicalEvent → S → Emitted S) → List CanonicalEvent → S → Emitted S
  emit_all step [] s = nothing s
  emit_all step (ev ∷ evs) s = (step ev >> emit_all step evs) s

  -- The state after one event more.
  pub emit_all-concat_state :
      (step : CanonicalEvent → S → Emitted S) (evs : List CanonicalEvent) (ev : CanonicalEvent)
      (s : S)
      → (emit_all step (evs ++ ev ∷ []) s).state ≡ (step ev (emit_all step evs s).state).state
  unfolding emit_all
  emit_all-concat_state step [] ev s = refl
  emit_all-concat_state step (e ∷ evs) ev s = emit_all-concat_state step evs ev (step e s).state
