-- ===== src/Server/Failover.antt =====
-- The calls of the upstream with failover (`is_retryable`, `mark_degraded`, `open_upstream_stream`
-- and `call_upstream_json` of src/server.rs). What the network answers is a parameter: the answer to
-- the n-th request of a call.
pub mod Laws
pub mod Passed
use ai_api_bridge.Prelude.{
  ℕ, suc, ◌+◌, String, Bool, true, false, ◌&&◌, ◌||◌, Option, none, some, List, [], ◌∷◌, ◌==◌,
  nat_eq, string_eq, if◌then◌else◌, leb, ltb, unwrap_or, push_str, length,
}
use ai_api_bridge.Json.{Value}
use ai_api_bridge.Canonical.{Float32, CanonicalRequest}
use ai_api_bridge.Error.{
  BridgeError, upstream_unreachable, upstream, internal, Result, ok, err, to_string,
}
use ai_api_bridge.Config.{Dict, find, probe_enabled}
use ai_api_bridge.Router.{ProviderStatus, Resolved}
use ai_api_bridge.Chat.Request.{build_request}

unfoldable pub is_retryable : BridgeError → Bool
is_retryable (upstream_unreachable m) = true
is_retryable (upstream status m) =
    status == 401
    || status == 402
    || status == 408
    || status == 429
    || (leb 500 status && leb status 599)
is_retryable e = false

-- What a failover changes: the statuses in memory, and the re-probes that were started.
pub record Watched : Type 0 where
  pub status : Dict ProviderStatus
  pub probes : List String

-- `ProviderStatus::default()`
abbrev pub default_status : ProviderStatus
default_status = record {
  available = false;
  quota_remaining = none;
  quota_used = none;
  quota_limit = none;
  last_checked = none;
  last_ok = false;
  error = none;
  note = none;
}

-- `HashMap::insert`
abbrev pub set : {V : Type 0} → String → V → Dict V → Dict V
set k v [] = (k, v) ∷ []
set k v ((j, w) ∷ m) = if j == k then (j, v) ∷ m else (j, w) ∷ set k v m

abbrev pub degraded : BridgeError → ProviderStatus → ProviderStatus
degraded e s = record s {
  available = false;
  last_ok = false;
  error = some (push_str "request failed: " (to_string e));
}

-- `has_pool` tells whether the database is there.
unfoldable pub mark_degraded : Bool → Resolved → BridgeError → Watched → Watched
unfolding to_string probe_enabled
mark_degraded has_pool cand e w =
    let entry = unwrap_or (find cand.provider_name w.status) default_status in
    record {
      status = set cand.provider_name (degraded e entry) w.status;
      probes =
          if probe_enabled cand.provider && has_pool
          then cand.provider_name ∷ w.probes
          else w.probes;
    }

-- Provider, model, and the answer's body.
abbrev pub Served : Type 0 → Type 0
Served S = String × String × S

module _ {S : Type 0} (json_f32 : Float32 → Value) (post : ℕ → Resolved → Value → Result S)
    (has_pool : Bool) (req : CanonicalRequest) where
  -- The answer of a candidate at its position.
  unfoldable pub ask : ℕ → Resolved → Result S
  unfolding build_request
  ask i cand =
      post i cand (build_request json_f32 req cand.upstream_model cand.provider.max_tokens_field)

  -- The `match` on an answer; `next` is the rest of the loop.
  abbrev pub on_answer :
      ℕ
      → ℕ
      → Resolved
      → Watched
      → Result S
      → (BridgeError → Result (Served S) × Watched)
      → Result (Served S) × Watched
  on_answer n i cand w (ok s) next = (ok (cand.provider_name, cand.upstream_model, s), w)
  on_answer n i cand w (err e) next =
      let later = next e in if is_retryable e && ltb (i + 1) n then later else (err e, w)

  -- The loop over the candidates, from the i-th of `n` on, with the last error.
  unfoldable pub try_from :
      ℕ → ℕ → Option BridgeError → List Resolved → Watched → Result (Served S) × Watched
  unfolding ask is_retryable mark_degraded
  try_from n i last_err [] w = (err (unwrap_or last_err (internal "no upstream candidates")), w)
  try_from n i last_err (cand ∷ cands) w =
      on_answer n i cand w (ask i cand)
        (λ e. try_from n (i + 1) (some e) cands (mark_degraded has_pool cand e w))

  -- `open_upstream_stream`, and with `S` a JSON value `call_upstream_json`.
  unfoldable pub call_upstream : List Resolved → Watched → Result (Served S) × Watched
  unfolding try_from
  call_upstream candidates w = try_from (length candidates) 0 none candidates w
