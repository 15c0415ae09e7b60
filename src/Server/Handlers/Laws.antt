-- ===== src/Server/Handlers/Laws.antt =====
-- What the request handlers of src/server.rs leave alone, and whom they refuse.
use ai_api_bridge.Prelude.{
  ℕ, String, Bool, true, false, if◌then◌else◌, Option, none, some, List, and_then, ◌≡◌, refl,
}
use ai_api_bridge.Json.{Value, get}
use ai_api_bridge.Config.{Float64}
use ai_api_bridge.Usage.{Ledger, tokens_from_usage, parse_cost}
use ai_api_bridge.Usage.Persistence.{Grown, Grown-refl, Grown-record_amounts}
use ai_api_bridge.Error.{BridgeError, Result, ok, err}
use ai_api_bridge.Canonical.{CanonicalRequest}
use ai_api_bridge.Router.{Resolved}
use ai_api_bridge.Server.Auth.{check_auth}
use ai_api_bridge.Server.State.{AppState}
use ai_api_bridge.Server.Stream.{Chunk}
use ai_api_bridge.Server.Failover.{Watched, Served}
use ai_api_bridge.Server.Handlers.{
  Host, Outcome, Format, CostRecorder, ledger_of, left, refused, cost_recorder, record_with,
  record_nonstream, stream_outcome, whole_outcome, serve, translating_handler, chat_stream,
  chat_whole, serve_chat, chat_handler,
}

-- A request may change the statuses and the meter, and add rows of usage to the database; where
-- usage is not tracked, it keeps the meter and the database.
abbrev pub Keeps : AppState → AppState → Type 0
Keeps s t =
    (t.config ≡ s.config)
    × Grown s.database t.database
    × (t.watchers ≡ s.watchers)
    × (t.usage_on ≡ s.usage_on)
    × (s.usage_on ≡ false → (t.usage ≡ s.usage) × (t.database ≡ s.database))

Keeps-if :
    (s : AppState) (b : Bool) (x y : Outcome)
    → Keeps s x.state
    → Keeps s y.state
    → Keeps s (if b then x else y).state
Keeps-if s true x y h k = h
Keeps-if s false x y h k = k

module _ (host : Host) where
  no_recorder :
      (s : AppState) (provider model : String)
      → s.usage_on ≡ false
      → cost_recorder host s provider model ≡ none
  unfolding cost_recorder
  no_recorder s provider model e = rw e refl

  Grown-record_with :
      (recorder : Option CostRecorder) (cost : Option Float64) (pt ct : Option ℕ) (ledger : Ledger)
      → Grown ledger.database (record_with host recorder cost pt ct ledger).database
  Grown-record_with none cost pt ct ledger = Grown-refl ledger.database
  Grown-record_with (some (provider, kinds)) cost pt ct ledger =
      Grown-record_amounts host.floats provider kinds cost pt ct host.now ledger

  -- A served request keeps what its charges keep.
  Keeps-recorded :
      (s : AppState) (w : Watched) (provider model : String) (cost : Option Float64)
      (pt ct : Option ℕ)
      → Keeps s (
          left s w
            (record_with host (cost_recorder host s provider model) cost pt ct (ledger_of s)))
  Keeps-recorded s w provider model cost pt ct = (
    refl,
    Grown-record_with (cost_recorder host s provider model) cost pt ct (ledger_of s),
    refl,
    refl,
    λ h. rw (no_recorder s provider model h) (refl, refl),
  )

  Keeps-left : (s : AppState) (w : Watched) → Keeps s (left s w (ledger_of s))
  Keeps-left s w = (refl, Grown-refl s.database, refl, refl, λ h. (refl, refl))

  Keeps-nonstream :
      (s : AppState) (w : Watched) (provider model : String) (resp : Value)
      → Keeps s (left s w (record_nonstream host s provider model resp))
  unfolding record_nonstream
  Keeps-nonstream s w provider model resp =
      let (pt, ct) = tokens_from_usage (get "usage" resp) in
      Keeps-recorded s w provider model (and_then (get "cost" resp) (parse_cost host.floats)) pt ct

  Keeps-stream :
      (format : Format) (s : AppState) (r : Result (Served (List Chunk)) × Watched)
      → Keeps s (stream_outcome host format s r).state
  Keeps-stream format s (err e, w) = Keeps-left s w
  Keeps-stream format s (ok (provider, model, chunks), w) = Keeps-recorded s w provider model _ _ _

  Keeps-whole :
      (format : Format) (s : AppState) (r : Result (Served Value) × Watched)
      → Keeps s (whole_outcome host format s r).state
  Keeps-whole format s (err e, w) = Keeps-left s w
  Keeps-whole format s (ok (provider, model, resp), w) = Keeps-nonstream s w provider model resp

  Keeps-serve :
      (format : Format) (s : AppState) (r : Result (CanonicalRequest × List Resolved))
      → Keeps s (serve host format s r).state
  Keeps-serve format s (err e) = (refl, Grown-refl s.database, refl, refl, λ h. (refl, refl))
  Keeps-serve format s (ok (req, cs)) =
      Keeps-if s req.stream _ _ (Keeps-stream format s _) (Keeps-whole format s _)

  Keeps-chat_stream :
      (s : AppState) (r : Result (Served (List Chunk)) × Watched)
      → Keeps s (chat_stream host s r).state
  Keeps-chat_stream s (err e, w) = Keeps-left s w
  Keeps-chat_stream s (ok (provider, model, chunks), w) = Keeps-left s w

  Keeps-chat_whole :
      (s : AppState) (r : Result (Served Value) × Watched) → Keeps s (chat_whole host s r).state
  Keeps-chat_whole s (err e, w) = Keeps-left s w
  Keeps-chat_whole s (ok (provider, model, resp), w) = Keeps-nonstream s w provider model resp

  Keeps-serve_chat :
      (s : AppState) (r : Result (CanonicalRequest × List Resolved))
      → Keeps s (serve_chat host s r).state
  Keeps-serve_chat s (err e) = (refl, Grown-refl s.database, refl, refl, λ h. (refl, refl))
  Keeps-serve_chat s (ok (req, cs)) =
      Keeps-if s req.stream _ _ (Keeps-chat_stream s _) (Keeps-chat_whole s _)

  -- Whatever a client sends in one of the three formats and whatever the upstreams answer, the
  -- configuration, the probe tasks and the switch for usage stay as they were, and the database but for
  -- rows of usage that are added at the end; where usage is not tracked, the meter and the whole
  -- database stay as they were.
  pub handlers-Keeps :
      (format : Format) (authorization x_api_key : Option String) (body : Value) (s : AppState)
      → Keeps s (translating_handler host format authorization x_api_key body s).state
        × Keeps s (chat_handler host authorization x_api_key body s).state
  unfolding translating_handler chat_handler
  handlers-Keeps format authorization x_api_key body s =
      (Keeps-serve format s _, Keeps-serve_chat s _)

  -- A request without the token is answered with the error of the authorization, whatever it is and
  -- whatever the network would answer; no state changes and no probe is started.
  pub handlers_unauthorized :
      (format : Format) (authorization x_api_key : Option String) (body : Value) (s : AppState)
      (e : BridgeError)
      → check_auth s.config.auth_token authorization x_api_key ≡ err e
      → (translating_handler host format authorization x_api_key body s ≡ refused e s)
        × (chat_handler host authorization x_api_key body s ≡ refused e s)
  unfolding translating_handler chat_handler
  handlers_unauthorized format authorization x_api_key body s e h = (rw h refl, rw h refl)
