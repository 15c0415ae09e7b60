-- ===== src/Examples/Candidates.antt =====
-- Runs of the router and of the failover.
use ai_api_bridge.Prelude.{
  String, ℕ, zero, suc, Bool, true, false, ◌≡◌, refl, none, some, List, [], ◌∷◌, ◌++◌, any,
  if◌then◌else◌, is_empty, All,
}
use ai_api_bridge.Json.{Value, null}
use ai_api_bridge.Canonical.{Float32, CanonicalRequest, auto}
use ai_api_bridge.Error.{unknown_model, upstream, Result, ok, err}
use ai_api_bridge.Config.{Float64, Provider, Config, RouteTarget, openai_chat, path, find}
use ai_api_bridge.Router.{Resolved, Target, raw_chain, resolve_candidates, preferred}
use ai_api_bridge.Router.Chain.{
  entries, Parted, leads_to, resolve_candidates_lem, fallback-IsCandidate,
}
use ai_api_bridge.Server.Failover.{Watched, call_upstream, ask, is_retryable}
use ai_api_bridge.Server.Failover.Laws.{Stop, call_upstream-Stop}
use ai_api_bridge.Server.Failover.Passed.{is_down, named, passed, call_upstream-passed}

abbrev pub provider : Provider
provider = record {
  wire = openai_chat;
  base_url = "http://localhost";
  api_key = none;
  model_prefix = none;
  max_tokens_field = "max_tokens";
  extra_headers = [];
  probe_script = none;
  probe_script_text = none;
  probe_source = path;
  probe_enabled = none;
  probe_interval_secs = none;
  quota_min = none;
  cost_windows = [];
  model_prices = [];
  usage = [];
  models = [];
}

abbrev backup : RouteTarget
backup = record { provider = "b"; model = "small" }

abbrev pub config : Config
config = record {
  listen = "";
  database = "";
  default_provider = none;
  auth_token = none;
  cost_tracking = true;
  providers = ("a", provider) ∷ ("b", provider) ∷ [];
  routes = record { alias = "gpt"; provider = "a"; model = "large"; fallback = [] } ∷ [];
  fallback_route = some backup;
}

abbrev no_floats : Float64 → Float64 → Bool
no_floats a b = true

abbrev chain : List Target
chain = ("a", "large") ∷ ("b", "small") ∷ []

chain_found : raw_chain config "gpt" ≡ ok chain
unfolding raw_chain
chain_found = refl

-- `a` has used up a window.
resolve_candidates_lem_example :
    let all = entries config.providers chain in
    (us : List Resolved) × (ds : List Resolved) × Parted
      (preferred no_floats [] ("a" ∷ []))
      all
      us
      ds
    × (resolve_candidates no_floats [] ("a" ∷ []) config "gpt"
        ≡ (if is_empty all then err (unknown_model "gpt") else ok (us ++ ds)))
resolve_candidates_lem_example =
    resolve_candidates_lem no_floats [] ("a" ∷ []) config "gpt" chain chain_found

fallback-IsCandidate_example :
    (cands : List Resolved) × (resolve_candidates no_floats [] ("a" ∷ []) config "gpt" ≡ ok cands)
    × (any (leads_to backup) cands ≡ true)
fallback-IsCandidate_example =
    fallback-IsCandidate no_floats [] ("a" ∷ []) config "gpt" chain backup provider chain_found refl
      refl

abbrev first_one : Resolved
first_one = record { provider_name = "a"; provider = provider; upstream_model = "large" }

abbrev second_one : Resolved
second_one = record { provider_name = "b"; provider = provider; upstream_model = "small" }

abbrev request : CanonicalRequest
request = record {
  model = "gpt";
  system = none;
  messages = [];
  tools = [];
  tool_choice = auto;
  temperature = none;
  top_p = none;
  max_output_tokens = none;
  reasoning_effort = none;
  parallel_tool_calls = none;
  stream = false;
}

abbrev no_f32 : Float32 → Value
no_f32 f = null

-- The first request is answered by 503, a later one by a value.
abbrev post : ℕ → Resolved → Value → Result Value
post zero cand body = err (upstream 503 "busy")
post (suc i) cand body = ok null

abbrev calm : Watched
calm = record { status = []; probes = [] }

call_upstream-Stop_example :
    Stop no_f32 post true request 0
      (first_one ∷ second_one ∷ [])
      calm
      (call_upstream no_f32 post true request (first_one ∷ second_one ∷ []) calm)
call_upstream-Stop_example =
    call_upstream-Stop no_f32 post true request first_one (second_one ∷ []) calm

call_upstream-passed_example :
    let cands = first_one ∷ second_one ∷ [] in
    let left = (call_upstream no_f32 post true request cands calm).1.status in
    All (λ c. is_down (find c.provider_name left) ≡ true) (passed no_f32 post true request 0 cands)
    × ((k : String)
        → any (named k) (passed no_f32 post true request 0 cands) ≡ false
        → find k left ≡ find k calm.status)
call_upstream-passed_example =
    call_upstream-passed no_f32 post true request (first_one ∷ second_one ∷ []) calm

first_passed : passed no_f32 post true request 0 (first_one ∷ second_one ∷ []) ≡ first_one ∷ []
unfolding ask is_retryable
first_passed = refl
