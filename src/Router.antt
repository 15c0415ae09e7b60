-- ===== src/Router.antt =====
-- Model alias to candidate chain (src/router.rs). `>=` on floats is a parameter.
pub mod Chain
use Prim.Native.Char.{code}
use ai_api_bridge.Prelude.{
  ℤ, ℕ, String, Bool, true, false, not, ◌&&◌, ◌||◌, Option, none, some, List, [], ◌∷◌, ◌++◌, map,
  ◌==◌, nat_eq, string_eq, if◌then◌else◌, is_empty, any, contains, push_str,
}
use ai_api_bridge.Error.{BridgeError, internal, unknown_model, Result, ok, err, ◌>>=◌, ok_or}
use ai_api_bridge.Config.{Float64, Dict, find, Provider, RouteTarget, Route, Config}

-- `store::ProviderStatus`
pub record ProviderStatus : Type 0 where
  pub available : Bool
  pub quota_remaining : Option Float64
  pub quota_used : Option Float64
  pub quota_limit : Option Float64
  pub last_checked : Option ℤ
  pub last_ok : Bool
  pub error : Option String
  pub note : Option String

pub record Resolved : Type 0 where
  pub provider_name : String
  pub provider : Provider
  pub upstream_model : String

abbrev pub resolved : String → String → Provider → Resolved
resolved pname model p = record { provider_name = pname; provider = p; upstream_model = model }

-- A provider name and a model.
abbrev pub Target : Type 0
Target = String × String

-- `alias.contains('/')`
abbrev pub has_slash : String → Bool
has_slash String.[] = false
has_slash (String.◌∷◌ c s) = code c == b'/' || has_slash s

-- `cfg.routes.iter().find(|r| r.alias == alias)`
abbrev pub find_route : String → List Route → Option Route
find_route alias [] = none
find_route alias (r ∷ rs) = if r.alias == alias then some r else find_route alias rs

abbrev pub target_of : RouteTarget → Target
target_of t = (t.provider, t.model)

abbrev pub default_model : Option String → String → String
default_model none alias = alias
default_model (some prefix) alias = if not (has_slash alias) then push_str prefix alias else alias

-- The branch for the default provider.
unfoldable pub default_chain : Config → String → Option String → Result (List Target)
default_chain cfg alias none = ok []
default_chain cfg alias (some pname) = do
  provider ←
      ok_or (find pname cfg.providers)
        (internal (push_str "default provider " (push_str pname " not configured")))
  ok ((pname, default_model provider.model_prefix alias) ∷ [])

-- The route's chain, or else the default provider's.
unfoldable pub route_chain : Config → String → Option Route → Result (List Target)
unfolding default_chain
route_chain cfg alias (some route) =
    ok ((route.provider, route.model) ∷ map target_of route.fallback)
route_chain cfg alias none = default_chain cfg alias cfg.default_provider

abbrev pub is_target : RouteTarget → Target → Bool
is_target fb (p, m) = p == fb.provider && m == fb.model

-- The global fallback route goes to the end, unless the chain has it.
unfoldable pub add_fallback : Option RouteTarget → List Target → List Target
add_fallback none raw = raw
add_fallback (some fb) raw = if not (any (is_target fb) raw) then raw ++ target_of fb ∷ [] else raw

unfoldable pub raw_chain : Config → String → Result (List Target)
unfolding route_chain add_fallback
raw_chain cfg alias = do
  raw ← route_chain cfg alias (find_route alias cfg.routes)
  ok (add_fallback cfg.fallback_route raw)

-- The end of `resolve_candidates`.
abbrev pub all_of : String → List Resolved → Result (List Resolved)
all_of alias all = if is_empty all then err (unknown_model alias) else ok all

module _ (ge : Float64 → Float64 → Bool) where
  abbrev pub quota_ok : Option Float64 → Option Float64 → Bool
  quota_ok (some rem) (some min) = ge rem min
  quota_ok (some rem) none = true
  quota_ok none min = true

  unfoldable pub is_usable : Provider → Option ProviderStatus → Bool
  is_usable provider none = true
  is_usable provider (some s) =
      if not s.available then false else quota_ok s.quota_remaining provider.quota_min

  module _ (status : Dict ProviderStatus) (cost_exhausted : List String) where
    unfoldable pub preferred : Resolved → Bool
    unfolding is_usable
    preferred r =
        is_usable r.provider (find r.provider_name status)
        && not (contains cost_exhausted r.provider_name)

    abbrev pub sort_in : Resolved → List Resolved × List Resolved → List Resolved × List Resolved
    sort_in r (usable, degraded) =
        if preferred r then (r ∷ usable, degraded) else (usable, r ∷ degraded)

    -- A provider that is not configured is skipped.
    abbrev pub sort_known :
        String
        → String
        → Option Provider
        → List Resolved × List Resolved
        → List Resolved × List Resolved
    sort_known pname model none rest = rest
    sort_known pname model (some provider) rest = sort_in (resolved pname model provider) rest

    -- The loop over the chain: the lists `usable` and `degraded`.
    unfoldable pub classify : Dict Provider → List Target → List Resolved × List Resolved
    unfolding preferred
    classify providers [] = ([], [])
    classify providers ((pname, model) ∷ raw) =
        sort_known pname model (find pname providers) (classify providers raw)

    unfoldable pub resolve_candidates : Config → String → Result (List Resolved)
    unfolding raw_chain classify
    resolve_candidates cfg alias = do
      raw ← raw_chain cfg alias
      let split = classify cfg.providers raw
      all_of alias (split.0 ++ split.1)
