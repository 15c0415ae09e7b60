-- ===== src/Server/Failover/Passed.antt =====
-- The marks that a call with failover leaves on the statuses (src/server.rs).
use ai_api_bridge.Prelude.{
  ℕ, ◌+◌, ◌≡◌, refl, sym, ap, ◌∙◌, subst, String, Bool, true, false, ◌&&◌, not, Option, none, some,
  List, [], ◌∷◌, ◌++◌, ◌==◌, string_eq, if◌then◌else◌, any, is_empty, arith, unwrap_or, All,
}
use ai_api_bridge.Json.{Value}
use ai_api_bridge.Canonical.{Float32, CanonicalRequest}
use ai_api_bridge.Error.{BridgeError, Result, ok, err}
use ai_api_bridge.Config.{Dict, find}
use ai_api_bridge.Router.{ProviderStatus, Resolved}
use ai_api_bridge.Server.Failover.{
  is_retryable, Watched, default_status, set, degraded, mark_degraded, ask, try_from, call_upstream,
}
use ai_api_bridge.Server.Failover.Laws.{
  Skipped, none_skipped, skip, IsFinal, after, call_upstream-Stop,
}

-- An entry says that its provider is not available.
abbrev pub is_down : Option ProviderStatus → Bool
is_down none = false
is_down (some s) = not s.available

find-set :
    (k j : String) (s : ProviderStatus) (m : Dict ProviderStatus)
    → find k (set j s m) ≡ (if j == k then some s else find k m)
find-set k j s [] = refl
find-set k j s ((i, t) ∷ m) =
    ground
      (arith, string_eq.decides i j, string_eq.decides i k, string_eq.decides j k, find-set k j s m)

mark_degraded-keeps_down :
    (has_pool : Bool) (c : Resolved) (e : BridgeError) (w : Watched) (k : String)
    → is_down (find k w.status) ≡ true
    → is_down (find k (mark_degraded has_pool c e w).status) ≡ true
unfolding mark_degraded
mark_degraded-keeps_down has_pool c e w k h = ground (
  arith,
  find-set k c.provider_name (degraded e (unwrap_or (find c.provider_name w.status) default_status))
      w.status,
)

mark_degraded-down :
    (has_pool : Bool) (c : Resolved) (e : BridgeError) (w : Watched)
    → is_down (find c.provider_name (mark_degraded has_pool c e w).status) ≡ true
unfolding mark_degraded
mark_degraded-down has_pool c e w =
    let entry = degraded e (unwrap_or (find c.provider_name w.status) default_status) in
    ap is_down (find-set c.provider_name c.provider_name entry w.status)
    ∙ rw ((string_eq.decides c.provider_name c.provider_name).1 refl) refl

mark_degraded-other :
    (has_pool : Bool) (c : Resolved) (e : BridgeError) (w : Watched) (k : String)
    → c.provider_name == k ≡ false
    → find k (mark_degraded has_pool c e w).status ≡ find k w.status
unfolding mark_degraded
mark_degraded-other has_pool c e w k h =
    find-set k c.provider_name
      (degraded e (unwrap_or (find c.provider_name w.status) default_status)) w.status
    ∙ rw h refl

not_empty : {A : Type 0} (xs : List A) (x : A) (ys : List A) → is_empty (xs ++ x ∷ ys) ≡ false
not_empty [] x ys = refl
not_empty (z ∷ xs) x ys = refl

abbrev pub named : String → Resolved → Bool
named k c = c.provider_name == k

module _ {S : Type 0} (json_f32 : Float32 → Value) (post : ℕ → Resolved → Value → Result S)
    (has_pool : Bool) (req : CanonicalRequest) where
  abbrev passed_after : Result S → Resolved → List Resolved → List Resolved → List Resolved
  passed_after (ok s) c cs rest = []
  passed_after (err e) c cs rest = if is_retryable e && not (is_empty cs) then c ∷ rest else []

  -- The candidates, asked from position `i` on, before the first one that answers, fails for good or is
  -- the last.
  abbrev pub passed : ℕ → List Resolved → List Resolved
  passed i [] = []
  passed i (c ∷ cs) = passed_after (ask json_f32 post has_pool req i c) c cs (passed (i + 1) cs)

  passed_none :
      (a : Result S) (c : Resolved) (cs rest : List Resolved)
      → IsFinal json_f32 post has_pool req a cs
      → passed_after a c cs rest ≡ []
  passed_none (ok s) c cs rest h = refl
  passed_none (err e) c cs rest h = rw h refl

  passed-Skipped :
      (i : ℕ) (cs : List Resolved) (w v : Watched) (last : Resolved) (rest : List Resolved)
      → Skipped json_f32 post has_pool req i cs w v
      → IsFinal json_f32 post has_pool req (ask json_f32 post has_pool req (after i cs) last) rest
      → passed i (cs ++ last ∷ rest) ≡ cs
  passed-Skipped i cs w v last rest (none_skipped) f =
      passed_none (ask json_f32 post has_pool req i last) last rest _ f
  passed-Skipped i cs w v last rest (skip {c = c} {cs = ds} e a r h) f =
      rw (a, r, not_empty ds last rest)
        (ap (λ l. c ∷ l) (passed-Skipped (i + 1) ds (mark_degraded has_pool c e w) v last rest h f))

  keeps_down :
      (i : ℕ) (cs : List Resolved) (w v : Watched) (k : String)
      → is_down (find k w.status) ≡ true
      → Skipped json_f32 post has_pool req i cs w v
      → is_down (find k v.status) ≡ true
  keeps_down i cs w v k d none_skipped = d
  keeps_down i cs w v k d (skip {c = c} {cs = ds} e a r h) =
      keeps_down _ ds _ v k (mark_degraded-keeps_down has_pool c e w k d) h

  all_down :
      (i : ℕ) (cs : List Resolved) (w v : Watched)
      → Skipped json_f32 post has_pool req i cs w v
      → All (λ c. is_down (find c.provider_name v.status) ≡ true) cs
  all_down i cs w v none_skipped = tt
  all_down i cs w v (skip {c = c} {cs = ds} e a r h) = (
    keeps_down _ ds _ v c.provider_name (mark_degraded-down has_pool c e w) h,
    all_down _ ds _ v h,
  )

  others_kept :
      (i : ℕ) (cs : List Resolved) (w v : Watched) (k : String)
      → Skipped json_f32 post has_pool req i cs w v
      → any (named k) cs ≡ false
      → find k v.status ≡ find k w.status
  others_kept i cs w v k none_skipped n = refl
  others_kept i cs w v k (skip {c = c} {cs = ds} e a r h) n =
      others_kept _ ds _ v k h (ground arith) ∙ mark_degraded-other has_pool c e w k (ground arith)

  pub call_upstream-passed :
      (cands : List Resolved) (w : Watched)
      → let left = (call_upstream json_f32 post has_pool req cands w).1.status in
        All (λ c. is_down (find c.provider_name left) ≡ true) (passed 0 cands)
        × ((k : String) → any (named k) (passed 0 cands) ≡ false → find k left ≡ find k w.status)
  unfolding call_upstream try_from
  call_upstream-passed [] w = (tt, λ k n. refl)
  call_upstream-passed (c ∷ cs) w =
      let out = call_upstream json_f32 post has_pool req (c ∷ cs) w in
      let stop = call_upstream-Stop json_f32 post has_pool req c cs w in
      let same =
        ap (passed 0) stop.parts
        ∙ passed-Skipped 0 stop.skipped w out.1 stop.last stop.rest stop.failed stop.final in
      (
        subst (All (λ c. is_down (find c.provider_name out.1.status) ≡ true)) (sym same)
            (all_down 0 stop.skipped w out.1 stop.failed),
        λ k n. others_kept 0 stop.skipped w out.1 k stop.failed (sym (ap (any (named k)) same) ∙ n),
      )
