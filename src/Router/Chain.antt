-- ===== src/Router/Chain.antt =====
-- What the candidate chain of src/router.rs holds, and when resolving fails.
use ai_api_bridge.Prelude.{
  String, Bool, true, false, ◌&&◌, ◌||◌, Option, none, some, List, [], ◌∷◌, ◌++◌, ◌==◌, nat_eq,
  string_eq, if◌then◌else◌, is_empty, any, ◌≡◌, refl, ap, sym, subst, ◌∙◌, Bool-cases, inl, inr,
  arith,
}
use ai_api_bridge.Error.{unknown_model, Result, ok, err, ◌>>=◌}
use ai_api_bridge.Config.{Float64, Dict, find, Provider, RouteTarget, Config}
use ai_api_bridge.Router.{
  ProviderStatus, all_of, Resolved, resolved, sort_known, Target, target_of, preferred, sort_in,
  classify, raw_chain, route_chain, add_fallback, is_target, find_route, resolve_candidates,
}

abbrev pub known : String → String → Option Provider → List Resolved
known name model none = []
known name model (some p) = resolved name model p ∷ []

-- The known targets of a chain, in the chain's order.
unfoldable pub entries : Dict Provider → List Target → List Resolved
entries providers [] = []
entries providers ((name, model) ∷ ts) =
    known name model (find name providers) ++ entries providers ts

-- A list is split in two, each part in the order of the whole, by a test.
pub data Parted (test : Resolved → Bool)
    : List Resolved → List Resolved → List Resolved → Type 0 where
  done : Parted test [] [] []
  take :
      {r : Resolved} {rs us ds : List Resolved}
      → test r ≡ true
      → Parted test rs us ds
      → Parted test (r ∷ rs) (r ∷ us) ds
  leave :
      {r : Resolved} {rs us ds : List Resolved}
      → test r ≡ false
      → Parted test rs us ds
      → Parted test (r ∷ rs) us (r ∷ ds)

-- A candidate for a target.
abbrev pub leads_to : RouteTarget → Resolved → Bool
leads_to fb r = r.provider_name == fb.provider && r.upstream_model == fb.model

is_empty-Parted :
    {test : Resolved → Bool} {all us ds : List Resolved}
    → Parted test all us ds
    → is_empty (us ++ ds) ≡ is_empty all
is_empty-Parted done = refl
is_empty-Parted (take e h) = refl
is_empty-Parted {us = []} (leave e h) = refl
is_empty-Parted {us = u ∷ us} (leave e h) = refl

all_of-Parted :
    (test : Resolved → Bool) (alias : String) (all us ds : List Resolved)
    → Parted test all us ds
    → all_of alias (us ++ ds) ≡ (if is_empty all then err (unknown_model alias) else ok (us ++ ds))
all_of-Parted test alias all us ds h = rw (is_empty-Parted h) refl

any-append :
    {A : Type 0} (f : A → Bool) (xs ys : List A) → any f (xs ++ ys) ≡ (any f xs || any f ys)
any-append f [] ys = refl
any-append f (x ∷ xs) ys = ground (arith, any-append f xs ys)

any-Parted :
    {test : Resolved → Bool} {all us ds : List Resolved} (f : Resolved → Bool)
    → Parted test all us ds
    → any f (us ++ ds) ≡ any f all
any-Parted f done = refl
any-Parted f (take {r = r} e h) = ap (λ b. f r || b) (any-Parted f h)
any-Parted f (leave {r = r} {us = us} {ds = ds} e h) =
    ground (arith, any-append f us (r ∷ ds), any-append f us ds, any-Parted f h)

is_empty-any : {A : Type 0} (f : A → Bool) (xs : List A) → any f xs ≡ true → is_empty xs ≡ false
is_empty-any f [] h = cc
is_empty-any f (x ∷ xs) h = refl

ok_inj : {A : Type 0} {x y : A} → ok x ≡ ok y → x ≡ y
ok_inj h = cc

is_target_refl : (fb : RouteTarget) → is_target fb (target_of fb) ≡ true
is_target_refl fb =
    rw
      (
        (string_eq.decides fb.provider fb.provider).1 refl,
        (string_eq.decides fb.model fb.model).1 refl,
      )
      refl

and_left : (a b : Bool) → (a && b) ≡ true → a ≡ true
and_left a b h = ground arith

and_right : (a b : Bool) → (a && b) ≡ true → b ≡ true
and_right a b h = ground arith

or_right : (a b : Bool) → b ≡ true → (a || b) ≡ true
or_right a b h = ground arith

-- The chain with the fallback route added has its target.
any-add_fallback :
    (fb : RouteTarget) (raw : List Target) → any (is_target fb) (add_fallback (some fb) raw) ≡ true
unfolding add_fallback
any-add_fallback fb raw = elim (Bool-cases (any (is_target fb) raw)) [
  | inl e ↦ rw e e
  | inr e ↦
      rw e (any-append (is_target fb) raw (target_of fb ∷ []) ∙ rw (e, is_target_refl fb) refl)
]

added_to :
    (chain : Result (List Target)) (fallback : Option RouteTarget) (raw : List Target)
    (fb : RouteTarget)
    → fallback ≡ some fb
    → (chain >>= (λ r. ok (add_fallback fallback r))) ≡ ok raw
    → any (is_target fb) raw ≡ true
added_to (ok r) fallback raw fb e h =
    subst (λ x. any (is_target fb) x ≡ true) (ap (λ f. add_fallback f r) (sym e) ∙ ok_inj h)
      (any-add_fallback fb r)
added_to (err x) fallback raw fb e h = cc

chain-fallback :
    (cfg : Config) (alias : String) (raw : List Target) (fb : RouteTarget)
    → raw_chain cfg alias ≡ ok raw
    → cfg.fallback_route ≡ some fb
    → any (is_target fb) raw ≡ true
unfolding raw_chain
chain-fallback cfg alias raw fb chain e =
    added_to (route_chain cfg alias (find_route alias cfg.routes)) cfg.fallback_route raw fb e chain

entries-leads_to :
    (providers : Dict Provider) (raw : List Target) (fb : RouteTarget) (p : Provider)
    → any (is_target fb) raw ≡ true
    → find fb.provider providers ≡ some p
    → any (leads_to fb) (entries providers raw) ≡ true
unfolding entries
entries-leads_to providers [] fb p h found = cc
entries-leads_to providers ((name, model) ∷ raw) fb p h found =
    any-append (leads_to fb) (known name model (find name providers)) (entries providers raw)
    ∙ elim (Bool-cases (is_target fb (name, model))) [
      | inl e ↦
          let model_same =
            (string_eq.decides model fb.model).0
              (and_right (name == fb.provider) (model == fb.model) e) in
          let same =
            (string_eq.decides name fb.provider).0
              (and_left (name == fb.provider) (model == fb.model) e) in
          rw (same, model_same, found, is_target_refl fb) refl
      | inr e ↦
          or_right (any (leads_to fb) (known name model (find name providers)))
            (any (leads_to fb) (entries providers raw))
            (entries-leads_to providers raw fb p (ground arith) found)
    ]

module _ (ge : Float64 → Float64 → Bool) (status : Dict ProviderStatus)
    (exhausted : List String) where
  abbrev wanted : Resolved → Bool
  wanted = preferred ge status exhausted

  Parted-sort_in :
      (r : Resolved) (rs : List Resolved) (split : List Resolved × List Resolved)
      → Parted wanted rs split.0 split.1
      → Parted wanted
          (r ∷ rs)
          (sort_in ge status exhausted r split).0
          (sort_in ge status exhausted r split).1
  Parted-sort_in r rs (us, ds) h = elim (Bool-cases (preferred ge status exhausted r)) [
    | inl e ↦ rw e (take e h)
    | inr e ↦ rw e (leave e h)
  ]

  Parted-sort_known :
      (name model : String) (p : Option Provider) (rs : List Resolved)
      (split : List Resolved × List Resolved)
      → Parted wanted rs split.0 split.1
      → let out = sort_known ge status exhausted name model p split in
        Parted wanted (known name model p ++ rs) out.0 out.1
  Parted-sort_known name model none rs split h = h
  Parted-sort_known name model (some p) rs split h =
      Parted-sort_in (resolved name model p) rs split h

  classify-Parted :
      (providers : Dict Provider) (raw : List Target)
      → let split = classify ge status exhausted providers raw in
        Parted wanted (entries providers raw) split.0 split.1
  unfolding classify entries
  classify-Parted providers [] = done
  classify-Parted providers ((name, model) ∷ raw) =
      Parted-sort_known name model (find name providers) (entries providers raw)
        (classify ge status exhausted providers raw) (classify-Parted providers raw)

  -- Where the chain of an alias is `raw`, the candidates are the chain's known targets, split by
  -- whether they are preferred, the preferred ones first and both parts in the chain's order; and
  -- where the chain has no known target, the error says that the model is unknown.
  pub resolve_candidates_lem :
      (cfg : Config) (alias : String) (raw : List Target)
      → raw_chain cfg alias ≡ ok raw
      → let all = entries cfg.providers raw in
        (us : List Resolved) × (ds : List Resolved) × Parted wanted all us ds
        × (resolve_candidates ge status exhausted cfg alias
            ≡ (if is_empty all then err (unknown_model alias) else ok (us ++ ds)))
  unfolding resolve_candidates
  resolve_candidates_lem cfg alias raw chain =
      let split = classify ge status exhausted cfg.providers raw in
      let parted = classify-Parted cfg.providers raw in
      (
        split.0,
        split.1,
        parted,
        rw chain (all_of-Parted wanted alias (entries cfg.providers raw) split.0 split.1 parted),
      )

  -- A fallback route whose provider is configured is a candidate for every alias that has a chain:
  -- resolving does not fail, and some candidate has the route's provider and model.
  pub fallback-IsCandidate :
      (cfg : Config) (alias : String) (raw : List Target) (fb : RouteTarget) (p : Provider)
      → raw_chain cfg alias ≡ ok raw
      → cfg.fallback_route ≡ some fb
      → find fb.provider cfg.providers ≡ some p
      → (cands : List Resolved) × (resolve_candidates ge status exhausted cfg alias ≡ ok cands)
        × (any (leads_to fb) cands ≡ true)
  fallback-IsCandidate cfg alias raw fb p chain e found =
      let (us, ds, parted, r) = resolve_candidates_lem cfg alias raw chain in
      let reached =
        entries-leads_to cfg.providers raw fb p (chain-fallback cfg alias raw fb chain e) found in
      (
        us ++ ds,
        r ∙ rw (is_empty-any (leads_to fb) (entries cfg.providers raw) reached) refl,
        any-Parted (leads_to fb) parted ∙ reached,
      )
