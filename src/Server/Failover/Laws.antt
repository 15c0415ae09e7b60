-- ===== src/Server/Failover/Laws.antt =====
-- Which candidate serves a request, and what a failed attempt leaves behind (src/server.rs).
use ai_api_bridge.Prelude.{
  ℕ, suc, ◌+◌, ◌≡◌, refl, sym, ap, ◌∙◌, subst, Bool, true, false, ◌&&◌, not, Option, none, some,
  List, [], ◌∷◌, ◌++◌, string_eq, ltb, length, is_empty, arith, Bool-cases, inl, inr, ◌⊎◌,
}
use ai_api_bridge.Json.{Value}
use ai_api_bridge.Canonical.{Float32, CanonicalRequest}
use ai_api_bridge.Error.{BridgeError, Result, ok, err}
use ai_api_bridge.Router.{Resolved}
use ai_api_bridge.Server.Failover.{
  is_retryable, Watched, mark_degraded, Served, ask, try_from, call_upstream,
}

Result-cases :
    {S : Type 0} (a : Result S) → ((s : S) × (a ≡ ok s)) ⊎ ((e : BridgeError) × (a ≡ err e))
Result-cases (ok s) = inl (s, refl)
Result-cases (err e) = inr (e, refl)

last_one :
    (n i : ℕ) (e : BridgeError) (cs : List Resolved)
    → n ≡ i + suc (length cs)
    → (is_retryable e && not (is_empty cs)) ≡ false
    → (is_retryable e && ltb (i + 1) n) ≡ false
last_one n i e [] h r = ground arith
last_one n i e (d ∷ ds) h r = ground arith

goes_on :
    (n i : ℕ) (e : BridgeError) (m : ℕ)
    → n ≡ i + suc (suc m)
    → is_retryable e ≡ true
    → (is_retryable e && ltb (i + 1) n) ≡ true
goes_on n i e m h r = ground arith

-- The position after some candidates.
abbrev pub after : ℕ → List Resolved → ℕ
after i [] = i
after i (c ∷ cs) = after (i + 1) cs

module _ {S : Type 0} (json_f32 : Float32 → Value) (post : ℕ → Resolved → Value → Result S)
    (has_pool : Bool) (req : CanonicalRequest) where
  -- The candidates, from position `i` on, that all failed in a way that another one may not, and
  -- the marks that this left.
  pub data Skipped : ℕ → List Resolved → Watched → Watched → Type 0 where
    none_skipped : {i : ℕ} {w : Watched} → Skipped i [] w w
    skip :
        {i : ℕ} {c : Resolved} {cs : List Resolved} {w v : Watched} (e : BridgeError)
        → ask json_f32 post has_pool req i c ≡ err e
        → is_retryable e ≡ true
        → Skipped (i + 1) cs (mark_degraded has_pool c e w) v
        → Skipped i (c ∷ cs) w v

  -- The answer at which the loop stops: a success, an error that no other candidate would mend, or
  -- the last candidate's error.
  abbrev pub IsFinal : Result S → List Resolved → Type 0
  IsFinal (ok s) rest = Unit
  IsFinal (err e) rest = (is_retryable e && not (is_empty rest)) ≡ false

  abbrev pub served : Resolved → Result S → Result (Served S)
  served c (ok s) = ok (c.provider_name, c.upstream_model, s)
  served c (err e) = err e

  -- The candidate at which the loop stops.
  pub record Stop (i : ℕ) (cands : List Resolved) (w : Watched) (out : Result (Served S) × Watched)
      : Type 0 where
    pub skipped : List Resolved
    pub last : Resolved
    pub rest : List Resolved
    pub parts : cands ≡ skipped ++ last ∷ rest
    pub failed : Skipped i skipped w out.1
    pub final : IsFinal (ask json_f32 post has_pool req (after i skipped) last) rest
    pub result : out.0 ≡ served last (ask json_f32 post has_pool req (after i skipped) last)

  fails_at :
      (n i : ℕ) (last_err : Option BridgeError) (c : Resolved) (cs : List Resolved) (w : Watched)
      (e : BridgeError)
      → n ≡ i + suc (length cs)
      → ask json_f32 post has_pool req i c ≡ err e
      → (is_retryable e && not (is_empty cs)) ≡ false
      → Stop i (c ∷ cs) w (try_from json_f32 post has_pool req n i last_err (c ∷ cs) w)
  unfolding try_from
  fails_at n i last_err c cs w e h a r =
      let stuck = last_one n i e cs h r in
      record {
        skipped = [];
        last = c;
        rest = cs;
        parts = refl;
        failed = rw (a, stuck) none_skipped;
        final = rw a r;
        result = rw (a, stuck) refl;
      }

  answers :
      (n i : ℕ) (last_err : Option BridgeError) (c : Resolved) (cs : List Resolved) (w : Watched)
      (s : S)
      → ask json_f32 post has_pool req i c ≡ ok s
      → Stop i (c ∷ cs) w (try_from json_f32 post has_pool req n i last_err (c ∷ cs) w)
  unfolding try_from
  answers n i last_err c cs w s a = record {
    skipped = [];
    last = c;
    rest = cs;
    parts = refl;
    failed = rw a none_skipped;
    final = rw a tt;
    result = rw a refl;
  }

  go_on_eq :
      (n i : ℕ) (last_err : Option BridgeError) (c d : Resolved) (ds : List Resolved) (w : Watched)
      (e : BridgeError)
      → ask json_f32 post has_pool req i c ≡ err e
      → (is_retryable e && ltb (i + 1) n) ≡ true
      → try_from json_f32 post has_pool req n i last_err (c ∷ d ∷ ds) w
        ≡ try_from json_f32 post has_pool req n
            (i + 1)
            (some e)
            (d ∷ ds)
            (mark_degraded has_pool c e w)
  unfolding try_from
  go_on_eq n i last_err c d ds w e a on = rw (a, on) refl

  -- The loop goes on after a retryable error with a candidate left.
  go_on :
      (n i : ℕ) (last_err : Option BridgeError) (c d : Resolved) (ds : List Resolved) (w : Watched)
      (e : BridgeError)
      → n ≡ i + suc (suc (length ds))
      → ask json_f32 post has_pool req i c ≡ err e
      → is_retryable e ≡ true
      → (let w' = mark_degraded has_pool c e w in
          Stop
            (i + 1)
            (d ∷ ds)
            w'
            (try_from json_f32 post has_pool req n (i + 1) (some e) (d ∷ ds) w'))
      → Stop i (c ∷ d ∷ ds) w (try_from json_f32 post has_pool req n i last_err (c ∷ d ∷ ds) w)
  go_on n i last_err c d ds w e h a r ih =
      let on = goes_on n i e (length ds) h r in
      let same = go_on_eq n i last_err c d ds w e a on in
      record {
        skipped = c ∷ ih.skipped;
        last = ih.last;
        rest = ih.rest;
        parts = ap (λ l. c ∷ l) ih.parts;
        failed = skip e a r (
            subst (λ o. Skipped (i + 1) ih.skipped (mark_degraded has_pool c e w) o.1) (sym same)
              ih.failed);
        final = ih.final;
        result = ap (λ o. o.0) same ∙ ih.result;
      }

  try_from-Stop :
      (n i : ℕ) (last_err : Option BridgeError) (c : Resolved) (cs : List Resolved) (w : Watched)
      → n ≡ i + suc (length cs)
      → Stop i (c ∷ cs) w (try_from json_f32 post has_pool req n i last_err (c ∷ cs) w)
  try_from-Stop n i last_err c [] w h = elim (Result-cases (ask json_f32 post has_pool req i c)) [
    | inl (s, a) ↦ answers n i last_err c [] w s a
    | inr (e, a) ↦ fails_at n i last_err c [] w e h a (ground arith)
  ]
  try_from-Stop n i last_err c (d ∷ ds) w h =
      elim (Result-cases (ask json_f32 post has_pool req i c)) [
        | inl (s, a) ↦ answers n i last_err c (d ∷ ds) w s a
        | inr (e, a) ↦ elim (Bool-cases (is_retryable e)) [
          | inl r ↦ go_on n i last_err c d ds w e h a r (
              try_from-Stop n (i + 1) (some e) d ds (mark_degraded has_pool c e w)
                (omega (arith, h)))
          | inr r ↦ fails_at n i last_err c (d ∷ ds) w e h a (rw r refl)
        ]
      ]

  -- A call with candidates asks them in order. It stops at the first one that answers, or whose
  -- error is not retryable, or that is the last; its answer is the result. Every candidate before
  -- it failed with a retryable error and was marked, and nothing else was.
  pub call_upstream-Stop :
      (c : Resolved) (cs : List Resolved) (w : Watched)
      → Stop 0 (c ∷ cs) w (call_upstream json_f32 post has_pool req (c ∷ cs) w)
  unfolding call_upstream
  call_upstream-Stop c cs w = try_from-Stop (length (c ∷ cs)) 0 none c cs w (omega arith)
