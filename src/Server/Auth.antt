-- ===== src/Server/Auth.antt =====
-- `check_auth` of src/server.rs. The headers are the texts under `authorization` and `x-api-key`,
-- where they are there and are visible ASCII.
use Prim.Native.Char.{code}
use text.Mathlib.TextEquality.{Char-path}
use text.Mathlib.TextLemmas
use mathlib.Core.Option.{some-injective}
use Prim.Native.String.{String}
use ai_api_bridge.Prelude.{
  Bool, true, false, ◌||◌, nat_eq, nat_beq_iff, blank-push_str, ap₂, subst, Option, none, some,
  ◌==◌, string_eq, if◌then◌else◌, and_then, ◌≡◌, refl, ◌↔◌, ◌⊎◌, inl, inr, push_str, ap, Bool-cases,
  sym, ◌∙◌,
}
use ai_api_bridge.Error.{unauthorized, Result, ok, err}

-- `s.strip_prefix("Bearer ")`, by the characters of the prefix.
unfoldable pub strip_prefix : String → String → Option String
strip_prefix String.[] s = some s
strip_prefix (String.◌∷◌ c p) String.[] = none
strip_prefix (String.◌∷◌ c p) (String.◌∷◌ d s) =
    let rest = strip_prefix p s in if code c == code d then rest else none

abbrev pub is_token : String → Option String → Bool
is_token expected none = false
is_token expected (some s) = s == expected

abbrev answer : Bool → Result {0} Unit
answer b = if b then ok tt else err (unauthorized "invalid bridge auth token")

unfoldable pub check_auth : Option String → Option String → Option String → Result {0} Unit
unfolding strip_prefix
check_auth none authorization x_api_key = ok tt
check_auth (some expected) authorization x_api_key = answer (
    is_token expected (and_then authorization (strip_prefix "Bearer "))
    || is_token expected x_api_key)

is_token_iff :
    (expected : String) (o : Option String) → (is_token expected o ≡ true) ↔ (o ≡ some expected)
is_token_iff expected none = (λ h. cc, λ h. cc)
is_token_iff expected (some s) = (
  λ h. ap some ((string_eq.decides s expected).0 h),
  λ h. (string_eq.decides s expected).1 (some-injective s expected h),
)

strip_prefix-push_str : (p t : String) → strip_prefix p (push_str p t) ≡ some t
unfolding strip_prefix
strip_prefix-push_str String.[] t = ap some (blank-push_str t)
strip_prefix-push_str (String.◌∷◌ c p) t =
    ap (strip_prefix (String.◌∷◌ c p)) (TextLemmas.cons-append c p t)
    ∙ rw ((nat_beq_iff (code c) (code c)).1 refl) (strip_prefix-push_str p t)

strip_prefix_read : (p s t : String) → strip_prefix p s ≡ some t → s ≡ push_str p t
unfolding strip_prefix
strip_prefix_read String.[] s t h = some-injective s t h ∙ sym (blank-push_str t)
strip_prefix_read (String.◌∷◌ c p) String.[] t h = cc
strip_prefix_read (String.◌∷◌ c p) (String.◌∷◌ d s) t h = elim (Bool-cases (code c == code d)) [
  | inl e ↦
      ap₂ String.◌∷◌ (sym (Char-path c d ((nat_beq_iff (code c) (code d)).0 e)))
        (strip_prefix_read p s t (sym (ap (λ b. if b then strip_prefix p s else none) e) ∙ h))
      ∙ sym (TextLemmas.cons-append c p t)
  | inr e ↦ cc
]

-- `authorization: Bearer <token>`
bearer_iff :
    (authorization : Option String) (expected : String)
    → (and_then authorization (strip_prefix "Bearer ") ≡ some expected)
      ↔ (authorization ≡ some (push_str "Bearer " expected))
bearer_iff none expected = (λ h. cc, λ h. cc)
bearer_iff (some s) expected = (
  λ h. ap some (strip_prefix_read "Bearer " s expected h),
  λ h.
      subst (λ u. strip_prefix "Bearer " u ≡ some expected)
        (sym (some-injective s (push_str "Bearer " expected) h))
        (strip_prefix-push_str "Bearer " expected),
)

passed : (a b : Bool) → a ≡ false → answer (a || b) ≡ ok tt → b ≡ true
passed true b e h = cc
passed false true e h = refl
passed false false e h = cc

either_ok : (a : Bool) → answer (a || true) ≡ ok tt
either_ok true = refl
either_ok false = refl

-- With a token configured a request is let in exactly when `authorization` is `Bearer ` and the
-- token, or `x-api-key` is the token.
pub check_auth_iff :
    (expected : String) (authorization x_api_key : Option String)
    → (check_auth (some expected) authorization x_api_key ≡ ok tt)
      ↔ ((authorization ≡ some (push_str "Bearer " expected)) ⊎ (x_api_key ≡ some expected))
unfolding check_auth
check_auth_iff expected authorization x_api_key =
    let bearer = bearer_iff authorization expected in
    let first = is_token_iff expected (and_then authorization (strip_prefix "Bearer ")) in
    let second = is_token_iff expected x_api_key in
    let bs = is_token expected (and_then authorization (strip_prefix "Bearer ")) in
    (
      λ h. elim (Bool-cases bs) [
        | inl e ↦ inl (bearer.0 (first.0 e))
        | inr e ↦ inr (second.0 (passed bs (is_token expected x_api_key) e h))
      ],
      λ h. elim h [
        | inl e ↦ rw (first.1 (bearer.1 e)) refl
        | inr e ↦ rw (second.1 e) (either_ok bs)
      ],
    )
