-- ===== src/Error.antt =====
-- The errors of the bridge (src/error.rs), and fallible results.
use ai_api_bridge.Prelude.{
  ℕ, String, Option, none, some, unwrap_or, push_str, zero, suc, ◌/◌, ◌%◌, ltb, ◌==◌, nat_eq,
  if◌then◌else◌,
}

pub data BridgeError : Type 0 where
  bad_request not_found conflict unauthorized unknown_model : String → BridgeError
  -- status, message
  upstream : ℕ → String → BridgeError
  upstream_unreachable not_implemented internal : String → BridgeError

pub data Result {ℓ} (A : Type ℓ) : Type ℓ where
  ok : A → Result A
  err : BridgeError → Result A

infixl 5 ◌>>=◌
abbrev pub ◌>>=◌ {ℓ κ} : {A : Type ℓ} {B : Type κ} → Result A → (A → Result B) → Result B
ok a >>= k = k a
err e >>= k = err e

-- `ok_or_else`
abbrev pub ok_or {ℓ} : {A : Type ℓ} → Option A → BridgeError → Result A
ok_or none e = err e
ok_or (some a) e = ok a

abbrev pub digit : ℕ → String
digit n =
    if n == 0
    then "0"
    else if n == 1
    then "1"
    else if n == 2
    then "2"
    else if n == 3
    then "3"
    else if n == 4
    then "4"
    else if n == 5
    then "5"
    else if n == 6
    then "6"
    else if n == 7
    then "7"
    else if n == 8
    then "8"
    else "9"

-- The decimal digits of a number below 10 ^ fuel.
abbrev pub decimal : ℕ → ℕ → String
decimal zero n = ""
decimal (suc fuel) n =
    let rest = decimal fuel (n / 10) in push_str (if ltb n 10 then "" else rest) (digit (n % 10))

-- `to_string`, as the `#[error(..)]` attributes have it; a `u16` has at most five digits.
unfoldable pub to_string : BridgeError → String
to_string (bad_request m) = push_str "bad request: " m
to_string (not_found m) = push_str "not found: " m
to_string (conflict m) = push_str "conflict: " m
to_string (unauthorized m) = push_str "unauthorized: " m
to_string (unknown_model m) = push_str "unknown model: " m
to_string (upstream status m) =
    push_str "upstream error (" (push_str (decimal 5 status) (push_str "): " m))
to_string (upstream_unreachable m) = push_str "upstream unreachable: " m
to_string (not_implemented m) = push_str "not implemented: " m
to_string (internal m) = push_str "internal error: " m

-- `StatusCode::from_u16` is a parameter; it may refuse a status.
unfoldable pub http_status : (ℕ → Option ℕ) → BridgeError → ℕ
http_status from_u16 (bad_request _) = 400
http_status from_u16 (unknown_model _) = 400
http_status from_u16 (not_found _) = 404
http_status from_u16 (conflict _) = 409
http_status from_u16 (unauthorized _) = 401
http_status from_u16 (upstream status _) = unwrap_or (from_u16 status) 502
http_status from_u16 (upstream_unreachable _) = 502
http_status from_u16 (not_implemented _) = 501
http_status from_u16 (internal _) = 500
