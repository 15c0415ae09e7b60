-- ===== src/Sse/Separator.antt =====
-- `find_separator` of src/sse.rs: where it points, and that bytes which arrive later do not move it.
use ai_api_bridge.Prelude.{
  ℕ, zero, suc, ◌+◌, ◌≤◌, ◌<◌, ◌≡◌, refl, Bool, true, false, ◌||◌, Option, none, some, [], ◌∷◌,
  ◌++◌, ◌⊎◌, inl, inr, arith, length, drop, if◌then◌else◌, Bool-cases,
}
use ai_api_bridge.Sse.{Bytes, at_lf_lf, at_crlf_crlf, shift, find_separator}

-- The choice that one round of the scan makes.
abbrev choose : Bool → Bool → Option (ℕ × ℕ) → Option (ℕ × ℕ)
choose t u later = if t then some (0, 2) else if u then some (0, 4) else shift later

carry :
    (t u : Bool) (later later' : Option (ℕ × ℕ)) (pos sep_len : ℕ)
    → ((p n : ℕ) → later ≡ some (p, n) → later' ≡ some (p, n))
    → choose t u later ≡ some (pos, sep_len)
    → choose t u later' ≡ some (pos, sep_len)
carry true u later later' pos n ih h = h
carry false true later later' pos n ih h = h
carry false false none later' pos n ih h = cc
carry false false (some (p, m)) later' pos n ih h = rw (ih p m refl) h

-- A separator that was found stays the first one when more bytes arrive.
pub find_separator-append :
    (buf more : Bytes) (pos sep_len : ℕ)
    → find_separator buf ≡ some (pos, sep_len)
    → find_separator (buf ++ more) ≡ some (pos, sep_len)
unfolding find_separator
find_separator-append [] more pos n h = cc
find_separator-append (a ∷ []) more pos n h = cc
find_separator-append (a ∷ b ∷ []) more pos n h = ground arith
find_separator-append (a ∷ b ∷ c ∷ []) more pos n h = ground arith
find_separator-append (a ∷ b ∷ c ∷ d ∷ bs) more pos n h =
    carry (at_lf_lf (a ∷ b ∷ c ∷ d ∷ bs)) (at_crlf_crlf (a ∷ b ∷ c ∷ d ∷ bs))
      (find_separator (b ∷ c ∷ d ∷ bs)) (find_separator ((b ∷ c ∷ d ∷ bs) ++ more)) pos n
      (find_separator-append (b ∷ c ∷ d ∷ bs) more) h

-- A separator of the length `n` stands at the head.
abbrev pub Starts : Bytes → ℕ → Type 0
Starts bs n = ((at_lf_lf bs ≡ true) × (n ≡ 2)) ⊎ ((at_crlf_crlf bs ≡ true) × (n ≡ 4))

abbrev pub starts_separator : Bytes → Bool
starts_separator bs = at_lf_lf bs || at_crlf_crlf bs

-- What the scan may return.
abbrev pub IsFirst : Bytes → Option (ℕ × ℕ) → Type 0
IsFirst buf none = (q : ℕ) → starts_separator (drop q buf) ≡ false
IsFirst buf (some (pos, n)) =
    Starts (drop pos buf) n × ((q : ℕ) → q < pos → starts_separator (drop q buf) ≡ false)

IsFirst-cons :
    (b : ℕ) (bs : Bytes) (later : Option (ℕ × ℕ))
    → IsFirst bs later
    → at_lf_lf (b ∷ bs) ≡ false
    → at_crlf_crlf (b ∷ bs) ≡ false
    → IsFirst (b ∷ bs) (shift later)
IsFirst-cons b bs none h t u = λ q. go q
  where
    go : (q : ℕ) → starts_separator (drop q (b ∷ bs)) ≡ false
    go zero = rw (t, u)
    go (suc q) = h q
IsFirst-cons b bs (some (p, n)) (s, h) t u = (s, λ q. go q)
  where
    go : (q : ℕ) → q < suc p → starts_separator (drop q (b ∷ bs)) ≡ false
    go zero lt = rw (t, u)
    go (suc q) lt = h q (omega arith)

nowhere : (q : ℕ) → starts_separator (drop q []) ≡ false
nowhere zero = refl
nowhere (suc q) = refl

-- The result is the first place where a separator starts, with the separator's length; without a
-- result a separator starts nowhere.
pub find_separator-IsFirst : (buf : Bytes) → IsFirst buf (find_separator buf)
unfolding find_separator
find_separator-IsFirst [] = nowhere
find_separator-IsFirst (b ∷ bs) = elim (Bool-cases (at_lf_lf (b ∷ bs))) [
  | inl t ↦ rw t (inl (t, refl), λ q lt. elim lt [ ])
  | inr t ↦ elim (Bool-cases (at_crlf_crlf (b ∷ bs))) [
    | inl u ↦ rw (t, u) (inr (u, refl), λ q lt. elim lt [ ])
    | inr u ↦ rw (t, u) (IsFirst-cons b bs (find_separator bs) (find_separator-IsFirst bs) t u)
  ]
]

-- The separator lies in the buffer and is not empty.
pub find_separator_bounds :
    (buf : Bytes) (pos sep_len : ℕ)
    → find_separator buf ≡ some (pos, sep_len)
    → (pos + sep_len ≤ length buf) × (0 < sep_len)
unfolding find_separator
find_separator_bounds [] pos n h = cc
find_separator_bounds (a ∷ []) pos n h = cc
find_separator_bounds (a ∷ b ∷ []) pos n h = ground arith
find_separator_bounds (a ∷ b ∷ c ∷ []) pos n h = ground arith
find_separator_bounds (a ∷ b ∷ c ∷ d ∷ bs) pos n h =
    bound (at_lf_lf (a ∷ b ∷ c ∷ d ∷ bs)) (at_crlf_crlf (a ∷ b ∷ c ∷ d ∷ bs))
      (find_separator (b ∷ c ∷ d ∷ bs)) h (find_separator_bounds (b ∷ c ∷ d ∷ bs))
  where
    bound :
        (t u : Bool) (later : Option (ℕ × ℕ))
        → choose t u later ≡ some (pos, n)
        → ((p m : ℕ) → later ≡ some (p, m) → (p + m ≤ suc (suc (suc (length bs)))) × (0 < m))
        → (pos + n ≤ suc (suc (suc (suc (length bs))))) × (0 < n)
    bound true u later e ih = ground arith
    bound false true later e ih = ground arith
    bound false false none e ih = cc
    bound false false (some (p, m)) e ih = ground (arith, ih p m refl)
