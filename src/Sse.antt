-- ===== src/Sse.antt =====
-- The decoder of server-sent events (src/sse.rs). Bytes are numbers; a decoded text is the list of
-- its code points. `String::from_utf8_lossy` is a parameter: the decoder's behaviour does not
-- depend on which text a block of bytes decodes to.
pub mod Separator
pub mod Laws
use ai_api_bridge.Prelude.{
  ℕ, suc, zero, ◌+◌, Bool, true, false, ◌&&◌, ◌||◌, Option, none, some, List, [], ◌∷◌, ◌++◌, ◌==◌,
  nat_eq, leb, if◌then◌else◌, is_empty, length, take, drop,
}
use mathlib.Core.List.{reverse, foldl}

abbrev pub Bytes : Type 0
Bytes = List ℕ

-- Code points.
abbrev pub Text : Type 0
Text = List ℕ

pub data SseItem : Type 0 where
  payload : Text → SseItem
  done : SseItem

abbrev at_lf_lf : Bytes → Bool
at_lf_lf (a ∷ b ∷ _) = a == b'\n' && b == b'\n'
at_lf_lf _ = false

abbrev at_crlf_crlf : Bytes → Bool
at_crlf_crlf (a ∷ b ∷ c ∷ d ∷ _) = a == b'\r' && b == b'\n' && c == b'\r' && d == b'\n'
at_crlf_crlf _ = false

abbrev shift : Option (ℕ × ℕ) → Option (ℕ × ℕ)
shift none = none
shift (some (pos, sep_len)) = some (suc pos, sep_len)

-- The scan of `find_separator`, over the rest of the buffer.
unfoldable pub find_separator : Bytes → Option (ℕ × ℕ)
find_separator [] = none
find_separator (b ∷ bs) =
    let later = shift (find_separator bs) in
    if at_lf_lf (b ∷ bs) then some (0, 2) else if at_crlf_crlf (b ∷ bs) then some (0, 4) else later

abbrev on_first : ℕ → List Text → List Text
on_first c [] = (c ∷ []) ∷ []
on_first c (line ∷ lines) = (c ∷ line) ∷ lines

-- `split('\n')`
unfoldable pub split_lf : Text → List Text
split_lf [] = [] ∷ []
split_lf (c ∷ cs) = if c == b'\n' then [] ∷ split_lf cs else on_first c (split_lf cs)

-- `strip_suffix('\r').unwrap_or(line)`
unfoldable pub strip_cr : Text → Text
strip_cr [] = []
strip_cr (c ∷ []) = if c == b'\r' then [] else c ∷ []
strip_cr (c ∷ d ∷ cs) = c ∷ strip_cr (d ∷ cs)

unfoldable pub strip_prefix : Text → Text → Option Text
strip_prefix [] line = some line
strip_prefix (p ∷ ps) [] = none
strip_prefix (p ∷ ps) (c ∷ cs) = if p == c then strip_prefix ps cs else none

abbrev pub data_colon : Text
data_colon = b'd' ∷ b'a' ∷ b't' ∷ b'a' ∷ b':' ∷ []

abbrev pub done_mark : Text
done_mark = b'[' ∷ b'D' ∷ b'O' ∷ b'N' ∷ b'E' ∷ b']' ∷ []

-- `char::is_whitespace`, the code points with the property White_Space.
unfoldable pub is_whitespace : ℕ → Bool
is_whitespace c =
    (leb 9 c && leb c 13)
    || c == 0x20
    || c == 0x85
    || c == 0xa0
    || c == 0x1680
    || (leb 0x2000 c && leb c 0x200a)
    || c == 0x2028
    || c == 0x2029
    || c == 0x202f
    || c == 0x205f
    || c == 0x3000

unfoldable pub trim_start : Text → Text
trim_start [] = []
trim_start (c ∷ cs) = if is_whitespace c then trim_start cs else c ∷ cs

unfoldable pub trim : Text → Text
unfolding trim_start is_whitespace
trim cs = reverse (trim_start (reverse (trim_start cs)))

unfoldable pub text_eq : Text → Text → Bool
text_eq [] [] = true
text_eq (c ∷ cs) (d ∷ ds) = c == d && text_eq cs ds
text_eq _ _ = false

-- `strip_prefix(' ').unwrap_or(rest)`
abbrev pub strip_space : Text → Text
strip_space [] = []
strip_space (c ∷ cs) = if c == b' ' then cs else c ∷ cs

-- One round of the loop of `parse_event_block`.
unfoldable pub add_line : Text → Text → Text
unfolding strip_cr strip_prefix
add_line text raw_line = elim (strip_prefix data_colon (strip_cr raw_line)) [
  | none ↦ text
  | some rest ↦ (if is_empty text then text else text ++ b'\n' ∷ []) ++ strip_space rest
]

unfoldable pub parse_event_block : Text → Option SseItem
unfolding split_lf add_line trim text_eq
parse_event_block block =
    let text = foldl add_line [] (split_lf block) in
    if is_empty text
    then none
    else if text_eq (trim text) done_mark
    then some done
    else some (payload text)

abbrev pub push_item : Option SseItem → List SseItem → List SseItem
push_item none later = later
push_item (some item) later = item ∷ later

-- What the decoder returns, and the buffer that it keeps.
pub record Decoded : Type 0 where
  pub found : List SseItem
  pub buf : Bytes

module _ (from_utf8_lossy : Bytes → Text) where
  -- The loop of `push`. Each round takes a separator off the buffer, so its length is fuel enough.
  unfoldable pub drain : ℕ → Bytes → Decoded
  unfolding parse_event_block find_separator
  drain zero buf = record { found = []; buf = buf }
  drain (suc fuel) buf = elim (find_separator buf) [
    | none ↦ record { found = []; buf = buf }
    | some (pos, sep_len) ↦
        let block = from_utf8_lossy (take pos buf) in
        let rest = drain fuel (drop (pos + sep_len) buf) in
        record { found = push_item (parse_event_block block) rest.found; buf = rest.buf }
  ]

  -- The buffer before the call, and the chunk.
  unfoldable pub push : Bytes → Bytes → Decoded
  unfolding drain
  push buf chunk = let all = buf ++ chunk in drain (suc (length all)) all
