-- ===== src/Prelude/Texts.antt =====
-- Native texts, under names that do not clash with the list operations.
use Prim.Native.String.{String}
use mathlib.Core.Path.{◌≡◌}
use mathlib.Core.Bool.{Bool, true}
use text.Mathlib.TextEquality.{eq_iff}
use text.Mathlib.TextLemmas
use ai_api_bridge.Prelude.Tests.{◌==◌, string_eq}

-- `s.push_str(t)`, `format!("{s}{t}")`
abbrev pub push_str : String → String → String
push_str s t = Prim.Native.String.◌++◌ s t

-- `s.is_empty()`
abbrev pub is_blank : String → Bool
is_blank s = s == ""

pub push_str_assoc : (s t u : String) → push_str (push_str s t) u ≡ push_str s (push_str t u)
push_str_assoc s t u = TextLemmas.append_assoc s t u

pub push_str-blank : (s : String) → push_str s "" ≡ s
push_str-blank s = TextLemmas.append-nil s

pub blank-push_str : (s : String) → push_str "" s ≡ s
blank-push_str s = TextLemmas.nil-append s

pub eq_of_is_blank : (s : String) → is_blank s ≡ true → s ≡ ""
eq_of_is_blank s h = (eq_iff s "").0 h
