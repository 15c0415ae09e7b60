-- ===== src/Config/Laws.antt =====
-- The tags and the legacy fields of src/config.rs.
use text.Mathlib.TextEquality.{eq_iff}
use mathlib.Core.Option.{some-injective}
use ai_api_bridge.Prelude.{
  String, Bool-cases, Bool, if◌then◌else◌, ◌==◌, string_eq, ◌∙◌, ap, subst, sym, is_empty, ◌&&◌,
  ◌||◌, not, ◌≡◌, ◌↔◌, refl, none, some, true, false, inl, inr, Option,
}
use ai_api_bridge.Config.{
  WireName, openai_chat, openai_responses, anthropic_messages, wire_as_str, wire_parse, UsageKind,
  billing, count, token, kind_as_str, kind_parse, Provider, normalize_usage,
}
use ai_api_bridge.Canonical.{
  ReasoningEffort, minimal, low, medium, high, xhigh, as_str, from_str_opt,
}

pub kind_printed : (k : UsageKind) → kind_parse (kind_as_str k) ≡ some k
unfolding kind_parse kind_as_str
kind_printed billing = refl
kind_printed count = refl
kind_printed token = refl

effort_printed : (k : ReasoningEffort) → from_str_opt (as_str k) ≡ some k
unfolding from_str_opt as_str
effort_printed minimal = refl
effort_printed low = refl
effort_printed medium = refl
effort_printed high = refl
effort_printed xhigh = refl

wire_printed : (k : WireName) → wire_parse (wire_as_str k) ≡ some k
unfolding wire_parse wire_as_str
wire_printed openai_chat = refl
wire_printed openai_responses = refl
wire_printed anthropic_messages = refl

-- One test of a reader: where a text that passes it is read as a value with that tag, and the
-- tests after it read a text by its tag, so does the reader.
read_step :
    {A : Type 0} (f : A → String) (s : String) (a k : A) (later : Option A) (b : Bool)
    → ((b ≡ true) → s ≡ f a)
    → (later ≡ some k → s ≡ f k)
    → (if b then some a else later) ≡ some k
    → s ≡ f k
read_step f s a k later true same ih h = same refl ∙ ap f (some-injective a k h)
read_step f s a k later false same ih h = ih h

kind_read : (s : String) (k : UsageKind) → kind_parse s ≡ some k → s ≡ kind_as_str k
unfolding kind_parse kind_as_str
kind_read s k = read_step kind_as_str s billing k _ (s == "billing") ((eq_iff s "billing").0) (
    read_step kind_as_str s count k _ (s == "count") ((eq_iff s "count").0)
      (read_step kind_as_str s token k none (s == "token") ((eq_iff s "token").0) (λ h. cc)))

effort_read : (s : String) (k : ReasoningEffort) → from_str_opt s ≡ some k → s ≡ as_str k
unfolding from_str_opt as_str
effort_read s k = read_step as_str s minimal k _ (s == "minimal") ((eq_iff s "minimal").0) (
    read_step as_str s low k _ (s == "low") ((eq_iff s "low").0) (
      read_step as_str s medium k _ (s == "medium") ((eq_iff s "medium").0) (
        read_step as_str s high k _ (s == "high") ((eq_iff s "high").0)
          (read_step as_str s xhigh k none (s == "xhigh") ((eq_iff s "xhigh").0) (λ h. cc)))))

wire_read : (s : String) (k : WireName) → wire_parse s ≡ some k → s ≡ wire_as_str k
unfolding wire_parse wire_as_str
wire_read s k =
    read_step wire_as_str s openai_chat k _ (s == "openai-chat") ((eq_iff s "openai-chat").0) (
      read_step wire_as_str s openai_responses k _ (s == "openai-responses")
        ((eq_iff s "openai-responses").0)
        (read_step wire_as_str s anthropic_messages k none (s == "anthropic-messages")
          ((eq_iff s "anthropic-messages").0) (λ h. cc)))

-- A text is read as a kind of usage exactly when it is the kind's tag.
kind_parse_iff : (s : String) (k : UsageKind) → (kind_parse s ≡ some k) ↔ (s ≡ kind_as_str k)
unfolding kind_parse kind_as_str
kind_parse_iff s k =
    (kind_read s k, λ e. subst (λ t. kind_parse t ≡ some k) (sym e) (kind_printed k))

-- A text is read as a reasoning effort exactly when it is the effort's tag.
effort_iff : (s : String) (e : ReasoningEffort) → (from_str_opt s ≡ some e) ↔ (s ≡ as_str e)
unfolding from_str_opt as_str
effort_iff s k =
    (effort_read s k, λ e. subst (λ t. from_str_opt t ≡ some k) (sym e) (effort_printed k))

-- A text is read as a wire format exactly when it is the format's tag.
wire_iff : (s : String) (w : WireName) → (wire_parse s ≡ some w) ↔ (s ≡ wire_as_str w)
unfolding wire_parse wire_as_str
wire_iff s k = (wire_read s k, λ e. subst (λ t. wire_parse t ≡ some k) (sym e) (wire_printed k))

-- A text is read as a kind of usage, as a reasoning effort and as a wire format exactly when it is the
-- tag of the kind, of the effort and of the format.
tags_iff :
    (s : String) (k : UsageKind) (t : String) (e : ReasoningEffort) (u : String) (w : WireName)
    → ((kind_parse s ≡ some k) ↔ (s ≡ kind_as_str k))
      × ((from_str_opt t ≡ some e) ↔ (t ≡ as_str e))
      × ((wire_parse u ≡ some w) ↔ (u ≡ wire_as_str w))
tags_iff s k t e u w = (kind_parse_iff s k, effort_iff t e, wire_iff u w)

-- A second normalization of a provider's legacy usage fields changes nothing.
normalize_usage_idem : (p : Provider) → normalize_usage (normalize_usage p) ≡ normalize_usage p
unfolding normalize_usage
normalize_usage_idem p =
    elim (Bool-cases
      (is_empty p.usage && (not (is_empty p.cost_windows) || not (is_empty p.model_prices)))) [
        | inl e ↦ rw e refl
        | inr e ↦ rw (e, e) refl
      ]
