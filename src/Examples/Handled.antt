-- ===== src/Examples/Handled.antt =====
-- Runs of the request handlers.
use ai_api_bridge.Prelude.{◌≡◌, refl, none, some, pos, [], ◌∷◌, true}
use ai_api_bridge.Json.{Value, str, object}
use ai_api_bridge.Canonical.{bits}
use ai_api_bridge.Error.{unauthorized, err, ok}
use ai_api_bridge.Server.Auth.{check_auth}
use ai_api_bridge.Server.Handlers.{Host, responses, refused, translating_handler, chat_handler}
use ai_api_bridge.Server.Handlers.Laws.{Keeps, handlers-Keeps, handlers_unauthorized}
use ai_api_bridge.Examples.Metering.{whole_numbers}
use ai_api_bridge.Examples.Managed.{running}

-- A network that answers with an empty object, or an empty stream.
abbrev pub host : Host
host = record {
  to_text = λ v. "{}";
  as_f32 = λ n. bits 0;
  json_f32 = λ f. str "0";
  ge = λ a b. true;
  floats = whole_numbers;
  now = pos 0;
  uuid = λ n. "u";
  from_utf8_lossy = λ b. b;
  from_str = λ t. none;
  parse_json = λ s. none;
  post_stream = λ i r v. ok [];
  post_json = λ i r v. ok (object []);
}

abbrev pub hello : Value
hello = object (("model", str "gpt") ∷ ("input", str "hello") ∷ [])

handlers-Keeps_example :
    Keeps running
      (translating_handler host (responses host) none (some "secret") hello running).state
    × Keeps running (chat_handler host none (some "secret") hello running).state
handlers-Keeps_example = handlers-Keeps host (responses host) none (some "secret") hello running

stranger : check_auth (some "secret") none none ≡ err (unauthorized "invalid bridge auth token")
unfolding check_auth
stranger = refl

handlers_unauthorized_example :
    let e = unauthorized "invalid bridge auth token" in
    (translating_handler host (responses host) none none hello running ≡ refused e running)
    × (chat_handler host none none hello running ≡ refused e running)
handlers_unauthorized_example =
    handlers_unauthorized host (responses host) none none hello running
      (unauthorized "invalid bridge auth token") stranger
