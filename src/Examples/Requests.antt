-- ===== src/Examples/Requests.antt =====
-- Runs of the request side: tool parents, tool schemas, the tags, and the authorization.
use ai_api_bridge.Prelude.{
  String, true, ◌≡◌, ◌↔◌, ◌⊎◌, refl, Option, none, some, List, [], ◌∷◌, is_some, push_str,
}
use ai_api_bridge.Json.{Value, null, str, int, object, get}
use ai_api_bridge.Canonical.{Message, user, tool}
use ai_api_bridge.Error.{ok}
use ai_api_bridge.Chat.Parents.{normalize_tool_parents}
use ai_api_bridge.Chat.Parents.Laws.{
  Parented, Adopted, normalize_tool_parents-Parented, normalize_tool_parents-Adopted,
}
use ai_api_bridge.Chat.Schema.{sanitize_parameters}
use ai_api_bridge.Chat.Schema.Laws.{Clean, sanitize_parameters-Clean, sanitize_parameters_of_Clean}
use ai_api_bridge.Server.Auth.{check_auth, check_auth_iff}

-- Two results of one call, whose assistant message is missing.
abbrev orphans : List Message
orphans = user "q" ∷ tool "call_1" "a" ∷ tool "call_1" "b" ∷ []

normalize_tool_parents-Parented_example : Parented [] (normalize_tool_parents orphans)
normalize_tool_parents-Parented_example = normalize_tool_parents-Parented orphans

normalize_tool_parents-Adopted_example : Adopted orphans (normalize_tool_parents orphans)
normalize_tool_parents-Adopted_example = normalize_tool_parents-Adopted orphans

-- A schema as some clients send it.
abbrev untyped : Value
untyped =
    object (("type", null) ∷ ("properties", object (("x", object (("type", null) ∷ [])) ∷ [])) ∷ [])

sanitize_parameters-Clean_example :
    Clean (sanitize_parameters untyped)
    × (is_some (get "type" (sanitize_parameters untyped)) ≡ true)
sanitize_parameters-Clean_example = sanitize_parameters-Clean untyped

abbrev typed : Value
typed = object (("type", str "object") ∷ ("minimum", int 1) ∷ [])

typed-Clean : Clean typed
unfolding Clean
typed-Clean = (refl, (tt, (tt, tt)))

sanitize_parameters_of_Clean_example : sanitize_parameters typed ≡ typed
sanitize_parameters_of_Clean_example = sanitize_parameters_of_Clean typed typed-Clean refl

abbrev no_key : Option String
no_key = none

abbrev bearer_key : Option String
bearer_key = some "Bearer key"

check_auth_iff_example :
    (check_auth (some "key") bearer_key no_key ≡ ok tt)
    ↔ ((bearer_key ≡ some (push_str "Bearer " "key")) ⊎ (no_key ≡ some "key"))
check_auth_iff_example = check_auth_iff "key" bearer_key no_key
