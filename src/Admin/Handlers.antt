-- ===== src/Admin/Handlers.antt =====
-- The handlers of src/admin.rs that write: what a request does to the store, and the reload of the
-- runtime state after each write.
use ai_api_bridge.Prelude.{
  String, Bool, true, not, Option, none, some, [], ◌∷◌, ◌==◌, string_eq, nat_eq, any, if◌then◌else◌,
  is_some, push_str,
}
use ai_api_bridge.Json.{Value, null, bool, str, object}
use ai_api_bridge.Error.{
  BridgeError, bad_request, not_found, conflict, internal, Result, ok, err, ◌>>=◌, ok_or,
}
use ai_api_bridge.Config.{RouteTarget, Config}
use ai_api_bridge.Store.{Attempt, done, failed, Codecs, Database}
use ai_api_bridge.Store.Tables as Store
use ai_api_bridge.Server.Auth.{check_auth}
use ai_api_bridge.Server.State.{AppState, reload_from_db}
use ai_api_bridge.Admin.{
  ProviderInput, RouteInput, FallbackRouteInput, non_empty, into_provider, into_route,
  fallback_target,
}

-- `authorization` and `x-api-key`
pub record Headers : Type 0 where
  pub authorization : Option String
  pub x_api_key : Option String

-- `.map_err(internal)?`
abbrev pub or_internal : {A : Type 0} → Attempt A → Result A
or_internal (done a) = ok a
or_internal (failed e) = err (internal e)

abbrev pub authorized : Headers → AppState → Result {0} Unit
authorized headers s = check_auth s.config.auth_token headers.authorization headers.x_api_key

-- The database handle.
abbrev pub pool : AppState → Result Database
pool s = ok_or s.database (internal "no database handle")

abbrev pub refuse : Bool → BridgeError → Result {0} Unit
refuse b e = if b then err e else ok tt

abbrev pub has_alias : String → Config → Bool
has_alias alias cfg = any (λ r. r.alias == alias) cfg.routes

abbrev pub no_provider : String → BridgeError
no_provider name = not_found (push_str "no such provider: " name)

abbrev pub no_route : String → BridgeError
no_route alias = not_found (push_str "no such route: " alias)

abbrev pub exists : String → String → String
exists kind name = push_str kind (push_str " '" (push_str name "' already exists"))

abbrev pub target_json : Option RouteTarget → Value
target_json none = null
target_json (some t) = object (("provider", str t.provider) ∷ ("model", str t.model) ∷ [])

abbrev pub answer : Value → Result {0} Unit × AppState → Result Value × AppState
answer v (ok _, s) = (ok v, s)
answer v (err e, s) = (err e, s)

-- What a write leaves and answers.
abbrev pub Written : Type 0
Written = Result (Database × Value)

module _ (json : Codecs) (broken : String) where
  unfoldable pub create_provider : ProviderInput → Headers → AppState → Written
  unfolding into_provider non_empty
  create_provider input headers s = do
    _ ← authorized headers s
    db ← pool s
    name ← ok_or (non_empty input.name) (bad_request "name is required")
    existing ← or_internal (Store.get_provider json name db)
    _ ← refuse (is_some existing) (conflict (exists "provider" name))
    provider ← into_provider input none
    written ← or_internal (Store.insert_provider json broken name provider db)
    ok (written, object (("ok", bool true) ∷ ("name", str name) ∷ []))

  unfoldable pub update_provider : String → ProviderInput → Headers → AppState → Written
  unfolding into_provider
  update_provider name input headers s = do
    _ ← authorized headers s
    db ← pool s
    found ← or_internal (Store.get_provider json name db)
    existing ← ok_or found (no_provider name)
    provider ← into_provider input existing.api_key
    ok (
      (Store.update_provider json name provider db).1,
      object (("ok", bool true) ∷ ("name", str name) ∷ []),
    )

  unfoldable pub delete_provider : String → Headers → AppState → Written
  delete_provider name headers s = do
    _ ← authorized headers s
    db ← pool s
    _ ← refuse ((Store.delete_provider name db).0 == 0) (no_provider name)
    ok ((Store.delete_provider name db).1, object (("ok", bool true) ∷ []))

  unfoldable pub create_route : RouteInput → Headers → AppState → Written
  unfolding into_route non_empty
  create_route input headers s = do
    _ ← authorized headers s
    db ← pool s
    alias ← ok_or (non_empty input.alias) (bad_request "alias is required")
    _ ← refuse (has_alias alias s.config) (conflict (exists "route" alias))
    route ← into_route input alias s.config.providers
    written ← or_internal (Store.insert_route json broken route db)
    ok (written, object (("ok", bool true) ∷ ("alias", str alias) ∷ []))

  unfoldable pub update_route : String → RouteInput → Headers → AppState → Written
  unfolding into_route
  update_route alias input headers s = do
    _ ← authorized headers s
    db ← pool s
    _ ← refuse (not (has_alias alias s.config)) (no_route alias)
    route ← into_route input alias s.config.providers
    written ← or_internal (Store.update_route json broken alias route db)
    ok (written.1, object (("ok", bool true) ∷ ("alias", str alias) ∷ []))

  unfoldable pub delete_route : String → Headers → AppState → Written
  delete_route alias headers s = do
    _ ← authorized headers s
    db ← pool s
    _ ← refuse ((Store.delete_route alias db).0 == 0) (no_route alias)
    ok ((Store.delete_route alias db).1, object (("ok", bool true) ∷ []))

  unfoldable pub set_fallback_route : FallbackRouteInput → Headers → AppState → Written
  unfolding non_empty
  set_fallback_route input headers s = do
    _ ← authorized headers s
    db ← pool s
    target ← fallback_target s.config.providers (non_empty input.provider) (non_empty input.model)
    ok (
      Store.save_fallback_route json target db,
      object (("ok", bool true) ∷ ("fallback_route", target_json target) ∷ []),
    )

-- The requests that write to the store.
pub data AdminWrite : Type 0 where
  post_provider : ProviderInput → AdminWrite
  put_provider : String → ProviderInput → AdminWrite
  remove_provider : String → AdminWrite
  post_route : RouteInput → AdminWrite
  put_route : String → RouteInput → AdminWrite
  remove_route : String → AdminWrite
  put_fallback : FallbackRouteInput → AdminWrite

module _ (to_uppercase : String → String) (var : String → Option String) (json : Codecs)
    (broken : String) where
  abbrev pub written : AdminWrite → Headers → AppState → Written
  written (post_provider input) = create_provider json broken input
  written (put_provider name input) = update_provider json broken name input
  written (remove_provider name) = delete_provider json broken name
  written (post_route input) = create_route json broken input
  written (put_route alias input) = update_route json broken alias input
  written (remove_route alias) = delete_route json broken alias
  written (put_fallback input) = set_fallback_route json broken input

  -- Every write is followed by a reload.
  abbrev pub commit : AppState → Written → Result Value × AppState
  commit s (err e) = (err e, s)
  commit s (ok (db, v)) =
      answer v (reload_from_db to_uppercase var json (record s { database = some db }))

  -- The `/admin/api` requests of `build_app` in src/server.rs that write.
  unfoldable pub handle : AdminWrite → Headers → AppState → Result Value × AppState
  unfolding reload_from_db
  handle w headers s = commit s (written w headers s)

abbrev pub toggled : Bool → AppState → Result {0} Unit → Result Value × AppState
toggled enabled s (err e) = (err e, s)
toggled enabled s (ok _) = (
  ok (object (("ok", bool true) ∷ ("enabled", bool enabled) ∷ [])),
  record s { usage_on = enabled },
)

-- It changes the runtime state alone.
unfoldable pub set_usage : Bool → Headers → AppState → Result Value × AppState
set_usage enabled headers s = toggled enabled s (authorized headers s)
