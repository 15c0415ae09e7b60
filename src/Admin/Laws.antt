-- ===== src/Admin/Laws.antt =====
-- What the writing requests of src/admin.rs keep: who is refused, what a refused request leaves, and
-- that the runtime state follows the store.
use ai_api_bridge.Prelude.{String, Option, some, nat_eq, ◌≡◌, refl}
use ai_api_bridge.Json.{Value}
use ai_api_bridge.Error.{BridgeError, Result, ok, err}
use ai_api_bridge.Store.{Codecs, Database}
use ai_api_bridge.Server.State.{AppState, retain_known}
use ai_api_bridge.Server.State.Laws.{reload, reload_from_db_lem}
use ai_api_bridge.Admin.Handlers.{
  Headers, authorized, create_provider, update_provider, delete_provider, create_route,
  update_route, delete_route, set_fallback_route, AdminWrite, post_provider, put_provider,
  remove_provider, post_route, put_route, remove_route, put_fallback, written, commit, handle,
}
use ai_api_bridge.Admin.Sound.{
  IsSound, Yields, create_provider-IsSoundWrite, update_provider-IsSoundWrite,
  delete_provider-IsSoundWrite, create_route-IsSoundWrite, update_route-IsSoundWrite,
  delete_route-IsSoundWrite, set_fallback_route-IsSoundWrite,
}

module _ (to_uppercase : String → String) (var : String → Option String) (json : Codecs)
    (broken : String) where
  -- The store is sound, and the runtime state is what a reload of the store gives, but for statuses
  -- of providers that are gone.
  pub record IsSynced (s : AppState) : Type 0 where
    pub store : Database
    pub is_store : s.database ≡ some store
    pub sound : IsSound json broken store
    pub loaded :
        reload to_uppercase var json s
        ≡ (ok tt, record s { status = retain_known s.config.providers s.status })

  written-IsSound :
      (w : AdminWrite) (headers : Headers) (s : AppState)
      → IsSynced s
      → Yields (λ r. IsSound json broken r.0) (written to_uppercase var json broken w headers s)
  written-IsSound (post_provider input) headers s h =
      create_provider-IsSoundWrite json broken headers s h.store h.is_store h.sound input
  written-IsSound (put_provider name input) headers s h =
      update_provider-IsSoundWrite json broken headers s h.store h.is_store h.sound name input
  written-IsSound (remove_provider name) headers s h =
      delete_provider-IsSoundWrite json broken headers s h.store h.is_store h.sound name
  written-IsSound (post_route input) headers s h =
      create_route-IsSoundWrite json broken headers s h.store h.is_store h.sound input
  written-IsSound (put_route alias input) headers s h =
      update_route-IsSoundWrite json broken headers s h.store h.is_store h.sound alias input
  written-IsSound (remove_route alias) headers s h =
      delete_route-IsSoundWrite json broken headers s h.store h.is_store h.sound alias
  written-IsSound (put_fallback input) headers s h =
      set_fallback_route-IsSoundWrite json broken headers s h.store h.is_store h.sound input

  -- What a request answers and leaves.
  abbrev pub Refused : AppState → Result Value × AppState → Type 0
  Refused s (ok v, t) = Unit
  Refused s (err e, t) = t ≡ s

  commit_lem :
      (s : AppState) (r : Result (Database × Value))
      → IsSynced s
      → Yields (λ w. IsSound json broken w.0) r
      → let out = commit to_uppercase var json broken s r in IsSynced out.1 × Refused s out
  commit_lem s (err e) h sound = (h, refl)
  commit_lem s (ok (db, v)) h sound =
      let (t, e, d, again) =
        reload_from_db_lem to_uppercase var json (record s { database = some db }) db refl
          sound.1 in
      rw e (record { store = db; is_store = d; sound = sound; loaded = again }, tt)

  -- Where the keys of the store are right, its providers can be read, and a reload changes nothing but
  -- statuses of providers that are gone, it is so after every writing request.
  pub handle-IsSynced :
      (w : AdminWrite) (headers : Headers) (s : AppState)
      → IsSynced s
      → IsSynced (handle to_uppercase var json broken w headers s).1
  unfolding handle
  handle-IsSynced w headers s h =
      (commit_lem s (written to_uppercase var json broken w headers s) h
        (written-IsSound w headers s h)).0

  -- Where the keys of the store are right, its providers can be read, and a reload changes nothing but
  -- statuses of providers that are gone, a writing request that answers with an error leaves the
  -- store and the runtime state as they were.
  pub handle-Refused :
      (w : AdminWrite) (headers : Headers) (s : AppState)
      → IsSynced s
      → Refused s (handle to_uppercase var json broken w headers s)
  unfolding handle
  handle-Refused w headers s h =
      (commit_lem s (written to_uppercase var json broken w headers s) h
        (written-IsSound w headers s h)).1

  -- A writing request without the token answers with the error of the authorization, and leaves the
  -- state as it was.
  pub handle_unauthorized :
      (w : AdminWrite) (headers : Headers) (s : AppState) (e : BridgeError)
      → authorized headers s ≡ err e
      → handle to_uppercase var json broken w headers s ≡ (err e, s)
  unfolding handle create_provider update_provider delete_provider create_route update_route
      delete_route set_fallback_route
  handle_unauthorized (post_provider input) headers s e h = rw h refl
  handle_unauthorized (put_provider name input) headers s e h = rw h refl
  handle_unauthorized (remove_provider name) headers s e h = rw h refl
  handle_unauthorized (post_route input) headers s e h = rw h refl
  handle_unauthorized (put_route alias input) headers s e h = rw h refl
  handle_unauthorized (remove_route alias) headers s e h = rw h refl
  handle_unauthorized (put_fallback input) headers s e h = rw h refl
