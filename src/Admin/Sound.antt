-- ===== src/Admin/Sound.antt =====
-- Every writing request of src/admin.rs that is not refused leaves a sound store.
use ai_api_bridge.Prelude.{
  String, not, none, some, [], ◌∷◌, ◌==◌, nat_eq, is_some, ◌≡◌, refl, sym, subst, Bool-cases, inl,
  inr, All, All-append,
}
use ai_api_bridge.Json.{Value}
use ai_api_bridge.Error.{bad_request, conflict, Result, ok, err, ◌>>=◌, ok_or}
use ai_api_bridge.Config.{Provider, Route, normalize_usage}
use ai_api_bridge.Table.{has}
use ai_api_bridge.Store.{
  Attempt, done, failed, Codecs, Database, provider_row, row_to_provider, read_row,
}
use ai_api_bridge.Store.Tables as Store
use ai_api_bridge.Store.Rows.{wire_back}
use ai_api_bridge.Store.Integrity.{
  IsConsistent, Gives, All-update, All-delete, insert_provider_keys, update_provider_keys,
  delete_provider_keys,
}
use ai_api_bridge.Store.Writes.{
  insert_route_keys, update_route_keys, delete_route_keys, save_fallback_route_keys,
}
use ai_api_bridge.Store.Refinement.{SameProviders, same-insert_route, same-update_route}
use ai_api_bridge.Server.State.{AppState}
use ai_api_bridge.Server.State.Laws.{IsReadable, AllReadable}
use ai_api_bridge.Admin.{
  ProviderInput, RouteInput, FallbackRouteInput, non_empty, into_provider, into_route,
  fallback_target,
}
use ai_api_bridge.Admin.Handlers.{
  Headers, refuse, exists, no_provider, no_route, has_alias, or_internal, authorized,
  create_provider, update_provider, delete_provider, create_route, update_route, delete_route,
  set_fallback_route,
}

-- A property of every result that is not an error.
abbrev pub Yields : {A : Type 0} → (A → Type 0) → Result A → Type 0
Yields P (ok a) = P a
Yields P (err e) = Unit

pub after_result :
    {A B : Type 0} (P : A → Type 0) (Q : B → Type 0) (a : Result A) (k : A → Result B)
    → Yields P a
    → ((x : A) → P x → Yields Q (k x))
    → Yields Q (a >>= k)
after_result P Q (ok a) k h f = f a h
after_result P Q (err e) k h f = tt

-- After a step of which nothing is known.
pub after_step :
    {A B : Type 0} (Q : B → Type 0) (a : Result A) (k : A → Result B)
    → ((x : A) → Yields Q (k x))
    → Yields Q (a >>= k)
after_step Q (ok a) k f = f a
after_step Q (err e) k f = tt

Yields-or_internal :
    {A : Type 0} (P : A → Type 0) (a : Attempt A) → Gives P a → Yields P (or_internal a)
Yields-or_internal P (done a) h = h
Yields-or_internal P (failed e) h = tt

pub both_results :
    {A : Type 0} (P Q : A → Type 0) (a : Attempt A)
    → Gives P a
    → Gives Q a
    → Gives (λ x. P x × Q x) a
both_results P Q (done a) h k = (h, k)
both_results P Q (failed e) h k = tt

result_from :
    {A : Type 0} (P : A → Type 0) {Q : A → Type 0} (a : Attempt A)
    → Gives Q a
    → ((x : A) → Q x → P x)
    → Gives P a
result_from P (done a) h f = f a h
result_from P (failed e) h f = tt

module _ (json : Codecs) (broken : String) where
  -- The keys are right, and every stored provider can be read.
  abbrev pub IsSound : Database → Type 0
  IsSound db = IsConsistent db × AllReadable json db

  provider_row-IsReadable :
      (name : String) (p : Provider) → IsReadable json (provider_row json name p)
  unfolding row_to_provider provider_row
  provider_row-IsReadable name p = (
    normalize_usage (read_row json p.wire (provider_row json name p)),
    rw (wire_back p.wire) refl,
  )

  insert_provider_readable :
      (name : String) (p : Provider) (db : Database)
      → AllReadable json db
      → Gives (AllReadable json) (Store.insert_provider json broken name p db)
  unfolding Store.insert_provider
  insert_provider_readable name p db h = elim (Bool-cases (has Store.name_of name db.providers)) [
    | inl e ↦ rw e tt
    | inr e ↦ rw e (
        All-append (IsReadable json) db.providers (provider_row json name p ∷ []) h
          (provider_row-IsReadable name p, tt))
  ]

  insert_provider-IsSound :
      (name : String) (p : Provider) (db : Database)
      → IsSound db
      → Gives IsSound (Store.insert_provider json broken name p db)
  insert_provider-IsSound name p db (c, h) =
      both_results IsConsistent (AllReadable json) _ (insert_provider_keys json broken name p db c)
        (insert_provider_readable name p db h)

  update_provider-IsSound :
      (name : String) (p : Provider) (db : Database)
      → IsSound db
      → IsSound (Store.update_provider json name p db).1
  unfolding Store.update_provider
  update_provider-IsSound name p db (c, h) = (
    update_provider_keys json broken name p db c,
    All-update Store.name_of (IsReadable json) name (λ old. provider_row json name p) db.providers
        (λ r. provider_row-IsReadable name p) h,
  )

  delete_provider_readable :
      (name : String) (db : Database)
      → AllReadable json db
      → AllReadable json (Store.delete_provider name db).1
  unfolding Store.delete_provider
  delete_provider_readable name db h = elim (Bool-cases (has Store.name_of name db.providers)) [
    | inl e ↦ rw e (All-delete Store.name_of (IsReadable json) name db.providers h)
    | inr e ↦ rw e h
  ]

  same_readable :
      (db db' : Database)
      → SameProviders json broken db db'
      → AllReadable json db
      → AllReadable json db'
  same_readable db db' e h = subst (All (IsReadable json)) (sym e) h

  insert_route-IsSound :
      (r : Route) (db : Database) → IsSound db → Gives IsSound (Store.insert_route json broken r db)
  insert_route-IsSound r db (c, h) =
      both_results IsConsistent (AllReadable json) _ (insert_route_keys json broken r db c) (
        result_from (AllReadable json) _ (same-insert_route json broken r db)
          λ db' e. same_readable db db' e h)

  update_route-IsSound :
      (alias : String) (r : Route) (db : Database)
      → IsSound db
      → Gives (λ u. IsSound u.1) (Store.update_route json broken alias r db)
  update_route-IsSound alias r db (c, h) =
      both_results (λ u. IsConsistent u.1) (λ u. AllReadable json u.1) _
        (update_route_keys json broken alias r db c)
        (result_from (λ u. AllReadable json u.1) (Store.update_route json broken alias r db)
          (same-update_route json broken alias r db) λ u e. same_readable db u.1 e h)

  module _ (headers : Headers) (s : AppState) (db : Database) (d : s.database ≡ some db)
      (sound : IsSound db) where
    abbrev IsSoundWrite : Database × Value → Type 0
    IsSoundWrite w = IsSound w.0

    after :
        {A : Type 0} (a : Result A) (k : A → Result (Database × Value))
        → ((x : A) → Yields IsSoundWrite (k x))
        → Yields IsSoundWrite (a >>= k)
    after a k f = after_step IsSoundWrite a k f

    pub create_provider-IsSoundWrite :
        (input : ProviderInput) → Yields IsSoundWrite (create_provider json broken input headers s)
    unfolding create_provider
    create_provider-IsSoundWrite input = rw d (
        after (authorized headers s) _ λ _.
          after (ok_or (non_empty input.name) (bad_request "name is required")) _ λ name.
            after (or_internal (Store.get_provider json name db)) _ λ existing.
              after (refuse (is_some existing) (conflict (exists "provider" name))) _ λ _.
                after (into_provider input none) _ λ provider.
                  after_result IsSound IsSoundWrite
                    (or_internal (Store.insert_provider json broken name provider db)) _
                    (Yields-or_internal IsSound (Store.insert_provider json broken name provider db)
                      (insert_provider-IsSound name provider db sound))
                    λ db' h. h)

    pub update_provider-IsSoundWrite :
        (name : String) (input : ProviderInput)
        → Yields IsSoundWrite (update_provider json broken name input headers s)
    unfolding update_provider
    update_provider-IsSoundWrite name input = rw d (
        after (authorized headers s) _ λ _.
          after (or_internal (Store.get_provider json name db)) _ λ found.
            after (ok_or found (no_provider name)) _ λ existing.
              after (into_provider input existing.api_key) _
                λ provider. update_provider-IsSound name provider db sound)

    pub delete_provider-IsSoundWrite :
        (name : String) → Yields IsSoundWrite (delete_provider json broken name headers s)
    unfolding delete_provider
    delete_provider-IsSoundWrite name = rw d (
        after (authorized headers s) _ λ _.
          after (refuse ((Store.delete_provider name db).0 == 0) (no_provider name)) _ λ _. (
            delete_provider_keys json broken name db sound.0,
            delete_provider_readable name db sound.1,
          ))

    pub create_route-IsSoundWrite :
        (input : RouteInput) → Yields IsSoundWrite (create_route json broken input headers s)
    unfolding create_route
    create_route-IsSoundWrite input = rw d (
        after (authorized headers s) _ λ _.
          after (ok_or (non_empty input.alias) (bad_request "alias is required")) _ λ alias.
            after (refuse (has_alias alias s.config) (conflict (exists "route" alias))) _ λ _.
              after (into_route input alias s.config.providers) _ λ route.
                after_result IsSound IsSoundWrite
                  (or_internal (Store.insert_route json broken route db)) _
                  (Yields-or_internal IsSound (Store.insert_route json broken route db)
                    (insert_route-IsSound route db sound))
                  λ db' h. h)

    pub update_route-IsSoundWrite :
        (alias : String) (input : RouteInput)
        → Yields IsSoundWrite (update_route json broken alias input headers s)
    unfolding update_route
    update_route-IsSoundWrite alias input = rw d (
        after (authorized headers s) _ λ _.
          after (refuse (not (has_alias alias s.config)) (no_route alias)) _ λ _.
            after (into_route input alias s.config.providers) _ λ route.
              after_result (λ u. IsSound u.1) IsSoundWrite
                (or_internal (Store.update_route json broken alias route db)) _
                (Yields-or_internal (λ u. IsSound u.1)
                  (Store.update_route json broken alias route db)
                  (update_route-IsSound alias route db sound))
                λ u h. h)

    pub delete_route-IsSoundWrite :
        (alias : String) → Yields IsSoundWrite (delete_route json broken alias headers s)
    unfolding delete_route Store.delete_route
    delete_route-IsSoundWrite alias = rw d (
        after (authorized headers s) _ λ _.
          after (refuse ((Store.delete_route alias db).0 == 0) (no_route alias)) _
            λ _. (delete_route_keys json broken alias db sound.0, sound.1))

    pub set_fallback_route-IsSoundWrite :
        (input : FallbackRouteInput)
        → Yields IsSoundWrite (set_fallback_route json broken input headers s)
    unfolding set_fallback_route Store.save_fallback_route
    set_fallback_route-IsSoundWrite input = rw d (
        after (authorized headers s) _ λ _.
          after
            (fallback_target s.config.providers (non_empty input.provider) (non_empty input.model))
            _ λ target. (save_fallback_route_keys json broken target db sound.0, sound.1))
