-- ===== src/Store/Writes.antt =====
-- All the writes of src/store.rs, and the keys that a statement of each kind keeps.
use ai_api_bridge.Prelude.{
  String, true, Option, List, [], ◌∷◌, ◌==◌, string_eq, nat_eq, ◌≡◌, refl, Bool-cases, inl, inr,
  All, All-append, ℤ,
}
use ai_api_bridge.Config.{Float64, Provider, RouteTarget, Route, Config}
use ai_api_bridge.Router.{ProviderStatus}
use ai_api_bridge.Table.{keys, has, count}
use ai_api_bridge.Table.Laws.{IsUnique, IsUnique-rows, IsUnique-delete}
use ai_api_bridge.Store.{Attempt, done, ◌>>=◌, Codecs, StatusRow, Database, route_row, status_row}
use ai_api_bridge.Store.Tables.{
  name_of, alias_of, route_provider, status_of, insert_provider, update_provider, delete_provider,
  insert_route, update_route, rerouted, delete_route, write_status, save_fallback_route,
  insert_usage_event, prune_usage_events, clear, seed_from_config,
}
use ai_api_bridge.Store.Integrity.{IsConsistent, Gives, All-update, All-delete, IsUnique-update}

-- A write of the program.
pub data Write : Type 0 where
  put_provider change_provider : String → Provider → Write
  drop_provider : String → Write
  put_route : Route → Write
  change_route : String → Route → Write
  drop_route : String → Write
  put_status : String → ProviderStatus → Write
  put_fallback : Option RouteTarget → Write
  put_usage : String → ℤ → String → Float64 → Write
  drop_usage : ℤ → Write
  wipe : Write
  seed : Config → Write

module _ (json : Codecs) (broken : String) where
  abbrev pub run_write : Write → Database → Attempt Database
  run_write (put_provider name p) db = insert_provider json broken name p db
  run_write (change_provider name p) db = done (update_provider json name p db).1
  run_write (drop_provider name) db = done (delete_provider name db).1
  run_write (put_route r) db = insert_route json broken r db
  run_write (change_route alias r) db = update_route json broken alias r db >>= λ u. done u.1
  run_write (drop_route alias) db = done (delete_route alias db).1
  run_write (put_status name s) db = write_status json broken name s db
  run_write (put_fallback fb) db = done (save_fallback_route json fb db)
  run_write (put_usage p ts kind amount) db = done (insert_usage_event p ts kind amount db)
  run_write (drop_usage before) db = done (prune_usage_events before db).1
  run_write wipe db = done (clear db)
  run_write (seed cfg) db = seed_from_config json broken cfg db

  pub insert_route_keys :
      (r : Route) (db : Database)
      → IsConsistent db
      → Gives IsConsistent (insert_route json broken r db)
  unfolding insert_route
  insert_route_keys r db c = elim (Bool-cases (has alias_of r.alias db.routes)) [
    | inl e ↦ rw e tt
    | inr e ↦ elim (Bool-cases (has name_of r.provider db.providers)) [
      | inl f ↦
          rw (e, f)
            (record {
              names = c.names;
              aliases = IsUnique-rows alias_of db.routes (route_row json r) e c.aliases;
              statuses = c.statuses;
              routed = All-append _ db.routes (route_row json r ∷ []) c.routed (f, tt);
              watched = c.watched;
            })
      | inr f ↦ rw (e, f) tt
    ]
  ]

  pub update_route_keys :
      (alias : String) (r : Route) (db : Database)
      → IsConsistent db
      → Gives (λ u. IsConsistent u.1) (update_route json broken alias r db)
  unfolding update_route
  update_route_keys alias r db c = elim (Bool-cases (count alias_of alias db.routes == 0)) [
    | inl e ↦ rw e c
    | inr e ↦ elim (Bool-cases (has name_of r.provider db.providers)) [
      | inl f ↦
          rw (e, f)
            (record {
              names = c.names;
              aliases =
                  IsUnique-update alias_of alias (λ old. rerouted json alias r) db.routes
                    (λ x. refl) c.aliases;
              statuses = c.statuses;
              routed =
                  All-update alias_of (λ x. has name_of (route_provider x) db.providers ≡ true)
                    alias (λ old. rerouted json alias r) db.routes (λ x. f) c.routed;
              watched = c.watched;
            })
      | inr f ↦ rw (e, f) tt
    ]
  ]

  pub delete_route_keys :
      (alias : String) (db : Database) → IsConsistent db → IsConsistent (delete_route alias db).1
  unfolding delete_route
  delete_route_keys alias db c = record {
    names = c.names;
    aliases = IsUnique-delete alias_of alias_of alias db.routes c.aliases;
    statuses = c.statuses;
    routed =
        All-delete alias_of (λ x. has name_of (route_provider x) db.providers ≡ true) alias
          db.routes c.routed;
    watched = c.watched;
  }

  with_statuses :
      (db : Database)
      → IsConsistent db
      → (rows : List StatusRow) → IsUnique (keys status_of rows)
      → All (λ x. has name_of (status_of x) db.providers ≡ true) rows
      → IsConsistent (record db { statuses = rows })
  with_statuses db c rows u w = record {
    names = c.names;
    aliases = c.aliases;
    statuses = u;
    routed = c.routed;
    watched = w;
  }

  pub write_status_keys :
      (name : String) (s : ProviderStatus) (db : Database)
      → IsConsistent db
      → Gives IsConsistent (write_status json broken name s db)
  unfolding write_status
  write_status_keys name s db c =
      let row = status_row name s in
      elim (Bool-cases (has name_of name db.providers)) [
        | inl e ↦ elim (Bool-cases (has status_of name db.statuses)) [
          | inl f ↦
              rw (e, f)
                (with_statuses db c _
                  (IsUnique-update status_of name (λ old. row) db.statuses (λ x. refl) c.statuses)
                  (All-update status_of (λ x. has name_of (status_of x) db.providers ≡ true) name
                    (λ old. row) db.statuses (λ x. e) c.watched))
          | inr f ↦
              rw (e, f)
                (with_statuses db c _ (IsUnique-rows status_of db.statuses row f c.statuses)
                  (All-append _ db.statuses (row ∷ []) c.watched (e, tt)))
        ]
        | inr e ↦ rw e tt
      ]

  pub save_fallback_route_keys :
      (fb : Option RouteTarget) (db : Database)
      → IsConsistent db
      → IsConsistent (save_fallback_route json fb db)
  unfolding save_fallback_route
  save_fallback_route_keys fb db c = record {
    names = c.names;
    aliases = c.aliases;
    statuses = c.statuses;
    routed = c.routed;
    watched = c.watched;
  }
