-- ===== src/Store/Tables.antt =====
-- The statements of src/store.rs as functions on the tables. A primary key or a foreign key that a
-- statement would break makes it fail; other failures of the database are not modelled.
use ai_api_bridge.Prelude.{
  ℕ, ◌+◌, String, Bool, not, Option, none, some, List, [], ◌∷◌, ◌++◌, map, is_empty, if◌then◌else◌,
  unwrap_or, nat_eq, ◌==◌, string_eq, ℤ, ltb_ℤ, leb_ℤ,
}
use mathlib.Core.Option
use ai_api_bridge.Config.{Float64, Dict, find, Provider, RouteTarget, Route, Config}
use ai_api_bridge.Router.{ProviderStatus}
use ai_api_bridge.Table.{has, select, update, delete, count}
use ai_api_bridge.Store.{
  Attempt, done, failed, ◌>>=◌, Codecs, ProviderRow, RouteRow, StatusRow, UsageRow, Database,
  provider_row, row_to_provider, route_row, row_to_route, status_row, row_to_status,
}

abbrev pub name_of : ProviderRow → String
name_of r = r.name

abbrev pub alias_of : RouteRow → String
alias_of r = r.alias

abbrev pub route_provider : RouteRow → String
route_provider r = r.provider

abbrev pub status_of : StatusRow → String
status_of r = r.provider

-- `HashMap::insert`
abbrev pub put_entry : {V : Type 0} → String → V → Dict V → Dict V
put_entry k v [] = (k, v) ∷ []
put_entry k v ((j, w) ∷ m) = if j == k then (j, v) ∷ m else (j, w) ∷ put_entry k v m

abbrev pub fallback_route_key : String
fallback_route_key = "fallback_route"

unfoldable pub is_empty_store : Database → Bool
is_empty_store db = is_empty db.providers

-- The cascade takes the statuses with the providers.
unfoldable pub clear : Database → Database
clear db = record db {
  routes = [];
  providers = [];
  statuses = [];
  settings = delete (λ e. e.0) fallback_route_key db.settings;
}

-- A row with the primary key replaces an old one.
abbrev pub save_setting : String → String → Database → Database
save_setting key value db = record db { settings = put_entry key value db.settings }

-- `ON CONFLICT(provider) DO UPDATE`
abbrev pub upsert : String → StatusRow → List StatusRow → List StatusRow
upsert name row rows =
    if has status_of name rows then update status_of name (λ old. row) rows else rows ++ row ∷ []

abbrev pub usage_row : String → ℤ → String → Float64 → UsageRow
usage_row provider ts usage_type amount = record {
  provider = provider;
  ts = ts;
  usage_type = usage_type;
  amount = amount;
}

abbrev pub insert_usage_event : String → ℤ → String → Float64 → Database → Database
insert_usage_event provider ts usage_type amount db = record db {
  usage_events = db.usage_events ++ usage_row provider ts usage_type amount ∷ [];
}

-- The rows with a test, and how many of a list have it.
abbrev pub filter : {A : Type 0} → (A → Bool) → List A → List A
filter p [] = []
filter p (x ∷ xs) = if p x then x ∷ filter p xs else filter p xs

abbrev pub count_of : {A : Type 0} → (A → Bool) → List A → ℕ
count_of p [] = 0
count_of p (x ∷ xs) = (if p x then 1 else 0) + count_of p xs

abbrev pub event_of : UsageRow → String × ℤ × String × Float64
event_of r = (r.provider, r.ts, r.usage_type, r.amount)

-- The order among rows with the same time is the database's.
unfoldable pub load_usage_events :
    (List UsageRow → List UsageRow) → ℤ → Database → List (String × ℤ × String × Float64)
load_usage_events order_by_ts since db =
    map event_of (order_by_ts (filter (λ r. leb_ℤ since r.ts) db.usage_events))

unfoldable pub prune_usage_events : ℤ → Database → ℕ × Database
prune_usage_events before db = (
  count_of (λ r. ltb_ℤ r.ts before) db.usage_events,
  record db { usage_events = filter (λ r. not (ltb_ℤ r.ts before)) db.usage_events },
)

abbrev pub load_rows : List StatusRow → Dict ProviderStatus → Dict ProviderStatus
load_rows [] statuses = statuses
load_rows (r ∷ rows) statuses = load_rows rows (put_entry r.provider (row_to_status r) statuses)

unfoldable pub load_statuses : Database → Dict ProviderStatus
load_statuses db = load_rows db.statuses []

-- `ON DELETE CASCADE` takes the routes and the status of the provider, if there is one.
unfoldable pub delete_provider : String → Database → ℕ × Database
delete_provider name db =
    if has name_of name db.providers
    then (
      count name_of name db.providers,
      record db {
        providers = delete name_of name db.providers;
        routes = delete route_provider name db.routes;
        statuses = delete status_of name db.statuses;
      },
    )
    else (0, db)

unfoldable pub delete_route : String → Database → ℕ × Database
delete_route alias db =
    (count alias_of alias db.routes, record db { routes = delete alias_of alias db.routes })

module _ (json : Codecs) where
  -- With the number of rows affected. The name stays.
  unfoldable pub update_provider : String → Provider → Database → ℕ × Database
  update_provider name p db = (
    count name_of name db.providers,
    record db { providers = update name_of name (λ old. provider_row json name p) db.providers },
  )

  abbrev pub provider_of : Option ProviderRow → Attempt (Option Provider)
  provider_of none = done none
  provider_of (some r) = row_to_provider json r >>= λ p. done (some p)

  unfoldable pub get_provider : String → Database → Attempt (Option Provider)
  get_provider name db = provider_of (select name_of name db.providers)

  -- The alias stays.
  abbrev pub rerouted : String → Route → RouteRow
  rerouted alias r = record (route_row json r) { alias = alias }

  unfoldable pub save_fallback_route : Option RouteTarget → Database → Database
  save_fallback_route fb db = save_setting fallback_route_key (json.target.to_string fb) db

  -- `none` where the key is not there; a value that cannot be read counts as cleared.
  unfoldable pub load_fallback_route : Database → Option (Option RouteTarget)
  load_fallback_route db =
      Option.map (λ v. unwrap_or (json.target.from_str v) none)
        (find fallback_route_key db.settings)

  abbrev pub seed_fallback : Option RouteTarget → Database → Database
  seed_fallback none db = db
  seed_fallback (some fb) db = save_fallback_route (some fb) db

  abbrev pub load_providers : List ProviderRow → Dict Provider → Attempt (Dict Provider)
  load_providers [] providers = done providers
  load_providers (r ∷ rows) providers =
      row_to_provider json r >>= λ p. load_providers rows (put_entry r.name p providers)

  unfoldable pub load_into_config : Database → Config → Attempt Config
  unfolding load_fallback_route
  load_into_config db cfg = do
    providers ← load_providers db.providers []
    done (record cfg {
      providers = providers;
      routes = map (row_to_route json) db.routes;
      fallback_route = unwrap_or (load_fallback_route db) cfg.fallback_route;
    })

  -- `broken` is the driver's text for a key that would be broken.
  module _ (broken : String) where
    unfoldable pub insert_provider : String → Provider → Database → Attempt Database
    insert_provider name p db =
        if has name_of name db.providers
        then failed broken
        else done (record db { providers = db.providers ++ provider_row json name p ∷ [] })

    unfoldable pub insert_route : Route → Database → Attempt Database
    insert_route r db =
        if has alias_of r.alias db.routes
        then failed broken
        else if has name_of r.provider db.providers
        then done (record db { routes = db.routes ++ route_row json r ∷ [] })
        else failed broken

    unfoldable pub update_route : String → Route → Database → Attempt (ℕ × Database)
    update_route alias r db =
        let n = count alias_of alias db.routes in
        if n == 0
        then done (0, db)
        else if has name_of r.provider db.providers
        then done
            (n, record db { routes = update alias_of alias (λ old. rerouted alias r) db.routes })
        else failed broken

    unfoldable pub write_status : String → ProviderStatus → Database → Attempt Database
    write_status provider s db =
        if has name_of provider db.providers
        then done (record db { statuses = upsert provider (status_row provider s) db.statuses })
        else failed broken

    abbrev pub insert_providers : Dict Provider → Database → Attempt Database
    insert_providers [] db = done db
    insert_providers ((name, p) ∷ ps) db = insert_provider name p db >>= insert_providers ps

    abbrev pub insert_routes : List Route → Database → Attempt Database
    insert_routes [] db = done db
    insert_routes (r ∷ rs) db = insert_route r db >>= insert_routes rs

    -- One transaction: a failure leaves the database as it was.
    unfoldable pub seed_from_config : Config → Database → Attempt Database
    unfolding insert_provider insert_route save_fallback_route
    seed_from_config cfg db =
        insert_providers cfg.providers db
        >>= insert_routes cfg.routes
        >>= (λ db'. done (seed_fallback cfg.fallback_route db'))
