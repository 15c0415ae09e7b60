-- ===== src/Server/Views/Secrecy.antt =====
-- What the listings of src/admin.rs and src/server.rs show of the API keys.
use ai_api_bridge.Prelude.{ℤ, String, Option, none, some, [], ◌∷◌, map, is_some, ◌≡◌, refl, ap₂}
use ai_api_bridge.Json.{Value}
use ai_api_bridge.Config.{Float64, Dict, Provider, probe_enabled}
use ai_api_bridge.Usage.{Floats}
use ai_api_bridge.Server.State.{AppState}
use ai_api_bridge.Server.Views.{provider_json, status_json, list_providers, providers_status}
use ai_api_bridge.Admin.Handlers.{Headers}

abbrev pub hidden : Option String → Option String
hidden none = none
hidden (some key) = some ""

abbrev pub hide : String × Provider → String × Provider
hide (name, p) = (name, record p { api_key = hidden p.api_key })

-- The state with every key of a provider blanked.
abbrev pub hide_keys : AppState → AppState
hide_keys s = record s { config = record s.config { providers = map hide s.config.providers } }

is_some-hidden : (o : Option String) → is_some (hidden o) ≡ is_some o
is_some-hidden none = refl
is_some-hidden (some key) = refl

module _ (floats : Floats) (json_f64 : Float64 → Value) (now : ℤ) (s : AppState) where
  provider_json-hide :
      (e : String × Provider)
      → provider_json floats json_f64 now (hide_keys s) (hide e)
        ≡ provider_json floats json_f64 now s e
  unfolding probe_enabled
  provider_json-hide (name, p) = rw (is_some-hidden p.api_key) refl

  status_json-hide :
      (e : String × Provider)
      → status_json floats json_f64 now (hide_keys s) (hide e) ≡ status_json floats json_f64 now s e
  unfolding probe_enabled
  status_json-hide (name, p) = refl

  map-hide :
      (f g : String × Provider → Value)
      → ((e : String × Provider) → f (hide e) ≡ g e)
      → (ps : Dict Provider) → map f (map hide ps) ≡ map g ps
  map-hide f g h [] = refl
  map-hide f g h (e ∷ ps) = ap₂ (λ v vs. v ∷ vs) (h e) (map-hide f g h ps)

  -- The list of providers of the admin interface and the status of providers, which anyone may ask for,
  -- do not depend on the providers' API keys: with every key blanked they are the same.
  pub listings-hide_keys :
      (headers : Headers)
      → (list_providers floats json_f64 now headers (hide_keys s)
          ≡ list_providers floats json_f64 now headers s)
        × (providers_status floats json_f64 now (hide_keys s)
            ≡ providers_status floats json_f64 now s)
  unfolding list_providers providers_status
  listings-hide_keys headers =
      let shown =
        map-hide (provider_json floats json_f64 now (hide_keys s))
          (provider_json floats json_f64 now s) provider_json-hide s.config.providers in
      let statuses =
        map-hide (status_json floats json_f64 now (hide_keys s)) (status_json floats json_f64 now s)
          status_json-hide s.config.providers in
      (rw shown refl, rw statuses refl)
