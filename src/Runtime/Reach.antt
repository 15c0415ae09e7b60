-- ===== src/Runtime/Reach.antt =====
-- Every run of the processes of src/server.rs keeps the runtime state in step with the store.
use ai_api_bridge.Prelude.{
  String, Bool, Option, if◌then◌else◌, refl, sym, subst, Bool-cases, inl, inr,
}
use ai_api_bridge.Error.{Result, ok, err}
use ai_api_bridge.Router.{ProviderStatus}
use ai_api_bridge.Table.{has}
use ai_api_bridge.Store.{done, failed, Codecs, status_row}
use ai_api_bridge.Store.Tables.{name_of, write_status, upsert}
use ai_api_bridge.Store.Integrity.{IsConsistent, Gives}
use ai_api_bridge.Store.Writes.{write_status_keys}
use ai_api_bridge.Server.Failover.{set}
use ai_api_bridge.Server.State.{AppState}
use ai_api_bridge.Server.Handlers.{responses, ledger_of}
use ai_api_bridge.Server.Handlers.Laws.{Keeps, handlers-Keeps}
use ai_api_bridge.Usage.Persistence.{Grown-refl, Grown-record_amounts}
use ai_api_bridge.Admin.Handlers.{set_usage, authorized, toggled}
use ai_api_bridge.Admin.Laws.{IsSynced, handle-IsSynced}
use ai_api_bridge.Probe.{persist, watch_turn, reprobe_turn}
use ai_api_bridge.Runtime.{
  Step, Steps, write, toggle, probe, reprobe, translate, mark, charge, forward, stay, next,
}
use ai_api_bridge.Runtime.Sync.{IsSynced-changed, IsSynced-Grown}

module _ (to_uppercase : String → String) (var : String → Option String) (json : Codecs)
    (broken : String) where
  abbrev Synced : AppState → Type 0
  Synced s = IsSynced to_uppercase var json broken s

  toggled-IsSynced :
      (enabled : Bool) (s : AppState) (r : Result {0} Unit)
      → Synced s
      → Synced (toggled enabled s r).1
  toggled-IsSynced enabled s (err e) h = h
  toggled-IsSynced enabled s (ok _) h =
      subst (λ d. Synced (record s { database = d; usage_on = enabled })) (sym h.is_store)
        (IsSynced-changed to_uppercase var json broken s h h.store.statuses h.store.usage_events
          s.status s.usage enabled h.sound.0)

  probed-IsSynced :
      (name : String) (new : ProviderStatus) (s : AppState)
      → Synced s
      → Synced (record s {
        database = persist json broken name new s.database;
        status = set name new s.status;
      })
  unfolding write_status
  probed-IsSynced name new s h =
      let db = h.store in
      let statuses = set name new s.status in
      let keys = write_status_keys json broken name new db h.sound.0 in
      subst
        (λ d. Synced (record s { database = persist json broken name new d; status = statuses }))
        (sym h.is_store)
        (elim (Bool-cases (has name_of name db.providers)) [
          | inl e ↦ rw e (
              IsSynced-changed to_uppercase var json broken s h
                (upsert name (status_row name new) db.statuses) db.usage_events statuses s.usage
                s.usage_on
                (subst
                  (λ b. Gives IsConsistent (
                    if b
                    then done
                        (record db { statuses = upsert name (status_row name new) db.statuses })
                    else failed broken))
                  e keys))
          | inr e ↦ rw e (
              IsSynced-changed to_uppercase var json broken s h db.statuses db.usage_events statuses
                s.usage s.usage_on h.sound.0)
        ])

  kept-IsSynced : (s t : AppState) → Synced s → Keeps s t → Synced t
  kept-IsSynced s t h (c, g, w, on, off) = IsSynced-Grown to_uppercase var json broken s h t c w g

  -- A step keeps the runtime state in step with the store.
  Step-IsSynced : {s t : AppState} → Step to_uppercase var json broken s t → Synced s → Synced t
  unfolding set_usage watch_turn reprobe_turn
  Step-IsSynced (write w headers s) h = handle-IsSynced to_uppercase var json broken w headers s h
  Step-IsSynced (toggle enabled headers s) h = toggled-IsSynced enabled s (authorized headers s) h
  Step-IsSynced (probe name new s) h = probed-IsSynced name new s h
  Step-IsSynced (reprobe name new s) h = probed-IsSynced name new s h
  Step-IsSynced (translate host format authorization x_api_key body s) h =
      kept-IsSynced s _ h (handlers-Keeps host format authorization x_api_key body s).0
  Step-IsSynced (mark has_pool cand e s) h =
      IsSynced-Grown to_uppercase var json broken s h _ refl refl (Grown-refl s.database)
  Step-IsSynced (charge F provider kinds cost pt ct now s) h =
      IsSynced-Grown to_uppercase var json broken s h _ refl refl
        (Grown-record_amounts F provider kinds cost pt ct now (ledger_of s))
  Step-IsSynced (forward host authorization x_api_key body s) h =
      kept-IsSynced s _ h (handlers-Keeps host (responses host) authorization x_api_key body s).1

  -- From a state in which the keys of the store are right, its providers can be read, and a reload changes
  -- nothing but statuses of providers that are gone, every run of writing requests, of requests of
  -- clients, of marks and charges of requests that are still served, of the switch for usage, of turns
  -- of the watcher and of re-probes, whichever providers they are of, leads to such a state.
  pub Steps-IsSynced :
      {s t : AppState}
      → Steps to_uppercase var json broken s t
      → IsSynced to_uppercase var json broken s
      → IsSynced to_uppercase var json broken t
  Steps-IsSynced (stay s) h = h
  Steps-IsSynced (next step steps) h = Steps-IsSynced steps (Step-IsSynced step h)
