-- ===== src/Evaluate.antt =====
-- internal/alerts/evaluator.go: the evaluation of the sources, which opens an alert for every silent
-- source and resolves those of the others. Opened and resolved alerts are committed one by one, so an
-- error leaves what came before it.
pub mod Silence
pub mod Runs
use traceboard.Prelude.{
  ℕ, ◌+◌, ◌-◌, ◌*◌, String, Bool, true, false, Option, none, some, List, [], ◌∷◌, ◌++◌, ◌==◌, ◌||◌,
  not, is_none, ltb, if◌then◌else◌,
}
use traceboard.Event.{Instant}
use traceboard.Event.Mode.{off}
use traceboard.Store.{Db, AlertRow, Result, ok, err, StoreError}
use traceboard.Store.Alerts.{open_alert, resolve_alerts}
use traceboard.Store.Sources.{Source, list_sources}

-- TypeSourceOffline
abbrev pub type_source_offline : String
type_source_offline = "source_disconnected"

-- The fields of `Config` that the sources' part reads, and whether there is a notifier.
pub record Config : Type 0 where
  pub heartbeat_interval : ℕ
  pub missed_heartbeats : ℕ
  pub notifiable : Bool
  pub has_notifier : Bool

-- What a pass leaves: its error, the alerts that it notified of, and the database.
pub record Pass : Type 0 where
  pub error : Option StoreError
  pub notified : List AlertRow
  pub db : Db

-- notify: the alerts that are sent.
unfoldable pub notify : Config → AlertRow → Bool → List AlertRow
notify config alert created =
    if (not created || not config.has_notifier)
      || (not config.notifiable || not (is_none alert.acknowledged_at))
    then []
    else alert ∷ []

-- `message` is the text that fmt.Sprintf makes of the name and the number of heartbeats.
module _ (message : String → ℕ → String) (config : Config) where
  abbrev pub offline_alert : Source → AlertRow
  offline_alert source = record {
    id = "";
    run_id = none;
    source = some source.name;
    type = type_source_offline;
    message = message source.name config.missed_heartbeats;
    created_at = 0;
    acknowledged_at = none;
    resolved_at = none;
  }

  abbrev pub deadline : Instant → Instant
  deadline now = now - config.missed_heartbeats * config.heartbeat_interval

  unfoldable pub opened_pass : Db → Result ((AlertRow × Bool) × Db) → Pass
  unfolding notify
  opened_pass db (err e) = record { error = some e; notified = []; db = db }
  opened_pass db (ok ((alert, created), after)) = record {
    error = none;
    notified = notify config alert created;
    db = after;
  }

  unfoldable pub evaluate_heartbeat : Instant → Instant → Source → Db → Option Instant → Pass
  unfolding opened_pass
  evaluate_heartbeat now store_now source db none = record { error = none; notified = []; db = db }
  evaluate_heartbeat now store_now source db (some at) =
      if ltb (deadline now) at
      then record {
        error = none;
        notified = [];
        db = (resolve_alerts type_source_offline none (some source.name) now db).1;
      }
      else opened_pass db (open_alert store_now (offline_alert source) db)

  -- One round of the loop of `evaluateSources`; `store_now` is the clock of the store.
  unfoldable pub evaluate_source : Instant → Instant → Source → Db → Pass
  unfolding evaluate_heartbeat
  evaluate_source now store_now source db =
      if source.capture_mode == off
      then record { error = none; notified = []; db = db }
      else evaluate_heartbeat now store_now source db source.last_heartbeat_at

  abbrev pub next_pass : Pass → (Db → Pass) → Pass
  next_pass pass rest = elim pass.error [
    | some e ↦ pass
    | none ↦ record {
      error = (rest pass.db).error;
      notified = pass.notified ++ (rest pass.db).notified;
      db = (rest pass.db).db;
    }
  ]

  unfoldable pub evaluate_loop : Instant → Instant → List Source → Db → Pass
  unfolding evaluate_source
  evaluate_loop now store_now [] db = record { error = none; notified = []; db = db }
  evaluate_loop now store_now (source ∷ rest) db =
      next_pass (evaluate_source now store_now source db) (evaluate_loop now store_now rest)

  -- evaluateSources
  unfoldable pub evaluate_sources : Instant → Instant → Db → Pass
  unfolding evaluate_loop list_sources
  evaluate_sources now store_now db = evaluate_loop now store_now (list_sources db) db
