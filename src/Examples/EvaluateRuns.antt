-- ===== src/Examples/EvaluateRuns.antt =====
-- Runs of the sources' evaluation: a source that goes silent, stays silent, comes back and goes silent
-- again; and the capture modes that are stored for sources.
use traceboard.Prelude.{
  ℕ, String, true, none, some, [], ◌∷◌, ◌≡◌, ◌≢◌, refl, arith, select, count_rows, find_row,
  exists_row, update_rows,
}
use traceboard.Event.Validate.{is_capture_mode}
use traceboard.Store.{Db, Result, ok, err, constraint, AlertRow, empty_db}
use traceboard.Store.Alerts.{
  stable_id, is_open_key, with_defaults, insert_alert, oldest, get_alert_by_key, open_alert,
}
use traceboard.Store.Sources.{
  Source, upsert_source, ensure_source_exists, set_source_capture_mode, record_heartbeat,
}
use traceboard.Store.Sources.Kept.{stored_mode}
use traceboard.Store.Sources.Kept.Steps.{heard, inserted, SourceStep-mode}
use traceboard.Store.Sources.Kept.Batches.{batch_agrees, prepared_agrees, agrees}
use traceboard.Store.Insert.{insert_events}
use traceboard.Evaluate.{Config, offline_alert, evaluate_source, evaluate_loop}
use traceboard.Evaluate.Silence.{IsSilent, IsBack, silent_again, silent_twice}
use traceboard.Examples.{platform, clock, batch, after, program}

abbrev config : Config
config = record {
  heartbeat_interval = 10;
  missed_heartbeats = 3;
  notifiable = true;
  has_notifier = true;
}

abbrev message : String → ℕ → String
message name n = "silent"

abbrev codex : ℕ → Source
codex at = record {
  name = "codex";
  source_version = "1.0";
  capture_mode = "metadata";
  connected = true;
  last_heartbeat_at = some at;
  run_count = 1;
  quarantine_count = 0;
  created_at = 1;
  updated_at = at;
}

abbrev other : ℕ → Source
other at = record (codex at) { name = "claude" }

abbrev offline : AlertRow
offline = with_defaults 100 (offline_alert message config (codex 10))

abbrev offline_db : Db
offline_db = record after { alerts = offline ∷ [] }

alerting : ℕ
unfolding program select count_rows find_row exists_row update_rows stable_id is_open_key
    with_defaults insert_alert oldest get_alert_by_key open_alert is_capture_mode upsert_source
    ensure_source_exists set_source_capture_mode record_heartbeat stored_mode
alerting = 0

offline_opened :
    open_alert 100 (offline_alert message config (codex 10)) after
    ≡ ok ((offline, true), offline_db)
unfolding alerting
offline_opened = refl

abbrev silent_at_100 : IsSilent message config 100 (codex 10)
silent_at_100 = record { watched = refl; at = 10; last = refl; missed = omega arith }

abbrev silent_at_130 : IsSilent message config 130 (codex 10)
silent_at_130 = record { watched = refl; at = 10; last = refl; missed = omega arith }

abbrev back_at_200 : IsBack message config 200 (codex 190)
back_at_200 = record { watched = refl; at = 190; last = refl; heard = omega arith }

abbrev silent_at_400 : IsSilent message config 400 (codex 190)
silent_at_400 = record { watched = refl; at = 190; last = refl; missed = omega arith }

later_time : offline.created_at ≢ 130
unfolding alerting
later_time = λ e. absurd (omega (arith, e))

silent_again_example :
    ((evaluate_source message config 100 100 (codex 10) after).db ≡ offline_db)
    × (evaluate_source message config 130 130 (codex 10) offline_db
        ≡ record { error = none; notified = []; db = offline_db })
silent_again_example =
    silent_again message config 100 100 130 130 (codex 10) offline true after offline_db
      silent_at_100 silent_at_130 offline_opened later_time

silent_twice_example :
    evaluate_loop message config 400 400
      (codex 190 ∷ other 395 ∷ [])
      (evaluate_source message config 200 200 (codex 190) offline_db).db
    ≡ record {
      error = some (constraint "alerts.id");
      notified = [];
      db = (evaluate_source message config 200 200 (codex 190) offline_db).db;
    }
silent_twice_example =
    silent_twice message config 100 100 200 200 400 400 (codex 10) (codex 190) (codex 190)
      (other 395 ∷ []) offline after offline_db refl refl offline_opened back_at_200 silent_at_400

-- Capture modes

abbrev db_in : Result Db → Db
db_in (ok db) = db
db_in (err e) = empty_db

abbrev detailed_db : Db
detailed_db = db_in (set_source_capture_mode 5 "codex" "detailed" empty_db)

detailed_set : set_source_capture_mode 5 "codex" "detailed" empty_db ≡ ok detailed_db
unfolding alerting
detailed_set = refl

abbrev heard_db : Db
heard_db = db_in (record_heartbeat "codex" 9 detailed_db)

-- The sample batch has the mode metadata, which is stored for its source.
batch_of_mode : batch_agrees platform "codex" "metadata" clock 0 batch ≡ true
unfolding alerting program batch_agrees prepared_agrees agrees
batch_of_mode = refl

metadata_stored : stored_mode "codex" after ≡ some "metadata"
unfolding alerting program
metadata_stored = refl

batch_keeps : stored_mode "codex" (insert_events platform clock batch after).1 ≡ some "metadata"
batch_keeps =
    SourceStep-mode "codex" "metadata" after (insert_events platform clock batch after).1
      (inserted platform clock batch after batch_of_mode) metadata_stored

-- A batch of another mode overwrites the one that is stored.
batch_overwrites :
    stored_mode "codex" (insert_events platform clock batch detailed_db).1 ≡ some "metadata"
unfolding alerting program insert_events
batch_overwrites = refl
