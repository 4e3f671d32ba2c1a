-- ===== src/Evaluate/Silence.antt =====
-- A silent source through the passes of internal/alerts/evaluator.go.
use traceboard.Prelude.{
  ℕ, ◌≤◌, ◌-◌, ◌*◌, ◌<◌, ◌≢◌, String, Bool, true, false, none, some, List, [], ◌∷◌, ◌==◌, ◌≡◌, refl,
  ap, ◌∙◌, arith, le→ltb, lt→ltb,
}
use traceboard.Event.{Instant}
use traceboard.Event.Mode.{off}
use traceboard.Store.{Db, AlertRow, ok, err, constraint}
use traceboard.Store.Alerts.{open_alert, resolve_alerts, same_key, is_open_key, is_resolvable}
use traceboard.Store.Alerts.Opening.{open_alert_again}
use traceboard.Store.Alerts.Reopening.{reopening_after}
use traceboard.Store.Sources.{Source}
use traceboard.Evaluate.{
  Config, Pass, offline_alert, deadline, notify, opened_pass, evaluate_heartbeat, evaluate_source,
  evaluate_loop, type_source_offline,
}

module _ (message : String → ℕ → String) (config : Config) where
  -- The source is watched, and its last heartbeat is at or before the deadline.
  pub record IsSilent (now : Instant) (source : Source) : Type 0 where
    pub watched : (source.capture_mode == off) ≡ false
    pub at : Instant
    pub last : source.last_heartbeat_at ≡ some at
    pub missed : at ≤ now - config.missed_heartbeats * config.heartbeat_interval

  evaluate-IsSilent :
      (now store_now : Instant) (source : Source) (db : Db)
      → IsSilent now source
      → evaluate_source message config now store_now source db
        ≡ opened_pass message config db
            (open_alert store_now (offline_alert message config source) db)
  unfolding evaluate_source evaluate_heartbeat
  evaluate-IsSilent now store_now source db h =
      rw (h.watched, h.last, le→ltb (deadline message config now) h.at h.missed) refl

  -- A source that stays silent is notified of once: after a pass that has found it silent without an
  -- error, another pass that finds it silent ends without an error, notifies of nothing, and leaves
  -- the database as it is, if the store's clock is not at the creation of the alert.
  pub silent_again :
      (now store_now now' store_now' : Instant) (source : Source) (row : AlertRow) (created : Bool)
      (db after : Db)
      → IsSilent now source
      → IsSilent now' source
      → open_alert store_now (offline_alert message config source) db ≡ ok ((row, created), after)
      → row.created_at ≢ store_now'
      → ((evaluate_source message config now store_now source db).db ≡ after)
        × (evaluate_source message config now' store_now' source after
            ≡ record { error = none; notified = []; db = after })
  unfolding opened_pass notify
  silent_again now store_now now' store_now' source row created db after h h' e other =
      let first = evaluate-IsSilent now store_now source db h in
      let second = evaluate-IsSilent now' store_now' source after h' in
      let again =
        open_alert_again store_now store_now' (offline_alert message config source) row created db
          after e refl other in
      (
        ap Pass.db (first ∙ ap (opened_pass message config db) e),
        second ∙ ap (opened_pass message config after) again,
      )

  reach :
      (source : Source) (x : AlertRow)
      → same_key (offline_alert message config source) x ≡ true
      → is_resolvable type_source_offline none (some source.name) x ≡ true
  unfolding is_open_key is_resolvable
  reach source x h = ground arith

  -- The source is watched, and its last heartbeat is after the deadline.
  pub record IsBack (now : Instant) (source : Source) : Type 0 where
    pub watched : (source.capture_mode == off) ≡ false
    pub at : Instant
    pub last : source.last_heartbeat_at ≡ some at
    pub heard : now - config.missed_heartbeats * config.heartbeat_interval < at

  evaluate-IsBack :
      (now store_now : Instant) (source : Source) (db : Db)
      → IsBack now source
      → (evaluate_source message config now store_now source db).db
        ≡ (resolve_alerts type_source_offline none (some source.name) now db).1
  unfolding evaluate_source evaluate_heartbeat
  evaluate-IsBack now store_now source db h =
      rw (h.watched, h.last, lt→ltb (deadline message config now) h.at h.heard) refl

  offline_alert-name :
      (source source' : Source)
      → source'.name ≡ source.name
      → offline_alert message config source' ≡ offline_alert message config source
  offline_alert-name source source' same = rw same refl

  loop-error :
      (now store_now : Instant) (source : Source) (rest : List Source) (db : Db)
      → IsSilent now source
      → open_alert store_now (offline_alert message config source) db ≡ err (constraint "alerts.id")
      → evaluate_loop message config now store_now (source ∷ rest) db
        ≡ record { error = some (constraint "alerts.id"); notified = []; db = db }
  unfolding evaluate_loop opened_pass
  loop-error now store_now source rest db h e =
      let first = evaluate-IsSilent now store_now source db h in
      ground (arith, first ∙ ap (opened_pass message config db) e)

  -- A source that goes silent a second time stops the evaluation: when a silent source has had its
  -- alert created, was then heard of again and evaluated, and is silent once more, the loop ends at
  -- this source with an error of the primary key, notifies of nothing, and does not come to the
  -- sources after it.
  pub silent_twice :
      (now store_now now' store_now' now'' store_now'' : Instant) (source back again : Source)
      (rest : List Source) (row : AlertRow) (db after : Db)
      → back.name ≡ source.name
      → again.name ≡ source.name
      → open_alert store_now (offline_alert message config source) db ≡ ok ((row, true), after)
      → IsBack now' back
      → IsSilent now'' again
      → evaluate_loop message config now'' store_now''
          (again ∷ rest)
          (evaluate_source message config now' store_now' back after).db
        ≡ record {
          error = some (constraint "alerts.id");
          notified = [];
          db = (evaluate_source message config now' store_now' back after).db;
        }
  silent_twice now store_now now' store_now' now'' store_now'' source back again rest row db after b
        a e h' h'' =
      let resolved : (evaluate_source message config now' store_now' back after).db
          ≡ (resolve_alerts type_source_offline none (some source.name) now' after).1 =
        evaluate-IsBack now' store_now' back after h'
        ∙ ap (λ n. (resolve_alerts type_source_offline none (some n) now' after).1) b in
      let failing =
        reopening_after store_now now' store_now'' (offline_alert message config source) row none
          (some source.name) db after (reach source) e in
      loop-error now'' store_now'' again rest _ h'' (
        ap (open_alert store_now'' _) resolved
        ∙ ap
            (λ alert.
              open_alert store_now'' alert
                (resolve_alerts type_source_offline none (some source.name) now' after).1)
            (offline_alert-name source again a)
        ∙ failing)
