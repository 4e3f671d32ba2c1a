-- ===== src/Examples/AlertRuns.antt =====
-- Runs of the alerts: a stalled run whose alert is opened, opened again, resolved, and due again.
use traceboard.Prelude.{
  ℕ, true, false, none, some, [], ◌∷◌, ◌≡◌, ◌≢◌, refl, arith, select, count_rows,
}
use traceboard.Store.{Db, ok, err, constraint, AlertRow}
use traceboard.Store.Alerts.{
  stable_id, is_open_key, with_defaults, insert_alert, oldest, get_alert_by_key, open_alert,
  resolve_alerts,
}
use traceboard.Store.Alerts.Opening.{
  IsSingle, AlertSteps, done, more, opened, resolved, open_alert_again, AlertSteps-IsSingle,
}
use traceboard.Store.Alerts.Reopening.{reopening_fails}
use traceboard.Examples.{after, program}

abbrev stalled : AlertRow
stalled = record {
  id = "";
  run_id = some "run_1";
  source = some "codex";
  type = "run_stalled";
  message = "no events";
  created_at = 0;
  acknowledged_at = none;
  resolved_at = none;
}

abbrev stored_alert : AlertRow
stored_alert = with_defaults 200 stalled

abbrev alerted : Db
alerted = record after { alerts = stored_alert ∷ [] }

alerting : ℕ
unfolding program select count_rows stable_id is_open_key with_defaults insert_alert oldest
    get_alert_by_key open_alert
alerting = 0

stalled_opened : open_alert 200 stalled after ≡ ok ((stored_alert, true), alerted)
unfolding alerting
stalled_opened = refl

later_time : stored_alert.created_at ≢ 300
unfolding alerting
later_time = λ e. absurd (omega (arith, e))

opened_again : open_alert 300 stalled alerted ≡ ok ((stored_alert, false), alerted)
opened_again =
    open_alert_again 200 300 stalled stored_alert true after alerted stalled_opened refl later_time

reopening_fails_example :
    open_alert 500 stalled
      (resolve_alerts "run_stalled" (some "run_1") (some "codex") 400 alerted).1
    ≡ err (constraint "alerts.id")
reopening_fails_example =
    reopening_fails 200 400 500 stalled stored_alert after alerted stalled_opened

after-IsSingle : IsSingle after
unfolding alerting
after-IsSingle = λ type run source. omega arith

abbrev settled : Db
settled = (resolve_alerts "run_stalled" (some "run_1") none 400 alerted).1

steps : AlertSteps after settled
steps =
    more after alerted settled (opened 200 stalled stored_alert true after alerted stalled_opened) (
      more alerted settled settled (resolved "run_stalled" (some "run_1") none 400 alerted)
        (done settled))

AlertSteps-IsSingle_example : IsSingle settled
AlertSteps-IsSingle_example = AlertSteps-IsSingle after settled steps after-IsSingle
