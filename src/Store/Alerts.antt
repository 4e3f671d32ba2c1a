-- ===== src/Store/Alerts.antt =====
-- internal/store/alerts.go: the alerts, and the index on the open ones.
-- An alert without an id takes the stable one, and without a creation time the current time.
pub mod Opening
pub mod Reopening
use Prim.Native.String.{◌++◌ as concat}
use traceboard.Prelude.{
  ℕ, ◌+◌, String, Bool, true, false, Option, none, some, List, [], ◌∷◌, ◌++◌, ◌==◌, ◌&&◌, ◌||◌, not,
  eqb, ltb, is_none, select, find_row, exists_row, count_rows, update_rows, if◌then◌else◌,
}
use traceboard.Event.{Instant}
use traceboard.Store.{Db, AlertRow, Result, ok, err, ◌>>=◌, constraint, alert_not_found}
use traceboard.Store.Summary.{nullable}

-- derefOrEmpty, and COALESCE(x, '')
abbrev pub deref_or_empty : Option String → String
deref_or_empty none = ""
deref_or_empty (some s) = s

-- alertStableID
unfoldable pub stable_id : AlertRow → String
stable_id a =
    concat a.type
      (concat ":" (concat (deref_or_empty a.run_id) (concat ":" (deref_or_empty a.source))))

-- The State that `scanAlert` sets.
unfoldable pub alert_state : AlertRow → String
alert_state a =
    if not (is_none a.resolved_at)
    then "resolved"
    else if not (is_none a.acknowledged_at)
    then "acknowledged"
    else "open"

-- The key of the index `ux_alerts_active`, among rows that are not resolved.
unfoldable pub is_open_key : String → String → String → AlertRow → Bool
is_open_key type run source row =
    (row.type == type && deref_or_empty row.run_id == run)
    && (deref_or_empty row.source == source && is_none row.resolved_at)

abbrev pub same_key : AlertRow → AlertRow → Bool
same_key a = is_open_key a.type (deref_or_empty a.run_id) (deref_or_empty a.source)

-- The defaults at the head of `OpenAlert`.
unfoldable pub with_defaults : Instant → AlertRow → AlertRow
with_defaults now a = record a {
  id = if a.id == "" then stable_id a else a.id;
  run_id = nullable (deref_or_empty a.run_id);
  source = nullable (deref_or_empty a.source);
  created_at = if eqb a.created_at 0 then now else a.created_at;
  acknowledged_at = none;
  resolved_at = none;
}

run_exists : Db → Option String → Bool
run_exists db none = true
run_exists db (some r) = exists_row (λ row. row.id == r) db.runs

source_exists : Db → Option String → Bool
source_exists db none = true
source_exists db (some s) = exists_row (λ row. row.name == s) db.sources

-- INSERT … ON CONFLICT (key of the open alerts) DO NOTHING. A conflict with the primary key or a
-- missing run or source is an error.
unfoldable pub insert_alert : AlertRow → Db → Result Db
unfolding run_exists source_exists
insert_alert a db =
    if exists_row (same_key a) db.alerts
    then ok db
    else if exists_row (λ row. row.id == a.id) db.alerts
    then err (constraint "alerts.id")
    else if a.id == "" || a.type == ""
    then err (constraint "alerts check")
    else if run_exists db a.run_id && source_exists db a.source
    then ok (record db { alerts = db.alerts ++ (a ∷ []) })
    else err (constraint "alerts foreign key")

-- ORDER BY created_at LIMIT 1
unfoldable pub oldest : List AlertRow → Option AlertRow
oldest [] = none
oldest (a ∷ rest) = elim (oldest rest) [
  | none ↦ some a
  | some b ↦ if ltb b.created_at a.created_at then some b else some a
]

found_alert : Option AlertRow → Result AlertRow
found_alert none = err alert_not_found
found_alert (some a) = ok a

-- GetAlertByKey
unfoldable pub get_alert_by_key : AlertRow → Db → Result AlertRow
unfolding found_alert
get_alert_by_key a db = found_alert (oldest (select (same_key a) db.alerts))

-- GetAlert
unfoldable pub get_alert : String → Db → Result AlertRow
unfolding found_alert
get_alert id db = found_alert (find_row (λ row. row.id == id) db.alerts)

-- OpenAlert at the time `now`: the open alert of the key, and whether this call created it.
unfoldable pub open_alert : Instant → AlertRow → Db → Result ((AlertRow × Bool) × Db)
open_alert now alert db = do
  let a = with_defaults now alert
  after ← insert_alert a db
  existing ← get_alert_by_key a after
  ok ((existing, existing.id == a.id && eqb existing.created_at a.created_at), after)

-- The condition of the UPDATE of `AcknowledgeAlert`.
unfoldable pub is_acknowledgeable : String → AlertRow → Bool
is_acknowledgeable id row = row.id == id && (is_none row.acknowledged_at && is_none row.resolved_at)

-- AcknowledgeAlert at the time `now`.
unfoldable pub acknowledge_alert : Instant → String → Db → Result (AlertRow × Db)
unfolding is_acknowledgeable
acknowledge_alert now id db = do
  let after = record db {
    alerts =
        update_rows (is_acknowledgeable id) (λ row. record row { acknowledged_at = some now })
          db.alerts;
  }
  a ← get_alert id after
  ok (a, after)

-- The conditions of `ResolveAlerts`: an empty type and a nil run or source match everything.
matches_text : Option String → Option String → Bool
matches_text none column = true
matches_text (some s) column = deref_or_empty column == s

unfoldable pub is_resolvable : String → Option String → Option String → AlertRow → Bool
unfolding matches_text
is_resolvable type run source row =
    is_none row.resolved_at
    && ((type == "" || row.type == type)
        && (matches_text run row.run_id && matches_text source row.source))

-- ResolveAlerts: the number of alerts resolved, and the database.
unfoldable pub resolve_alerts : String → Option String → Option String → Instant → Db → ℕ × Db
resolve_alerts type run source at db = (
  count_rows (is_resolvable type run source) db.alerts,
  record db {
    alerts =
        update_rows (is_resolvable type run source) (λ row. record row { resolved_at = some at })
          db.alerts;
  },
)

-- ResolveAlertsForRun
unfoldable pub resolve_alerts_for_run : String → Instant → Db → ℕ × Db
resolve_alerts_for_run run at db = resolve_alerts "" (some run) none at db
