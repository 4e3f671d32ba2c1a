-- ===== src/Store/Alerts/Opening.antt =====
-- What `OpenAlert` of internal/store/alerts.go does to the table of alerts, once and repeated.
use traceboard.Prelude.{
  ◌≤◌, String, Bool, true, false, Option, some, List, [], ◌∷◌, ◌++◌, ◌≡◌, ◌≢◌, refl, ap, subst, ◌∙◌,
  ◌==◌, ◌&&◌, eqb, arith, eq_iff, select, exists_row, count_rows, count_rows-append, update_rows,
  Bool-cases, Option-cases, inl, inr,
}
use traceboard.Event.{Instant}
use traceboard.Store.{Db, AlertRow, ok, >>=-eq-ok}
use traceboard.Store.Alerts.{
  deref_or_empty, is_open_key, same_key, with_defaults, insert_alert, oldest, get_alert_by_key,
  open_alert, acknowledge_alert, resolve_alerts, is_resolvable, is_acknowledgeable, get_alert,
}

-- No key has two open alerts.
abbrev pub IsSingle : Db → Type 0
IsSingle db = (type run source : String) → count_rows (is_open_key type run source) db.alerts ≤ 1

select-nil : (p : AlertRow → Bool) (l : List AlertRow) → exists_row p l ≡ false → select p l ≡ []
unfolding select exists_row
select-nil p [] h = refl
select-nil p (x ∷ rest) h = ground (arith, select-nil p rest)

none_counted :
    (p : AlertRow → Bool) (l : List AlertRow) → exists_row p l ≡ false → count_rows p l ≡ 0
unfolding count_rows exists_row
none_counted p [] h = refl
none_counted p (x ∷ rest) h = ground (arith, none_counted p rest)

oldest_exists :
    (p : AlertRow → Bool) (l : List AlertRow) (a : AlertRow)
    → oldest (select p l) ≡ some a
    → exists_row p l ≡ true
unfolding oldest
oldest_exists p l a e = split (exists_row p l) refl
  where
    split : (b : Bool) → exists_row p l ≡ b → exists_row p l ≡ true
    split true q = q
    split false q =
        let nothing : oldest [] ≡ some a = rw (select-nil p l q) at e in absurd (ground arith)

pub get_alert_by_key-exists :
    (a row : AlertRow) (db : Db)
    → get_alert_by_key a db ≡ ok row
    → exists_row (same_key a) db.alerts ≡ true
unfolding get_alert_by_key
get_alert_by_key-exists a row db e = elim (Option-cases (oldest (select (same_key a) db.alerts))) [
  | inl nothing ↦ absurd (ground arith)
  | inr (found, q) ↦ oldest_exists (same_key a) db.alerts found q
]

-- What a successful call has done.
pub open_alert_parts :
    (now : Instant) (a row : AlertRow) (created : Bool) (db after : Db)
    → open_alert now a db ≡ ok ((row, created), after)
    → (insert_alert (with_defaults now a) db ≡ ok after)
      × (get_alert_by_key (with_defaults now a) after ≡ ok row)
      × (created ≡ (
          row.id == (with_defaults now a).id
          && eqb row.created_at (with_defaults now a).created_at))
unfolding open_alert
open_alert_parts now a row created db after e =
    let (mid, e1, r1) = >>=-eq-ok (insert_alert (with_defaults now a) db) _ e in
    let (existing, e2, r2) = >>=-eq-ok (get_alert_by_key (with_defaults now a) mid) _ r1 in
    let same : mid ≡ after = ground arith in
    let this : existing ≡ row = ground arith in
    (
      e1 ∙ ap ok same,
      subst (λ d. get_alert_by_key (with_defaults now a) d ≡ ok row) same (e2 ∙ ap ok this),
      ground arith,
    )

-- Opening an alert again is idempotent: after a successful `OpenAlert`, another call for the same
-- alert at a time that is not the creation time of the open one succeeds, returns the alert that
-- the first call returned with created = false, and leaves the database as it is.
pub open_alert_again :
    (now later : Instant) (a row : AlertRow) (created : Bool) (db after : Db)
    → open_alert now a db ≡ ok ((row, created), after)
    → a.created_at ≡ 0
    → row.created_at ≢ later
    → open_alert later a after ≡ ok ((row, false), after)
unfolding open_alert with_defaults insert_alert get_alert_by_key
open_alert_again now later a row created db after e fresh other =
    let (x1, found, x2) = open_alert_parts now a row created db after e in
    let there = get_alert_by_key-exists (with_defaults now a) row after found in
    rw there (rw found (ground arith))

append-IsSingle :
    (db : Db) (a : AlertRow)
    → exists_row (same_key a) db.alerts ≡ false
    → IsSingle db
    → IsSingle (record db { alerts = db.alerts ++ (a ∷ []) })
unfolding count_rows is_open_key
append-IsSingle db a absent single type run source = ground (
  arith,
  count_rows-append (is_open_key type run source) db.alerts (a ∷ []),
  none_counted (same_key a) db.alerts absent,
  single type run source,
  eq_iff a.type type,
  eq_iff (deref_or_empty a.run_id) run,
  eq_iff (deref_or_empty a.source) source,
)

insert_alert-IsSingle :
    (a : AlertRow) (db after : Db) → insert_alert a db ≡ ok after → IsSingle db → IsSingle after
unfolding insert_alert
insert_alert-IsSingle a db after e single = elim (Bool-cases (exists_row (same_key a) db.alerts)) [
  | inl there ↦ let same : db ≡ after = ground arith in subst IsSingle same single
  | inr absent ↦
      let same : record db { alerts = db.alerts ++ (a ∷ []) } ≡ after = ground arith in
      subst IsSingle same (append-IsSingle db a absent single)
]

count_update_le :
    (q p : AlertRow → Bool) (f : AlertRow → AlertRow) (l : List AlertRow)
    → ((x : AlertRow) → q (f x) ≡ true → q x ≡ true)
    → count_rows q (update_rows p f l) ≤ count_rows q l
unfolding count_rows update_rows
count_update_le q p f [] h = omega arith
count_update_le q p f (x ∷ rest) h = ground (arith, h x, count_update_le q p f rest h)

acknowledge_alert-IsSingle :
    (now : Instant) (id : String) (row : AlertRow) (db after : Db)
    → acknowledge_alert now id db ≡ ok (row, after)
    → IsSingle db
    → IsSingle after
unfolding acknowledge_alert is_open_key
acknowledge_alert-IsSingle now id row db after e single type run source =
    let (found, e1, r1) = >>=-eq-ok (get_alert id _) _ e in
    let acked =
      update_rows (is_acknowledgeable id) (λ r. record r { acknowledged_at = some now })
        db.alerts in
    let same : acked ≡ after.alerts = ground arith in
    let less =
      count_update_le (is_open_key type run source) (is_acknowledgeable id)
        (λ r. record r { acknowledged_at = some now }) db.alerts (λ x h. h) in
    subst (λ l. count_rows (is_open_key type run source) l ≤ 1) same
      (omega (arith, single type run source))

resolve_alerts-IsSingle :
    (t : String) (r s : Option String) (at : Instant) (db : Db)
    → IsSingle db
    → IsSingle (resolve_alerts t r s at db).1
unfolding resolve_alerts is_open_key
resolve_alerts-IsSingle t r s at db single type run source =
    let less =
      count_update_le (is_open_key type run source) (is_resolvable t r s)
        (λ row. record row { resolved_at = some at }) db.alerts (λ x h. ground arith) in
    omega (arith, single type run source)

-- What happens to the alerts of a database.
pub data AlertStep : Db → Db → Type 0 where
  opened :
      (now : Instant) (a row : AlertRow) (created : Bool) (db after : Db)
      → open_alert now a db ≡ ok ((row, created), after)
      → AlertStep db after
  acknowledged :
      (now : Instant) (id : String) (row : AlertRow) (db after : Db)
      → acknowledge_alert now id db ≡ ok (row, after)
      → AlertStep db after
  resolved :
      (type : String) (run source : Option String) (at : Instant) (db : Db)
      → AlertStep db (resolve_alerts type run source at db).1

pub data AlertSteps : Db → Db → Type 0 where
  done : (db : Db) → AlertSteps db db
  more : (db next after : Db) → AlertStep db next → AlertSteps next after → AlertSteps db after

AlertStep-IsSingle : (db after : Db) → AlertStep db after → IsSingle db → IsSingle after
AlertStep-IsSingle _ _ (opened now a row created db after e) single =
    insert_alert-IsSingle (with_defaults now a) db after
      (open_alert_parts now a row created db after e).0 single
AlertStep-IsSingle _ _ (acknowledged now id row db after e) single =
    acknowledge_alert-IsSingle now id row db after e single
AlertStep-IsSingle _ _ (resolved t r s at db) single = resolve_alerts-IsSingle t r s at db single

-- A database in which no two open alerts have the same type, run and source keeps this through
-- every sequence of alerts opened, acknowledged and resolved, whatever their arguments.
pub AlertSteps-IsSingle : (db after : Db) → AlertSteps db after → IsSingle db → IsSingle after
AlertSteps-IsSingle _ _ (done db) single = single
AlertSteps-IsSingle _ _ (more db next after s rest) single =
    AlertSteps-IsSingle next after rest (AlertStep-IsSingle db next s single)
