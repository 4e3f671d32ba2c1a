-- ===== src/Store/Alerts/Reopening.antt =====
-- `OpenAlert` of internal/store/alerts.go for an alert that was opened and resolved before.
use traceboard.Prelude.{
  String, Bool, true, false, Option, some, List, [], ◌∷◌, ◌≡◌, refl, sym, subst, ◌∙◌, ◌==◌, arith,
  eq_iff, select, exists_row, update_rows, Option-cases, inl, inr, exists_row-update,
}
use traceboard.Event.{Instant}
use traceboard.Store.{Db, AlertRow, ok, err, constraint}
use traceboard.Store.Summary.{nullable}
use traceboard.Store.Alerts.{
  deref_or_empty, is_open_key, same_key, with_defaults, insert_alert, oldest, get_alert_by_key,
  open_alert, resolve_alerts, is_resolvable,
}
use traceboard.Store.Alerts.Opening.{open_alert_parts}

-- No row passes `q` behind an update that reaches all rows that pass it and spoils them.
exists_row-spoiled :
    (q p : AlertRow → Bool) (f : AlertRow → AlertRow) (l : List AlertRow)
    → ((x : AlertRow) → q x ≡ true → p x ≡ true)
    → ((x : AlertRow) → q (f x) ≡ false)
    → exists_row q (update_rows p f l) ≡ false
unfolding exists_row update_rows
exists_row-spoiled q p f [] reach spoil = refl
exists_row-spoiled q p f (x ∷ rest) reach spoil =
    ground (arith, reach x, spoil x, exists_row-spoiled q p f rest reach spoil)

exists_oldest :
    (r p : AlertRow → Bool) (l : List AlertRow) (a : AlertRow)
    → oldest (select p l) ≡ some a
    → r a ≡ true
    → exists_row r l ≡ true
unfolding oldest select exists_row
exists_oldest r p [] a e h = absurd (ground arith)
exists_oldest r p (x ∷ rest) a e h = ground (arith, exists_oldest r p rest a)

row_with_id :
    (a row : AlertRow) (db : Db) (id : String)
    → get_alert_by_key a db ≡ ok row
    → (row.id == id) ≡ true
    → exists_row (λ r. r.id == id) db.alerts ≡ true
unfolding get_alert_by_key
row_with_id a row db id e h = elim (Option-cases (oldest (select (same_key a) db.alerts))) [
  | inl nothing ↦ absurd (ground arith)
  | inr (found, q) ↦
      let same : found ≡ row = ground arith in
      exists_oldest (λ r. r.id == id) (same_key a) db.alerts found q
        (subst (λ z. (z.id == id) ≡ true) (sym same) h)
]

unresolved-resolvable :
    (a x : AlertRow)
    → same_key a x ≡ true
    → is_resolvable a.type (some (deref_or_empty a.run_id)) (some (deref_or_empty a.source)) x
      ≡ true
unfolding is_open_key is_resolvable
unresolved-resolvable a x h = ground arith

resolved_not_open :
    (a x : AlertRow) (at : Instant) → same_key a (record x { resolved_at = some at }) ≡ false
unfolding is_open_key
resolved_not_open a x at = ground arith

default_key : (now : Instant) (a x : AlertRow) → same_key (with_defaults now a) x ≡ same_key a x
unfolding is_open_key with_defaults nullable
default_key now a x =
    ground (arith, eq_iff (deref_or_empty a.run_id) "", eq_iff (deref_or_empty a.source) "")

default_id :
    (now later : Instant) (a : AlertRow) → (with_defaults now a).id ≡ (with_defaults later a).id
unfolding with_defaults
default_id now later a = refl

-- `OpenAlert` after a resolution whose filters reach every open alert of the key.
pub reopening_after :
    (now at later : Instant) (a row : AlertRow) (run source : Option String) (db after : Db)
    → ((x : AlertRow) → same_key a x ≡ true → is_resolvable a.type run source x ≡ true)
    → open_alert now a db ≡ ok ((row, true), after)
    → open_alert later a (resolve_alerts a.type run source at after).1
      ≡ err (constraint "alerts.id")
unfolding open_alert insert_alert resolve_alerts
reopening_after now at later a row run source db after reach e =
    let (x1, found, was_created) = open_alert_parts now a row true db after e in
    let resolve : AlertRow → AlertRow = λ r. record r { resolved_at = some at } in
    let new = with_defaults later a in
    let closed : exists_row (same_key new)
          (update_rows (is_resolvable a.type run source) resolve after.alerts)
        ≡ false =
      exists_row-spoiled (same_key new) (is_resolvable a.type run source) resolve after.alerts
        (λ x h. reach x (sym (default_key later a x) ∙ h))
        (λ x. default_key later a (resolve x) ∙ resolved_not_open a x at) in
    let own_id : (row.id == new.id) ≡ true = ground (arith, default_id now later a) in
    let taken : exists_row (λ r. r.id == new.id)
          (update_rows (is_resolvable a.type run source) resolve after.alerts)
        ≡ true =
      exists_row-update (λ r. r.id == new.id) (is_resolvable a.type run source) resolve after.alerts
        (λ x. refl)
      ∙ row_with_id (with_defaults now a) row after new.id found own_id in
    rw closed (rw taken refl)

-- Once `OpenAlert` has created an alert, and `ResolveAlerts` has
-- resolved the alerts of its type, run and source, every later `OpenAlert` for it fails on the
-- primary key: the alert cannot be opened again, however often its condition comes back.
pub reopening_fails :
    (now at later : Instant) (a row : AlertRow) (db after : Db)
    → open_alert now a db ≡ ok ((row, true), after)
    → open_alert later a
        (resolve_alerts a.type
          (some (deref_or_empty a.run_id))
          (some (deref_or_empty a.source))
          at
          after).1
      ≡ err (constraint "alerts.id")
reopening_fails now at later a row db after e =
    reopening_after now at later a row (some (deref_or_empty a.run_id))
      (some (deref_or_empty a.source)) db after (unresolved-resolvable a) e
