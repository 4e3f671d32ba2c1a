-- ===== src/Store/Redelivery/Log.antt =====
-- `InsertEvents` (internal/store/events.go) against its abstract view: a log of the keys of the events,
-- in which a key stands once.
use traceboard.Prelude.{
  ℕ, ◌+◌, String, Bool, true, false, List, [], ◌∷◌, ◌++◌, ◌≡◌, refl, sym, ap, ◌∙◌, arith, map,
  length, length-append, not, ◌&&◌, ◌==◌, exists_row, Bool-cases, inl, inr, if◌then◌else◌,
}
use traceboard.Event.{Event, Instant}
use traceboard.Platform.{Platform}
use traceboard.Store.{Db, EventRow, ok, err, >>=-eq-ok, StoredEvent}
use traceboard.Store.Prepare.{Prepared, ready, refused, prepare_event}
use traceboard.Store.Insert.{
  InsertResult, no_result, insert_event, insert_new, insert_prepared, insert_one, insert_loop,
  finish, insert_events, is_stored, quarantine_event, Progress,
}
use traceboard.Store.Consistent.Insertion.{quarantine_event-keeps}
use traceboard.Store.Redelivery.{insert_event-row}

-- A source and the identifier that it gave to an event.
abbrev pub Key : Type 0
Key = String × String

abbrev same_key : Key → Key → Bool
same_key key k = k.0 == key.0 && k.1 == key.1

-- The abstract operation: a key is put at the end of the log, unless it is there.
unfoldable pub add_key : Key → List Key → List Key
add_key key log = if exists_row (same_key key) log then log else log ++ (key ∷ [])

abbrev pub key_of : EventRow → Key
key_of e = (e.source, e.source_event_id)

-- The abstract view of a database.
abbrev pub keys_of : Db → List Key
keys_of db = map key_of db.events

unfoldable pub log_prepared : Prepared StoredEvent → List Key → List Key
unfolding add_key
log_prepared (refused reason) log = log
log_prepared (ready s) log = add_key (s.source, s.source_event_id) log

exists_row-map :
    (key : Key) (events : List EventRow)
    → exists_row (λ e. e.source == key.0 && e.source_event_id == key.1) events
      ≡ exists_row (same_key key) (map key_of events)
unfolding exists_row
exists_row-map key [] = refl
exists_row-map key (e ∷ rest) = rw (exists_row-map key rest) refl

map-append : {A B : Type 0} (f : A → B) (xs ys : List A) → map f (xs ++ ys) ≡ map f xs ++ map f ys
map-append f [] ys = refl
map-append f (x ∷ xs) ys = ap (λ l. f x ∷ l) (map-append f xs ys)

is_stored-present :
    (s : StoredEvent) (db : Db)
    → (not (s.source_event_id == "") && is_stored s db) ≡ true
    → exists_row (same_key (s.source, s.source_event_id)) (keys_of db) ≡ true
unfolding is_stored
is_stored-present s db known =
    sym (exists_row-map (s.source, s.source_event_id) db.events) ∙ ground (arith, known)

module _ (platform : Platform) where
  -- The abstract operation for a batch: the events that pass their checks, one after the other.
  unfoldable pub log_batch : (ℕ → Instant) → ℕ → List Event → List Key → List Key
  unfolding log_prepared
  log_batch clock n [] log = log
  log_batch clock n (input ∷ rest) log =
      log_batch clock (n + 1) rest (log_prepared (prepare_event platform (clock n) input) log)

  -- One round does to the log what the abstract operation does, and counts what it adds.
  abbrev Logs : InsertResult → Db → List Key → InsertResult → Db → Type 0
  Logs r db log r' db' =
      (keys_of db' ≡ log) × (r'.accepted + length (keys_of db) ≡ r.accepted + length (keys_of db'))

  insert_new-Logs :
      (r : InsertResult) (s : StoredEvent) (db : Db) (r' : InsertResult) (db' : Db)
      → insert_new platform r s db ≡ ok (r', db')
      → (not (s.source_event_id == "") && is_stored s db) ≡ false
      → Logs r db (add_key (s.source, s.source_event_id) (keys_of db)) r' db'
  unfolding insert_new is_stored add_key
  insert_new-Logs r s db r' db' e new =
      let (after, e1, e2) = >>=-eq-ok (insert_event platform s db) _ e in
      let (row, events, run, source, id, some_id) = insert_event-row platform s db after e1 in
      let some_given : (s.source_event_id == "") ≡ false = ap (λ t. t == "") (sym id) ∙ some_id in
      let key : Key = (s.source, s.source_event_id) in
      let absent : exists_row (same_key key) (keys_of db) ≡ false =
        sym (exists_row-map key db.events) ∙ ground (arith, new, some_given) in
      let added : keys_of after ≡ keys_of db ++ (key ∷ []) =
        ap (map key_of) events
        ∙ (map-append key_of db.events (row ∷ [])
            ∙ ap (λ (k : Key). keys_of db ++ (k ∷ [])) (λ i. (source i, id i))) in
      let same : after ≡ db' = ground arith in
      let counted : r.accepted + 1 ≡ r'.accepted = ground arith in
      let kept : keys_of db' ≡ keys_of db ++ (key ∷ []) = ap keys_of (sym same) ∙ added in
      (
        kept ∙ (rw absent refl),
        omega (arith, counted, ap length kept, length-append (keys_of db) (key ∷ [])),
      )

  round-Logs :
      (now : Instant) (input : Event) (r : InsertResult) (db : Db) (p : Prepared StoredEvent)
      (r' : InsertResult) (db' : Db)
      → insert_prepared platform now input r db p ≡ ok (r', db')
      → Logs r db (log_prepared p (keys_of db)) r' db'
  unfolding insert_prepared log_prepared add_key
  round-Logs now input r db (refused reason) r' db' e =
      let (after, e1, e2) = >>=-eq-ok (quarantine_event platform now input reason db) _ e in
      let events = (quarantine_event-keeps platform now input reason db after e1).1 in
      let same : after ≡ db' = ground arith in
      let counted : r.accepted ≡ r'.accepted = ground arith in
      let kept : keys_of db' ≡ keys_of db = ap keys_of (sym same) ∙ ap (map key_of) events in
      (kept, omega (arith, counted, ap length kept))
  round-Logs now input r db (ready s) r' db' e =
      elim (Bool-cases (not (s.source_event_id == "") && is_stored s db)) [
        | inl known ↦
            let key : Key = (s.source, s.source_event_id) in
            let same : db ≡ db' = ground arith in
            let counted : r.accepted ≡ r'.accepted = ground arith in
            let present = is_stored-present s db known in
            (
              rw present (ap keys_of (sym same)),
              omega (arith, counted, ap length (ap keys_of same)),
            )
        | inr new ↦ insert_new-Logs r s db r' db' (rw new at e) new
      ]

  rounds-Logs :
      (clock : ℕ → Instant) (n : ℕ) (inputs : List Event) (r : InsertResult) (db : Db)
      (r' : InsertResult) (db' : Db)
      → insert_loop platform clock n inputs r db ≡ ok (r', db')
      → Logs r db (log_batch clock n inputs (keys_of db)) r' db'
  unfolding insert_loop insert_one log_batch
  rounds-Logs clock n [] r db r' db' e =
      let same : db ≡ db' = ground arith in
      let counted : r.accepted ≡ r'.accepted = ground arith in
      (ap keys_of (sym same), omega (arith, counted, ap length (ap keys_of same)))
  rounds-Logs clock n (input ∷ rest) r db r' db' e =
      let ((r1, db1), e1, e2) = >>=-eq-ok (insert_one platform (clock n) input r db) _ e in
      let first =
        round-Logs (clock n) input r db (prepare_event platform (clock n) input) r1 db1 e1 in
      let later = rounds-Logs clock (n + 1) rest r1 db1 r' db' e2 in
      (later.0 ∙ ap (log_batch clock (n + 1) rest) first.0, omega (arith, first.1, later.1))

  -- A batch that `InsertEvents` commits does to the log of the stored keys what the abstract operation
  -- does: each event that passes its checks puts its source and its identifier at the end of the log
  -- unless they are there, in the order of the batch, and nothing else changes. It counts as accepted
  -- as many events as the log has grown by.
  pub insert_events-log_batch :
      (clock : ℕ → Instant) (inputs : List Event) (db after : Db) (r : InsertResult)
      → insert_events platform clock inputs db ≡ (ok r, after)
      → (keys_of after ≡ log_batch clock 0 inputs (keys_of db))
        × (r.accepted + length (keys_of db) ≡ length (keys_of after))
  unfolding insert_events finish
  insert_events-log_batch clock inputs db after r e =
      split (insert_loop platform clock 0 inputs no_result db) refl e
    where
      split :
          (p : Progress)
          → insert_loop platform clock 0 inputs no_result db ≡ p
          → finish platform db p ≡ (ok r, after)
          → (keys_of after ≡ log_batch clock 0 inputs (keys_of db))
            × (r.accepted + length (keys_of db) ≡ length (keys_of after))
      split (ok (r', db')) l f =
          let same : db' ≡ after = ground arith in
          let counted : r'.accepted ≡ r.accepted = ground arith in
          let logs = rounds-Logs clock 0 inputs no_result db r' db' l in
          (
            ap keys_of (sym same) ∙ logs.0,
            omega (arith, logs.1, counted, ap length (ap keys_of same)),
          )
      split (err x) l f = absurd (cc)
