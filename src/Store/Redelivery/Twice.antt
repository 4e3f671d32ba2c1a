-- ===== src/Store/Redelivery/Twice.antt =====
-- `InsertEvents` on a batch that it has already stored.
use traceboard.Prelude.{
  ℕ, ◌+◌, ◌≤◌, true, List, [], ◌∷◌, ◌++◌, ◌≡◌, refl, sym, ap, subst, ◌∙◌, arith, length, All, not,
  ◌&&◌, ◌==◌, exists_row-append, Bool-cases, inl, inr,
}
use mathlib.Core.List.{append_assoc, append-nil}
use traceboard.Event.{Event, Instant}
use traceboard.Platform.{Platform}
use traceboard.Store.{Db, ok, err, >>=-eq-ok, StoredEvent, EventRow}
use traceboard.Store.Prepare.{Prepared, ready, refused, prepare_event}
use traceboard.Store.Insert.{
  InsertResult, no_result, insert_event, insert_new, insert_prepared, insert_one, insert_loop,
  finish, insert_events, is_stored, quarantine_event, Progress,
}
use traceboard.Store.Consistent.Insertion.{quarantine_event-keeps}
use traceboard.Store.Redelivery.{prepare_event_again, insert_event_stored}

-- The events of `db` are still there in `after`.
abbrev Grows : Db → Db → Type 0
Grows db after = (more : List EventRow) × (after.events ≡ db.events ++ more)

Grows-trans : (a b c : Db) → Grows a b → Grows b c → Grows a c
Grows-trans a b c (m, p) (n, q) = (m ++ n, q ∙ (ap (λ es. es ++ n) p ∙ append_assoc _ m n))

-- The test that the loop makes before it inserts.
abbrev Known : StoredEvent → Db → Type 0
Known s db = (not (s.source_event_id == "") && is_stored s db) ≡ true

Known-Grows : (s : StoredEvent) (db after : Db) → Grows db after → Known s db → Known s after
unfolding is_stored
Known-Grows s db after (more, p) h = rw p (rw exists_row-append (ground arith))

module _ (platform : Platform) where
  -- Whenever the event comes again, it passes validation and is found in the table.
  abbrev Settled : Db → Event → Type 0
  Settled db input =
      (later : Instant)
      → (s : StoredEvent) × (prepare_event platform later input ≡ ready s) × Known s db

  Settled-grows :
      (input : Event) (db after : Db) → Grows db after → Settled db input → Settled after input
  Settled-grows input db after g h later =
      let (s, p, k) = h later in (s, p, Known-Grows s db after g k)

  settled_from :
      (now : Instant) (input : Event) (s : StoredEvent) (db : Db)
      → prepare_event platform now input ≡ ready s
      → Known s db
      → Settled db input
  unfolding is_stored
  settled_from now input s db p k later =
      (record s { received_at = later }, prepare_event_again platform now later input s p, k)

  record Round (r : InsertResult) (db : Db) (input : Event) (r' : InsertResult) (db' : Db)
      : Type 0 where
    grows : Grows db db'
    monotone : r.quarantined ≤ r'.quarantined
    settled : r'.quarantined ≤ r.quarantined → Settled db' input

  round :
      (now : Instant) (input : Event) (r : InsertResult) (db : Db) (p : Prepared StoredEvent)
      (r' : InsertResult) (db' : Db)
      → prepare_event platform now input ≡ p
      → insert_prepared platform now input r db p ≡ ok (r', db')
      → Round r db input r' db'
  unfolding insert_prepared insert_new
  round now input r db (refused reason) r' db' q e =
      let (after, e1, e2) = >>=-eq-ok (quarantine_event platform now input reason db) _ e in
      let events = (quarantine_event-keeps platform now input reason db after e1).1 in
      let same : after ≡ db' = ground arith in
      record {
        grows = ([], ap (λ (d : Db). d.events) (sym same) ∙ (events ∙ sym (append-nil db.events)));
        monotone = ground arith;
        settled = λ h. absurd (ground arith);
      }
  round now input r db (ready s) r' db' q e =
      elim (Bool-cases (not (s.source_event_id == "") && is_stored s db)) [
        | inl known ↦
            let same : db ≡ db' = ground arith in
            record {
              grows = ([], ap (λ (d : Db). d.events) (sym same) ∙ sym (append-nil db.events));
              monotone = ground arith;
              settled = λ h. settled_from now input s db' q (subst (Known s) same known);
            }
        | inr new ↦
            let inserted : insert_new platform r s db ≡ ok (r', db') = rw new at e in
            let (after, e1, e2) = >>=-eq-ok (insert_event platform s db) _ inserted in
            let same : after ≡ db' = ground arith in
            let ((row, events, x1), known) = insert_event_stored platform s db after e1 in
            record {
              grows = (row ∷ [], ap (λ (d : Db). d.events) (sym same) ∙ events);
              monotone = ground arith;
              settled = λ h. settled_from now input s db' q (subst (Known s) same known);
            }
      ]

  rounds :
      (clock : ℕ → Instant) (n : ℕ) (inputs : List Event) (r : InsertResult) (db : Db)
      (r' : InsertResult) (db' : Db)
      → insert_loop platform clock n inputs r db ≡ ok (r', db')
      → Grows db db'
        × (r.quarantined ≤ r'.quarantined)
        × (r'.quarantined ≤ r.quarantined → All (Settled db') inputs)
  unfolding insert_loop insert_one
  rounds clock n [] r db r' db' e =
      let same : db ≡ db' = ground arith in
      (
        ([], ap (λ (d : Db). d.events) (sym same) ∙ sym (append-nil db.events)),
        ground arith,
        λ h. tt,
      )
  rounds clock n (input ∷ rest) r db r' db' e =
      let ((r1, db1), e1, e2) = >>=-eq-ok (insert_one platform (clock n) input r db) _ e in
      let first =
        round (clock n) input r db (prepare_event platform (clock n) input) r1 db1 refl e1 in
      let (grows, monotone, settled) = rounds clock (n + 1) rest r1 db1 r' db' e2 in
      (
        Grows-trans db db1 db' first.grows grows,
        omega (arith, first.monotone),
        λ h. (
          Settled-grows input db1 db' grows (first.settled (omega arith)),
          settled (omega (arith, first.monotone)),
        ),
      )

  again :
      (clock : ℕ → Instant) (n : ℕ) (inputs : List Event) (r : InsertResult) (db : Db)
      → All (Settled db) inputs
      → insert_loop platform clock n inputs r db
        ≡ ok (record r { duplicate = r.duplicate + length inputs }, db)
  unfolding insert_loop insert_one insert_prepared
  again clock n [] r db h = ground arith
  again clock n (input ∷ rest) r db h =
      let (s, p, k) = h.0 (clock n) in
      let later = again clock (n + 1) rest (record r { duplicate = r.duplicate + 1 }) db h.1 in
      rw p (rw k (later ∙ ground arith))

  -- If `InsertEvents` has stored a batch with nothing quarantined, then the same batch once more,
  -- at any later times, succeeds, counts every event as a duplicate, and changes nothing.
  pub redelivery :
      (clock clock' : ℕ → Instant) (inputs : List Event) (db after : Db) (r : InsertResult)
      → insert_events platform clock inputs db ≡ (ok r, after)
      → r.quarantined ≡ 0
      → insert_events platform clock' inputs after
        ≡ (ok (record { accepted = 0; duplicate = length inputs; quarantined = 0 }), after)
  unfolding insert_events finish
  redelivery clock clock' inputs db after r e q =
      split (insert_loop platform clock 0 inputs no_result db) refl e
    where
      split :
          (p : Progress)
          → insert_loop platform clock 0 inputs no_result db ≡ p
          → finish platform db p ≡ (ok r, after)
          → finish platform after (insert_loop platform clock' 0 inputs no_result after)
            ≡ (ok (record { accepted = 0; duplicate = length inputs; quarantined = 0 }), after)
      split (ok (r', db')) l f =
          let same : db' ≡ after = ground arith in
          let settled = (rounds clock 0 inputs no_result db r' db' l).2 (ground arith) in
          rw
            (again clock' 0 inputs no_result after
              (subst (λ d. All (Settled d) inputs) same settled))
            (ground arith)
      split (err x) l f = absurd (cc)
