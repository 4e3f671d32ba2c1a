-- ===== src/Store/Consistent/Batches.antt =====
-- The loop and the transaction of `InsertEvents` over the rounds of Insertion.
use traceboard.Prelude.{ℕ, ◌+◌, List, [], ◌∷◌, ◌≡◌, refl, subst, arith, length}
use traceboard.Event.{Event, Instant}
use traceboard.Platform.{Platform}
use traceboard.Store.{Db, ok, err, >>=-eq-ok}
use traceboard.Store.Prepare.{prepare_event}
use traceboard.Store.Insert.{
  InsertResult, no_result, insert_one, insert_loop, finish, insert_events, Progress,
}
use traceboard.Store.Consistent.{IsConsistent}
use traceboard.Store.Consistent.Insertion.{total, insert_prepared-Advances}

module _ (platform : Platform) (clock : ℕ → Instant) where
  pub insert_loop_advances :
      (n : ℕ) (inputs : List Event) (r : InsertResult) (db : Db) (r' : InsertResult) (db' : Db)
      → insert_loop platform clock n inputs r db ≡ ok (r', db')
      → (total platform r' ≡ total platform r + length inputs)
        × (IsConsistent db → IsConsistent db')
  unfolding insert_loop insert_one
  insert_loop_advances n [] r db r' db' e =
      let same : db ≡ db' = ground arith in (ground arith, subst IsConsistent same)
  insert_loop_advances n (input ∷ rest) r db r' db' e =
      let ((r1, db1), e1, e2) = >>=-eq-ok (insert_one platform (clock n) input r db) _ e in
      let first =
        insert_prepared-Advances platform (clock n) input r db
          (prepare_event platform (clock n) input) r1 db1 e1 in
      let (sum, keeps) = insert_loop_advances (n + 1) rest r1 db1 r' db' e2 in
      (omega (arith, first.counts), λ h. keeps (first.consistent h))

  -- Whatever the batch, malformed events, duplicates and failures included, a database in which
  -- the counters of every run agree with the event table still is one after `InsertEvents`: each
  -- run's event count and error count are the numbers of its rows, its next sequence number is
  -- one more than its count, every event belongs to a run, and the sequence numbers of each run
  -- are 1, 2, … up to its count with no gap and no repetition.
  pub insert_events-IsConsistent :
      (inputs : List Event) (db : Db)
      → IsConsistent db
      → IsConsistent (insert_events platform clock inputs db).1
  unfolding insert_events finish
  insert_events-IsConsistent inputs db h =
      split (insert_loop platform clock 0 inputs no_result db) refl
    where
      split :
          (p : Progress)
          → insert_loop platform clock 0 inputs no_result db ≡ p
          → IsConsistent (finish platform db p).1
      split (ok (r', db')) e = (insert_loop_advances 0 inputs no_result db r' db' e).1 h
      split (err x) e = h

  -- If `InsertEvents` succeeds, every event of the batch is counted exactly once: accepted,
  -- duplicate and quarantined add up to the length of the batch.
  pub insert_events_total :
      (inputs : List Event) (db : Db) (r : InsertResult)
      → (insert_events platform clock inputs db).0 ≡ ok r
      → r.accepted + r.duplicate + r.quarantined ≡ length inputs
  unfolding insert_events finish
  insert_events_total inputs db r h =
      split (insert_loop platform clock 0 inputs no_result db) refl h
    where
      split :
          (p : Progress)
          → insert_loop platform clock 0 inputs no_result db ≡ p
          → (finish platform db p).0 ≡ ok r
          → r.accepted + r.duplicate + r.quarantined ≡ length inputs
      split (ok (r', db')) e q =
          ground (arith, (insert_loop_advances 0 inputs no_result db r' db' e).0)
      split (err x) e q = absurd (cc)
