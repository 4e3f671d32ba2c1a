-- ===== src/Store/Sources/Kept/Steps.antt =====
-- The capture mode of a source under the statements that are not there to set it: `EnsureSource`,
-- `RecordHeartbeat` and `SetSourceConnected` of internal/store/sources.go, and `InsertEvents`.
use traceboard.Prelude.{ℕ, String, Bool, true, some, List, ◌≡◌, refl}
use traceboard.Event.{Event, Instant}
use traceboard.Platform.{Platform}
use traceboard.Store.{Db, ok}
use traceboard.Store.Insert.{insert_loop, insert_events, no_result}
use traceboard.Store.Sources.{ensure_source_exists, record_heartbeat, set_source_connected}
use traceboard.Store.Sources.Kept.{stored_mode, upsert-keeps}
use traceboard.Store.Sources.Kept.Batches.{batch_agrees, finish-mode, loop-KeepsMode}

module _ (name mode : String) where
  -- The statements that are not there to set the capture mode of the source: those on sources, when
  -- they succeed, and a batch of events, whether it is stored or not, that agree with its mode.
  pub data SourceStep : Db → Db → Type 0 where
    ensured :
        (now : Instant) (other given : String) (db after : Db)
        → ensure_source_exists now other given db ≡ ok after
        → SourceStep db after
    heard :
        (other : String) (at : Instant) (db after : Db)
        → record_heartbeat other at db ≡ ok after
        → SourceStep db after
    connected :
        (now : Instant) (other : String) (is_connected : Bool) (db after : Db)
        → set_source_connected now other is_connected db ≡ ok after
        → SourceStep db after
    inserted :
        (platform : Platform) (clock : ℕ → Instant) (inputs : List Event) (db : Db)
        → batch_agrees platform name mode clock 0 inputs ≡ true
        → SourceStep db (insert_events platform clock inputs db).1

  pub SourceStep-mode :
      (db after : Db)
      → SourceStep db after
      → stored_mode name db ≡ some mode
      → stored_mode name after ≡ some mode
  unfolding ensure_source_exists record_heartbeat set_source_connected insert_events
  SourceStep-mode _ _ (ensured now other given db after e) h =
      upsert-keeps _ _ db after name mode e (λ r. refl) (λ r. refl) h
  SourceStep-mode _ _ (heard other at db after e) h =
      upsert-keeps _ _ db after name mode e (λ r. refl) (λ r. refl) h
  SourceStep-mode _ _ (connected now other b db after e) h =
      upsert-keeps _ _ db after name mode e (λ r. refl) (λ r. refl) h
  SourceStep-mode _ _ (inserted platform clock inputs db agree) h =
      finish-mode name mode platform db (insert_loop platform clock 0 inputs no_result db)
        (loop-KeepsMode name mode platform clock inputs db _ agree refl h) h
