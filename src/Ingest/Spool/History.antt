-- ===== src/Ingest/Spool/History.antt =====
-- Histories of the spool (internal/ingest/spool.go): sequences of its operations.
use traceboard.Prelude.{String, Bool, some, false, List, ◌≡◌, ◌==◌}
use traceboard.Event.{Instant}
use traceboard.Platform.{Platform}
use traceboard.Ingest.Spool.{SpoolEntry, Codec, Spool}
use traceboard.Ingest.Spool.Buffer.{append, drain, expire, clear}
use traceboard.Ingest.Spool.Bounded.{IsBounded, append-IsBounded}
use traceboard.Ingest.Spool.Shrinking.{
  after_drain, drain_loop-IsBounded, expire_loop-IsBounded, clear_file-IsBounded,
}

module _ (codec : Codec)
    (decode-encode : (e : SpoolEntry) (line : String)
      → codec.encode e ≡ some line
      → (codec.trim_space line ≡ line)
        × ((line == "") ≡ false)
        × (codec.decode line ≡ some e)) where
  -- What happens to a spool, whatever the sources, the payloads, the times and the consumers.
  pub data SpoolStep : Spool → Spool → Type 1 where
    appended :
        (platform : Platform) (now : Instant) (source : String) (payloads : List String)
        (spool : Spool)
        → SpoolStep spool (append codec platform now source payloads spool).1
    drained :
        (World : Type 0) (consume : World → String → Bool × World) (world : World) (spool : Spool)
        → SpoolStep spool (drain codec consume world spool).3
    expired : (now : Instant) (spool : Spool) → SpoolStep spool (expire codec now spool).2
    cleared : (source : String) (spool : Spool) → SpoolStep spool (clear codec source spool).1

  pub data SpoolHistory : Spool → Spool → Type 1 where
    none_yet : (spool : Spool) → SpoolHistory spool spool
    and_then :
        (first spool last : Spool)
        → SpoolHistory first spool
        → SpoolStep spool last
        → SpoolHistory first last

  step-IsBounded :
      (spool last : Spool) → SpoolStep spool last → IsBounded codec spool → IsBounded codec last
  unfolding drain expire clear after_drain
  step-IsBounded _ _ (appended platform now source payloads spool) h =
      append-IsBounded codec platform now source payloads spool h
  step-IsBounded _ _ (drained World consume world spool) h =
      drain_loop-IsBounded codec decode-encode consume _ _ world spool h
  step-IsBounded _ _ (expired now spool) h = expire_loop-IsBounded codec decode-encode _ _ 0 spool h
  step-IsBounded _ _ (cleared source spool) h = clear_file-IsBounded codec decode-encode spool _ h

  -- No spool file outgrows the limit: if every file of a spool is within the spool's limit and holds
  -- lines that the spool wrote, this stays so through every sequence of Append, Drain, Expire and
  -- Clear, failures included. The hypothesis is that an encoded entry is a line that is not blank,
  -- has no space around it, and decodes to the entry.
  pub SpoolHistory-IsBounded :
      (first last : Spool) → SpoolHistory first last → IsBounded codec first → IsBounded codec last
  SpoolHistory-IsBounded _ _ (none_yet spool) h = h
  SpoolHistory-IsBounded _ _ (and_then first spool last before step) h =
      step-IsBounded spool last step (SpoolHistory-IsBounded first spool before h)
