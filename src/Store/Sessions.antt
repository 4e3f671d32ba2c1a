-- ===== src/Store/Sessions.antt =====
-- The session statements of internal/store/sources.go. Only hashes of tokens are stored.
pub mod Spending
use traceboard.Prelude.{
  ℕ, String, Bool, true, false, Option, none, some, List, [], ◌∷◌, ◌++◌, ◌==◌, ◌&&◌, ◌||◌, not, ltb,
  leb, eqb, is_none, find_row, exists_row, count_rows, update_rows, delete_rows, if◌then◌else◌,
}
use traceboard.Event.{Instant}
use traceboard.Store.{Db, SessionRow, Result, ok, err, StoreError, constraint, session_not_found}

abbrev pub has_hash : String → SessionRow → Bool
has_hash h r = r.token_hash == h

-- The sessions that a consumption may use up, whatever their expiry.
abbrev pub is_unspent : String → SessionRow → Bool
is_unspent h r = r.token_hash == h && is_none r.consumed_at

-- The condition of the SELECT of `ConsumeSession`.
abbrev pub is_usable : String → Instant → SessionRow → Bool
is_usable h at r = is_unspent h r && ltb at r.expires_at

-- The condition of its UPDATE.
abbrev pub is_consumable : String → SessionRow → Bool
is_consumable id r = r.id == id && is_none r.consumed_at

abbrev pub consumed : Instant → SessionRow → SessionRow
consumed at r = record r { consumed_at = some at }

module _ (hash_token : String → String) where
  abbrev pub new_session : Instant → String → String → Instant → SessionRow
  new_session now id token expires_at = record {
    id = id;
    token_hash = hash_token token;
    created_at = now;
    expires_at = expires_at;
    consumed_at = none;
  }

  -- CreateSession, by the store's own clock `now`.
  unfoldable pub create_session : Instant → String → String → Instant → Db → Result Db
  create_session now id token expires_at db =
      if id == ""
      then err (constraint "sessions.id check")
      else if exists_row (λ r. r.id == id) db.sessions
      then err (constraint "sessions.id")
      else if exists_row (has_hash (hash_token token)) db.sessions
      then err (constraint "sessions.token_hash")
      else ok (record db { sessions = db.sessions ++ (new_session now id token expires_at ∷ []) })

  -- What `ConsumeSession` does with the row that its query finds. It runs in no transaction: the
  -- update stays when its number of rows is refused.
  unfoldable pub consume_row : Instant → Option SessionRow → Db → Result String × Db
  consume_row at none db = (err session_not_found, db)
  consume_row at (some r) db = (
    if eqb (count_rows (is_consumable r.id) db.sessions) 1 then ok r.id else err session_not_found,
    record db { sessions = update_rows (is_consumable r.id) (consumed at) db.sessions },
  )

  -- ConsumeSession. The comparison of the found hash with itself is left out.
  unfoldable pub consume_session : Instant → String → Db → Result String × Db
  consume_session at token db =
      consume_row at (find_row (is_usable (hash_token token) at) db.sessions) db

valid_row : Instant → Option SessionRow → Option StoreError
valid_row at none = some session_not_found
valid_row at (some r) =
    if not (is_none r.consumed_at) || ltb r.expires_at at then some session_not_found else none

-- SessionValid, with `none` for no error.
unfoldable pub session_valid : String → Instant → Db → Option StoreError
unfolding valid_row
session_valid id at db = valid_row at (find_row (λ r. r.id == id) db.sessions)

-- DeleteSession
unfoldable pub delete_session : String → Db → Db
delete_session id db = record db { sessions = delete_rows (λ r. r.id == id) db.sessions }

-- DeleteAllSessions
unfoldable pub delete_all_sessions : Db → Db
delete_all_sessions db = record db { sessions = [] }

-- CountSessions at the time `now`.
unfoldable pub count_sessions : Instant → Db → ℕ
count_sessions now db =
    count_rows (λ r. is_none (SessionRow.consumed_at r) && ltb now (SessionRow.expires_at r))
      db.sessions

-- DeleteExpiredSessions
unfoldable pub delete_expired_sessions : Instant → Db → ℕ × Db
delete_expired_sessions at db = (
  count_rows (λ r. leb (SessionRow.expires_at r) at) db.sessions,
  record db { sessions = delete_rows (λ r. leb (SessionRow.expires_at r) at) db.sessions },
)
