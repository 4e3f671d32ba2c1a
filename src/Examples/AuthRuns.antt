-- ===== src/Examples/AuthRuns.antt =====
-- Runs of the sign-in: a token is issued, exchanged for a session, and tried again.
use traceboard.Prelude.{
  ℕ, ◌+◌, String, none, some, [], ◌≡◌, refl, arith, ltb, if◌then◌else◌, exists_row, find_row,
  count_rows, update_rows, delete_rows,
}
use traceboard.Store.{empty_db, ok}
use traceboard.Store.Sessions.{create_session, consume_session, consume_row}
use traceboard.Store.Sessions.Spending.{HasUniqueHashes}
use traceboard.Auth.{
  Manager, granted, unauthorized, issue_sign_in_token, exchange_dashboard_token, validate_session,
  logout, rotate_dashboard, session_ttl,
}
use traceboard.Auth.Spent.{IsDenied, AuthSteps, done, more, logging_out, exchange_once}
use traceboard.Auth.Valid.{rotate_dashboard-unauthorized, exchange-valid}

-- Stands for SHA-256: no two texts of these runs have the same hash.
abbrev hash : String → String
hash s = s

abbrev trim : String → String
trim s = s

abbrev started : Manager
started = record { db = empty_db; ingest_hash = "ingest"; session_secrets = [] }

abbrev invited : Manager
invited = (issue_sign_in_token hash trim 1000 1000 (some "t1") started).1

abbrev signed_in : Manager
signed_in = (exchange_dashboard_token hash trim 2000 2000 (some "s1") "t1" invited).1

signing : ℕ
unfolding exists_row find_row count_rows update_rows delete_rows create_session consume_session
    consume_row issue_sign_in_token exchange_dashboard_token logout rotate_dashboard
signing = 0

invited-HasUniqueHashes : HasUniqueHashes invited.db.sessions
unfolding signing
invited-HasUniqueHashes h = ground arith

granted_first :
    (exchange_dashboard_token hash trim 2000 2000 (some "s1") "t1" invited).0 ≡ granted "s1"
unfolding signing
granted_first = refl

consumed_first : (consume_session hash 2000 "t1" invited.db).0 ≡ ok "signin:t1"
unfolding signing
consumed_first = refl

abbrev left : Manager
left = logout hash trim "s1" signed_in

in_between : AuthSteps hash trim "t1" signed_in left
in_between = more signed_in left left (logging_out "s1" signed_in) (done left)

exchange_once_example :
    IsDenied (exchange_dashboard_token hash trim 3000 3000 (some "s2") "t1" left).0
exchange_once_example =
    exchange_once hash trim 2000 2000 3000 3000 (some "s1") (some "s2") "t1" "s1" invited left
      invited-HasUniqueHashes refl granted_first in_between refl

rotate_dashboard-unauthorized_example :
    validate_session hash trim 2600 "s1"
      (rotate_dashboard hash trim 2500 2500 (some "t2") signed_in).1
    ≡ some unauthorized
rotate_dashboard-unauthorized_example =
    rotate_dashboard-unauthorized hash trim 2500 2500 2600 (some "t2") signed_in "s1"

exchange-valid_example :
    validate_session hash trim 2500 "s1" signed_in
    ≡ (if ltb (2000 + session_ttl) 2500 then some unauthorized else none)
exchange-valid_example =
    exchange-valid hash trim 2000 2000 2500 "s1" "t1" invited refl refl granted_first
