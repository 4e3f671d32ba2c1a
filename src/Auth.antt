-- ===== src/Auth.antt =====
-- internal/auth/auth.go: sign-in tokens, dashboard sessions and the ingest token. The manager's
-- locks are not modelled: one call runs at a time. Random bytes are an argument of the calls that
-- draw them, `none` where the generator fails, and so are the manager's clock and the store's.
pub mod Spent
pub mod Valid
use Prim.Native.String.{◌++◌ as concat}
use traceboard.Prelude.{
  ℕ, ◌+◌, String, Option, none, some, List, [], ◌∷◌, ◌==◌, length, delete_rows, if◌then◌else◌,
}
use traceboard.Event.{Instant}
use traceboard.Store.{Db, Result, ok, err, StoreError, session_not_found}
use traceboard.Store.Sessions.{
  create_session, consume_session, session_valid, delete_session, delete_all_sessions,
  delete_expired_sessions,
}

-- SessionTTL and SignInTokenTTL, in nanoseconds.
abbrev pub session_ttl : ℕ
session_ttl = 43200000000000

abbrev pub sign_in_token_ttl : ℕ
sign_in_token_ttl = 900000000000

pub data AuthError : Type 0 where
  unauthorized : AuthError
  ingest_token_required : AuthError
  token_generation : AuthError
  store_failure : StoreError → AuthError

pub data Outcome {ℓ} (A : Type ℓ) : Type ℓ where
  granted : A → Outcome A
  denied : AuthError → Outcome A

-- The manager with the store that it writes to.
pub record Manager : Type 0 where
  pub db : Db
  pub ingest_hash : String
  pub session_secrets : List (String × String)

module _ (hash trim_space : String → String) where
  -- New
  unfoldable pub new : Db → String → Outcome Manager
  new db ingest_token =
      if trim_space ingest_token == ""
      then denied ingest_token_required
      else granted (record { db = db; ingest_hash = hash ingest_token; session_secrets = [] })

  abbrev pub session_id : String → String
  session_id token = concat "session:" (hash token)

  abbrev pub sign_in_id : String → String
  sign_in_id token = concat "signin:" (hash token)

  unfoldable pub issued : String → Manager → Result Db → Outcome String × Manager
  issued token manager (err e) = (denied (store_failure e), manager)
  issued token manager (ok db) = (granted token, record manager { db = db })

  -- IssueSignInToken
  unfoldable pub issue_sign_in_token :
      Instant → Instant → Option String → Manager → Outcome String × Manager
  unfolding issued
  issue_sign_in_token now store_now none manager = (denied token_generation, manager)
  issue_sign_in_token now store_now (some token) manager =
      issued token manager (
        create_session hash store_now (sign_in_id token) token (now + sign_in_token_ttl) manager.db)

  exchange_error : StoreError → AuthError
  exchange_error session_not_found = unauthorized
  exchange_error e = store_failure e

  -- After `ConsumeSession`: a new session of a refused token is deleted again.
  unfoldable pub exchanged : String → Manager → Result String × Db → Outcome String × Manager
  unfolding exchange_error
  exchanged session_token manager (err e, db) = (
    denied (exchange_error e),
    record manager { db = delete_session (session_id session_token) db },
  )
  exchanged session_token manager (ok id, db) = (
    granted session_token,
    record manager {
      db = db;
      session_secrets = (session_id session_token, session_token) ∷ manager.session_secrets;
    },
  )

  unfoldable pub created_session :
      Instant → String → String → Manager → Result Db → Outcome String × Manager
  unfolding exchanged
  created_session now token session_token manager (err e) = (denied (store_failure e), manager)
  created_session now token session_token manager (ok db) =
      exchanged session_token manager (consume_session hash now token db)

  -- ExchangeDashboardToken
  unfoldable pub exchange_dashboard_token :
      Instant → Instant → Option String → String → Manager → Outcome String × Manager
  unfolding created_session
  exchange_dashboard_token now store_now none token manager = (denied token_generation, manager)
  exchange_dashboard_token now store_now (some session_token) token manager =
      created_session now token session_token manager (
        create_session hash store_now (session_id session_token) session_token (now + session_ttl)
          manager.db)

  session_error : Option StoreError → Option AuthError
  unfolding exchange_error
  session_error none = none
  session_error (some e) = some (exchange_error e)

  -- ValidateSession, with `none` for no error.
  unfoldable pub validate_session : Instant → String → Manager → Option AuthError
  unfolding session_error
  validate_session now session_token manager =
      if trim_space session_token == ""
      then some unauthorized
      else session_error (session_valid (session_id session_token) now manager.db)

  -- Logout
  unfoldable pub logout : String → Manager → Manager
  logout session_token manager =
      if trim_space session_token == "" then manager else record manager {
        db = delete_session (session_id session_token) manager.db;
        session_secrets =
            delete_rows (λ (secret : String × String). secret.0 == session_id session_token)
              manager.session_secrets;
      }

  -- RotateDashboard
  unfoldable pub rotate_dashboard :
      Instant → Instant → Option String → Manager → Outcome String × Manager
  unfolding issue_sign_in_token
  rotate_dashboard now store_now token manager =
      issue_sign_in_token now store_now token
        (record manager { db = delete_all_sessions manager.db; session_secrets = [] })

  -- ValidateIngestToken, with `none` for no error.
  unfoldable pub validate_ingest_token : String → Manager → Option AuthError
  validate_ingest_token presented manager =
      if presented == ""
      then some unauthorized
      else if manager.ingest_hash == hash presented
      then none
      else some unauthorized

  -- PurgeExpired
  unfoldable pub purge_expired : Instant → Manager → ℕ × Manager
  purge_expired now manager =
      let (removed, db) = delete_expired_sessions now manager.db in
      (removed, record manager { db = db })

  -- CountSessions
  unfoldable pub count_secrets : Manager → ℕ
  count_secrets manager = length manager.session_secrets
