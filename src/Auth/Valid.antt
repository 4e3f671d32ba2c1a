-- ===== src/Auth/Valid.antt =====
-- The answers of `ValidateSession` (internal/auth/auth.go) after a sign-in, a logout and a rotation.
use Prim.Native.String.{◌++◌ as concat}
use text.Mathlib.TextLemmas.{append_assoc, append_inj}
use traceboard.Prelude.{
  ◌∙◌, ltb, if◌then◌else◌, String, ◌+◌, Bool, true, false, Option, none, some, List, [], ◌∷◌, ◌++◌,
  ◌≡◌, refl, sym, subst, ◌==◌, arith, exists_row, update_rows, delete_rows, find_row, Option-cases,
  Bool-cases, inl, inr, eq_iff, eq_refl,
}
use traceboard.Event.{Instant}
use traceboard.Store.{Db, SessionRow, Result, ok, err}
use traceboard.Store.Sessions.{
  has_hash, is_usable, is_consumable, consumed, new_session, create_session, consume_row,
  consume_session, delete_session, delete_all_sessions, session_valid,
}
use traceboard.Store.Sessions.Spending.{create_session_parts}
use traceboard.Auth.{
  Manager, granted, unauthorized, session_id, sign_in_id, session_ttl, sign_in_token_ttl,
  exchange_dashboard_token, created_session, exchanged, logout, rotate_dashboard, validate_session,
  issue_sign_in_token, issued,
}

deleted_not_found :
    (id : String) (l : List SessionRow)
    → find_row (λ r. r.id == id) (delete_rows (λ r. r.id == id) l) ≡ none
unfolding find_row delete_rows
deleted_not_found id [] = refl
deleted_not_found id (x ∷ rest) = ground (arith, deleted_not_found id rest)

-- The row that `CreateSession` adds is the one that its id finds.
new_found :
    (id : String) (row : SessionRow) (l : List SessionRow)
    → (row.id == id) ≡ true
    → exists_row (λ r. r.id == id) l ≡ false
    → find_row (λ r. r.id == id) (l ++ (row ∷ [])) ≡ some row
unfolding find_row exists_row
new_found id row [] same absent = ground arith
new_found id row (x ∷ rest) same absent = ground (arith, new_found id row rest)

-- A consumption of another session leaves the row that an id finds.
consumed_other :
    (id other : String) (at : Instant) (row : SessionRow) (l : List SessionRow)
    → (other == id) ≡ false
    → find_row (λ r. r.id == id) l ≡ some row
    → find_row (λ r. r.id == id) (update_rows (is_consumable other) (consumed at) l) ≡ some row
unfolding find_row update_rows
consumed_other id other at row [] differs found = absurd (ground arith)
consumed_other id other at row (x ∷ rest) differs found =
    ground (
      arith,
      consumed_other id other at row rest,
      eq_iff x.id id,
      eq_iff x.id other,
      eq_iff other id,
    )

module _ (hash trim_space : String → String) where
  -- A session that was logged out is refused: after `Logout` the session's token is unauthorized
  -- at any time.
  pub logout-unauthorized :
      (now : Instant) (token : String) (m : Manager)
      → validate_session hash trim_space now token (logout hash trim_space token m)
        ≡ some unauthorized
  unfolding validate_session logout session_valid delete_session
  logout-unauthorized now token m = elim (Bool-cases (trim_space token == "")) [
    | inl e ↦ rw e refl
    | inr e ↦ rw e (
        rw (deleted_not_found (session_id hash trim_space token) m.db.sessions, session_valid) refl)
  ]

  sign_in_other :
      (a b : String) → (sign_in_id hash trim_space a == session_id hash trim_space b) ≡ false
  sign_in_other a b =
      elim (Bool-cases (sign_in_id hash trim_space a == session_id hash trim_space b)) [
        | inr e ↦ e
        | inl e ↦
            let same : concat "si" (concat "gnin:" (hash a))
                ≡ concat "se" (concat "ssion:" (hash b)) =
              sym (append_assoc "si" "gnin:" (hash a))
              ∙ ((eq_iff _ _).0 e ∙ append_assoc "se" "ssion:" (hash b)) in
            let heads : ◌≡◌ {A = String} "si" "se" = (append_inj same refl).0 in
            let equal : ("si" == "se") ≡ true = (eq_iff "si" "se").1 heads in cc
      ]

  rotated_denied :
      (now : Instant) (token : String) (m : Manager)
      → ((trim_space token == "") ≡ false
          → find_row (λ r. r.id == session_id hash trim_space token) m.db.sessions ≡ none)
      → validate_session hash trim_space now token m ≡ some unauthorized
  unfolding validate_session session_valid
  rotated_denied now token m missing = elim (Bool-cases (trim_space token == "")) [
    | inl e ↦ rw e refl
    | inr e ↦ rw e (rw (missing e, session_valid) refl)
  ]

  issued-sessions :
      (now store_now : Instant) (random : Option String) (m : Manager) (token : String)
      → m.db.sessions ≡ []
      → find_row
          (λ r. r.id == session_id hash trim_space token)
          (issue_sign_in_token hash trim_space now store_now random m).1.db.sessions
        ≡ none
  unfolding issue_sign_in_token find_row
  issued-sessions now store_now none m token empty = rw empty refl
  issued-sessions now store_now (some fresh) m token empty = split _ refl
    where
      expires_at : Instant
      expires_at = now + sign_in_token_ttl

      split :
          (r : Result Db)
          → create_session hash store_now (sign_in_id hash trim_space fresh) fresh expires_at m.db
            ≡ r
          → find_row
              (λ x. x.id == session_id hash trim_space token)
              (issued hash trim_space fresh m r).1.db.sessions
            ≡ none
      split (err e) q = rw empty refl
      split (ok db) q =
          let (rows, x1, x2) =
            create_session_parts hash store_now (sign_in_id hash trim_space fresh) fresh expires_at
              m.db db q in
          rw rows (rw empty (rw (sign_in_other fresh token) refl))

  -- `RotateDashboard` ends every session: after it, whether it can issue a new sign-in token or
  -- fails, every session token is unauthorized at any time.
  pub rotate_dashboard-unauthorized :
      (now store_now later : Instant) (random : Option String) (m : Manager) (token : String)
      → validate_session hash trim_space later token
          (rotate_dashboard hash trim_space now store_now random m).1
        ≡ some unauthorized
  unfolding rotate_dashboard delete_all_sessions
  rotate_dashboard-unauthorized now store_now later random m token =
      rotated_denied later token _ (λ e. issued-sessions now store_now random _ token refl)

  found_old :
      (p q : SessionRow → Bool) (row r : SessionRow) (l : List SessionRow)
      → p row ≡ false
      → exists_row q l ≡ false
      → find_row p (l ++ (row ∷ [])) ≡ some r
      → q r ≡ false
  unfolding find_row exists_row
  found_old p q row r [] new absent found = absurd (ground arith)
  found_old p q row r (x ∷ rest) new absent found = ground (arith, found_old p q row r rest)

  -- The row of the new session survives the consumption of the sign-in token.
  consumed_keeps :
      (now : Instant) (token id : String) (row : SessionRow) (old : List SessionRow) (db : Db)
      → db.sessions ≡ old ++ (row ∷ [])
      → (row.id == id) ≡ true
      → exists_row (λ r. r.id == id) old ≡ false
      → has_hash (hash token) row ≡ false
      → find_row (λ r. r.id == id) (consume_session hash now token db).1.sessions ≡ some row
  unfolding consume_session consume_row
  consumed_keeps now token id row old db rows same absent other =
      let here : find_row (λ r. r.id == id) db.sessions ≡ some row =
        rw rows (new_found id row old same absent) in
      elim (Option-cases (find_row (is_usable (hash token) now) db.sessions)) [
        | inl e ↦ rw (e, consume_row) here
        | inr (r, e) ↦
            let unusable : is_usable (hash token) now row ≡ false = ground arith in
            let differs =
              found_old (is_usable (hash token) now) (λ s. s.id == id) row r old unusable absent
                (rw rows at e) in
            rw (e, consume_row) (consumed_other id r.id now row db.sessions differs here)
      ]

  granted-db :
      (session : String) (m : Manager) (r : Result String × Db)
      → (exchanged hash trim_space session m r).0 ≡ granted session
      → (exchanged hash trim_space session m r).1.db ≡ r.1
  unfolding exchanged
  granted-db session m (err e, db) h = absurd (ground arith)
  granted-db session m (ok id, db) h = refl

  -- What the granted session's id finds.
  granted_row :
      (now store_now : Instant) (session token : String) (m : Manager)
      → (hash session == hash token) ≡ false
      → (exchange_dashboard_token hash trim_space now store_now (some session) token m).0
        ≡ granted session
      → find_row
          (λ r. r.id == session_id hash trim_space session)
          (exchange_dashboard_token hash trim_space now store_now
            (some session)
            token
            m).1.db.sessions
        ≡ some (
            new_session hash store_now
              (session_id hash trim_space session)
              session
              (now + session_ttl))
  unfolding exchange_dashboard_token
  granted_row now store_now session token m fresh e = split _ refl e
    where
      id : String
      id = session_id hash trim_space session

      row : SessionRow
      row = new_session hash store_now id session (now + session_ttl)

      split :
          (r : Result Db)
          → create_session hash store_now id session (now + session_ttl) m.db ≡ r
          → (created_session hash trim_space now token session m r).0 ≡ granted session
          → find_row
              (λ x. x.id == id)
              (created_session hash trim_space now token session m r).1.db.sessions
            ≡ some row
      split (err x) q g = absurd (ground arith)
      split (ok db) q g =
          let (rows, absent, x) =
            create_session_parts hash store_now id session (now + session_ttl) m.db db q in
          subst (λ d. find_row (λ (x : SessionRow). x.id == id) (Db.sessions d) ≡ some row)
            (sym (granted-db session m (consume_session hash now token db) g))
            (consumed_keeps now token id row m.db.sessions db rows (eq_refl id) absent fresh)

  -- A granted session is valid for twelve hours: if `ExchangeDashboardToken` grants a session, whose
  -- token is not blank and has another hash than the sign-in token, then right after the
  -- exchange `ValidateSession` accepts it up to and at the twelfth hour after the exchange, and
  -- refuses it as unauthorized at every later time.
  pub exchange-valid :
      (now store_now later : Instant) (session token : String) (m : Manager)
      → (trim_space session == "") ≡ false
      → (hash session == hash token) ≡ false
      → (exchange_dashboard_token hash trim_space now store_now (some session) token m).0
        ≡ granted session
      → validate_session hash trim_space later session
          (exchange_dashboard_token hash trim_space now store_now (some session) token m).1
        ≡ (if ltb (now + session_ttl) later then some unauthorized else none)
  unfolding validate_session session_valid
  exchange-valid now store_now later session token m given fresh e =
      rw given
        (rw (granted_row now store_now session token m fresh e, session_valid) (ground arith))
