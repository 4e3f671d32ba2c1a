-- ===== src/Auth/Spent.antt =====
-- A sign-in token of internal/auth/auth.go through the whole history of its manager.
use traceboard.Prelude.{
  String, ◌+◌, ◌≤◌, sym, count_rows, count_rows-append, Bool, false, Option, none, some, List, [],
  ◌∷◌, ◌≡◌, refl, ◌==◌, arith, exists_row, exists_row-append, update_rows, delete_rows, find_row,
  subst, Option-cases, Bool-cases, inl, inr,
}
use traceboard.Event.{Instant}
use traceboard.Store.{Db, SessionRow, Result, ok, err, session_not_found}
use traceboard.Store.Sessions.{
  is_unspent, is_usable, is_consumable, consumed, has_hash, create_session, consume_row,
  consume_session, delete_session, delete_all_sessions, delete_expired_sessions,
}
use traceboard.Store.Sessions.Spending.{
  HasUniqueHashes, create_session_parts, consumed-spent, spent_not_found,
}
use traceboard.Auth.{
  AuthError, token_generation, store_failure, session_id, session_ttl, sign_in_id,
  sign_in_token_ttl, Manager, Outcome, granted, denied, issue_sign_in_token, issued,
  exchange_dashboard_token, created_session, exchanged, logout, rotate_dashboard, purge_expired,
}

abbrev pub IsSpent : String → List SessionRow → Type 0
IsSpent h l = exists_row (is_unspent h) l ≡ false

IsSpent-delete :
    (h : String) (p : SessionRow → Bool) (l : List SessionRow)
    → IsSpent h l
    → IsSpent h (delete_rows p l)
unfolding exists_row delete_rows
IsSpent-delete h p [] e = refl
IsSpent-delete h p (x ∷ rest) e = ground (arith, IsSpent-delete h p rest)

IsSpent-consume :
    (h id : String) (at : Instant) (l : List SessionRow)
    → IsSpent h l
    → IsSpent h (update_rows (is_consumable id) (consumed at) l)
unfolding exists_row update_rows
IsSpent-consume h id at [] e = refl
IsSpent-consume h id at (x ∷ rest) e = ground (arith, IsSpent-consume h id at rest)

module _ (hash : String → String) where
  create_session-IsSpent :
      (now : Instant) (id token h : String) (expires_at : Instant) (db after : Db)
      → (hash token == h) ≡ false
      → create_session hash now id token expires_at db ≡ ok after
      → IsSpent h db.sessions
      → IsSpent h after.sessions
  unfolding exists_row
  create_session-IsSpent now id token h expires_at db after other e spent =
      let (rows, x1, x2) = create_session_parts hash now id token expires_at db after e in
      rw rows (rw exists_row-append (ground arith))

  missing_row :
      (at : Instant) (token : String) (db : Db)
      → IsSpent (hash token) db.sessions
      → (consume_session hash at token db).0 ≡ err session_not_found
  unfolding consume_session consume_row
  missing_row at token db spent =
      rw (spent_not_found (hash token) at db.sessions spent, consume_row)

  consume_session-IsSpent :
      (at : Instant) (token h : String) (db : Db)
      → IsSpent h db.sessions
      → IsSpent h (consume_session hash at token db).1.sessions
  unfolding consume_session consume_row
  consume_session-IsSpent at token h db spent =
      elim (Option-cases (find_row (is_usable (hash token) at) db.sessions)) [
        | inl e ↦ rw (e, consume_row) spent
        | inr (r, e) ↦ rw (e, consume_row) (IsSpent-consume h r.id at db.sessions spent)
      ]

module _ (hash trim_space : String → String) (h : String) where
  -- A random token with another hash than `h`, or a failure of the generator.
  abbrev pub IsFresh : Option String → Type 0
  IsFresh none = Unit {0}
  IsFresh (some token) = (hash token == h) ≡ false

  issued-IsSpent :
      (token : String) (m : Manager) (r : Result Db)
      → ((db : Db) → r ≡ ok db → IsSpent h db.sessions)
      → IsSpent h m.db.sessions
      → IsSpent h (issued hash trim_space token m r).1.db.sessions
  unfolding issued
  issued-IsSpent token m (err e) k spent = spent
  issued-IsSpent token m (ok db) k spent = k db refl

  issue-IsSpent :
      (now store_now : Instant) (token : Option String) (m : Manager)
      → IsFresh token
      → IsSpent h m.db.sessions
      → IsSpent h (issue_sign_in_token hash trim_space now store_now token m).1.db.sessions
  unfolding issue_sign_in_token
  issue-IsSpent now store_now none m fresh spent = spent
  issue-IsSpent now store_now (some token) m fresh spent =
      let id = sign_in_id hash trim_space token in
      let expires_at = now + sign_in_token_ttl in
      issued-IsSpent token m (create_session hash store_now id token expires_at m.db)
        (λ db e. create_session-IsSpent hash store_now id token h expires_at m.db db fresh e spent)
        spent

  exchanged-IsSpent :
      (session : String) (m : Manager) (r : Result String × Db)
      → IsSpent h r.1.sessions
      → IsSpent h (exchanged hash trim_space session m r).1.db.sessions
  unfolding exchanged delete_session
  exchanged-IsSpent session m (err e, db) spent = IsSpent-delete h _ db.sessions spent
  exchanged-IsSpent session m (ok id, db) spent = spent

  created-IsSpent :
      (now : Instant) (token session : String) (m : Manager) (r : Result Db)
      → ((db : Db) → r ≡ ok db → IsSpent h db.sessions)
      → IsSpent h m.db.sessions
      → IsSpent h (created_session hash trim_space now token session m r).1.db.sessions
  unfolding created_session
  created-IsSpent now token session m (err e) k spent = spent
  created-IsSpent now token session m (ok db) k spent =
      exchanged-IsSpent session m _ (consume_session-IsSpent hash now token h db (k db refl))

  exchange-IsSpent :
      (now store_now : Instant) (random : Option String) (token : String) (m : Manager)
      → IsFresh random
      → IsSpent h m.db.sessions
      → IsSpent h
          (exchange_dashboard_token hash trim_space now store_now random token m).1.db.sessions
  unfolding exchange_dashboard_token
  exchange-IsSpent now store_now none token m fresh spent = spent
  exchange-IsSpent now store_now (some session) token m fresh spent =
      created-IsSpent now token session m _
        (λ db e. create_session-IsSpent hash store_now _ session h _ m.db db fresh e spent) spent

  -- What may happen to a manager: every method that changes it, with fresh random tokens.
  pub data AuthStep : Manager → Manager → Type 0 where
    signing_in :
        (now store_now : Instant) (random : Option String) (m : Manager)
        → IsFresh random
        → AuthStep m (issue_sign_in_token hash trim_space now store_now random m).1
    exchanging :
        (now store_now : Instant) (random : Option String) (token : String) (m : Manager)
        → IsFresh random
        → AuthStep m (exchange_dashboard_token hash trim_space now store_now random token m).1
    logging_out : (session : String) (m : Manager) → AuthStep m (logout hash trim_space session m)
    rotating :
        (now store_now : Instant) (random : Option String) (m : Manager)
        → IsFresh random
        → AuthStep m (rotate_dashboard hash trim_space now store_now random m).1
    purging : (now : Instant) (m : Manager) → AuthStep m (purge_expired hash trim_space now m).1

  pub data AuthSteps : Manager → Manager → Type 0 where
    done : (m : Manager) → AuthSteps m m
    more : (m next after : Manager) → AuthStep m next → AuthSteps next after → AuthSteps m after

  logout-IsSpent :
      (session : String) (m : Manager)
      → IsSpent h m.db.sessions
      → IsSpent h (logout hash trim_space session m).db.sessions
  unfolding logout delete_session
  logout-IsSpent session m spent = elim (Bool-cases (trim_space session == "")) [
    | inl e ↦ rw e spent
    | inr e ↦ rw e (IsSpent-delete h _ m.db.sessions spent)
  ]

  step-IsSpent :
      (m after : Manager) → AuthStep m after → IsSpent h m.db.sessions → IsSpent h after.db.sessions
  unfolding rotate_dashboard delete_all_sessions purge_expired delete_expired_sessions exists_row
  step-IsSpent _ _ (signing_in now store_now random m fresh) spent =
      issue-IsSpent now store_now random m fresh spent
  step-IsSpent _ _ (exchanging now store_now random token m fresh) spent =
      exchange-IsSpent now store_now random token m fresh spent
  step-IsSpent _ _ (logging_out session m) spent = logout-IsSpent session m spent
  step-IsSpent _ _ (rotating now store_now random m fresh) spent =
      issue-IsSpent now store_now random _ fresh refl
  step-IsSpent _ _ (purging now m) spent = IsSpent-delete h _ m.db.sessions spent

  steps-IsSpent :
      (m after : Manager)
      → AuthSteps m after
      → IsSpent h m.db.sessions
      → IsSpent h after.db.sessions
  steps-IsSpent _ _ (done m) spent = spent
  steps-IsSpent _ _ (more m next after s rest) spent =
      steps-IsSpent next after rest (step-IsSpent m next s spent)

abbrev pub IsDenied : Outcome String → Type 0
IsDenied r = (e : AuthError) × (r ≡ denied e)

module _ (hash trim_space : String → String) where
  exchanged_missing :
      (session : String) (m : Manager) (r : Result String × Db)
      → r.0 ≡ err session_not_found
      → IsDenied (exchanged hash trim_space session m r).0
  unfolding exchanged
  exchanged_missing session m (err e, db) h = (_, refl)
  exchanged_missing session m (ok id, db) h = cc

  spent_exchange :
      (now store_now : Instant) (random : Option String) (token : String) (m : Manager)
      → IsFresh hash trim_space (hash token) random
      → IsSpent (hash token) m.db.sessions
      → IsDenied (exchange_dashboard_token hash trim_space now store_now random token m).0
  unfolding exchange_dashboard_token
  spent_exchange now store_now none token m fresh spent = (token_generation, refl)
  spent_exchange now store_now (some session) token m fresh spent = split _ refl
    where
      split :
          (r : Result Db)
          → create_session hash store_now
              (session_id hash trim_space session)
              session
              (now + session_ttl)
              m.db
            ≡ r
          → IsDenied (created_session hash trim_space now token session m r).0
      split (err e) q = (store_failure e, refl)
      split (ok db) q =
          let later =
            create_session-IsSpent hash store_now _ session (hash token) _ m.db db fresh q spent in
          exchanged_missing session m _ (missing_row hash now token db later)

  exchanged_granted :
      (session given : String) (m : Manager) (r : Result String × Db)
      → (exchanged hash trim_space session m r).0 ≡ granted given
      → ((id : String) × (r.0 ≡ ok id)) × ((exchanged hash trim_space session m r).1.db ≡ r.1)
  unfolding exchanged
  exchanged_granted session given m (err e, db) h = absurd (ground arith)
  exchanged_granted session given m (ok id, db) h = ((id, refl), refl)

  -- An accepted token is spent.
  consumed-IsSpent :
      (at : Instant) (token id : String) (db : Db)
      → count_rows (has_hash (hash token)) db.sessions ≤ 1
      → (consume_session hash at token db).0 ≡ ok id
      → IsSpent (hash token) (consume_session hash at token db).1.sessions
  unfolding consume_session consume_row
  consumed-IsSpent at token id db unique accepted =
      elim (Option-cases (find_row (is_usable (hash token) at) db.sessions)) [
        | inl missing ↦ absurd (ground arith)
        | inr (r, found) ↦
            rw (found, consume_row) (consumed-spent (hash token) at db.sessions r unique found)
      ]

  created_count :
      (now : Instant) (id token h : String) (expires_at : Instant) (db after : Db)
      → (hash token == h) ≡ false
      → create_session hash now id token expires_at db ≡ ok after
      → count_rows (has_hash h) after.sessions ≡ count_rows (has_hash h) db.sessions
  unfolding count_rows
  created_count now id token h expires_at db after other e =
      let (rows, x1, x2) = create_session_parts hash now id token expires_at db after e in
      rw rows (rw count_rows-append (ground arith))

  exchange_spends :
      (now store_now : Instant) (random : Option String) (token given : String) (m : Manager)
      → IsFresh hash trim_space (hash token) random
      → count_rows (has_hash (hash token)) m.db.sessions ≤ 1
      → (exchange_dashboard_token hash trim_space now store_now random token m).0 ≡ granted given
      → IsSpent
          (hash token)
          (exchange_dashboard_token hash trim_space now store_now random token m).1.db.sessions
  unfolding exchange_dashboard_token
  exchange_spends now store_now none token given m fresh unique e = absurd (ground arith)
  exchange_spends now store_now (some session) token given m fresh unique e = split _ refl e
    where
      split :
          (r : Result Db)
          → create_session hash store_now
              (session_id hash trim_space session)
              session
              (now + session_ttl)
              m.db
            ≡ r
          → (created_session hash trim_space now token session m r).0 ≡ granted given
          → IsSpent
              (hash token)
              (created_session hash trim_space now token session m r).1.db.sessions
      split (err x) q g = absurd (ground arith)
      split (ok db) q g =
          let same = created_count store_now _ session (hash token) _ m.db db fresh q in
          let ((id, accepted), kept) =
            exchanged_granted session given m (consume_session hash now token db) g in
          subst (λ d. IsSpent (hash token) (Db.sessions d)) (sym kept)
            (consumed-IsSpent now token id db (omega (arith, same, unique)) accepted)

  -- A sign-in token opens at most one session. Where no two stored sessions have the same token
  -- hash, once `ExchangeDashboardToken` has granted a session for a token, every later exchange of
  -- that token is denied, whatever tokens are issued and exchanged in between, and whoever logs
  -- out, rotates the dashboard's sessions or purges the expired ones, as long as the
  -- random tokens that are drawn have other hashes than that token.
  pub exchange_once :
      (now store_now later store_later : Instant) (random random' : Option String)
      (token given : String) (m after : Manager)
      → HasUniqueHashes m.db.sessions
      → IsFresh hash trim_space (hash token) random
      → (exchange_dashboard_token hash trim_space now store_now random token m).0 ≡ granted given
      → AuthSteps hash trim_space
          (hash token)
          (exchange_dashboard_token hash trim_space now store_now random token m).1
          after
      → IsFresh hash trim_space (hash token) random'
      → IsDenied (exchange_dashboard_token hash trim_space later store_later random' token after).0
  exchange_once now store_now later store_later random random' token given m after unique fresh e
        steps fresh' =
      spent_exchange later store_later random' token after fresh' (
        steps-IsSpent hash trim_space (hash token) _ after steps
          (exchange_spends now store_now random token given m fresh (unique (hash token)) e))
