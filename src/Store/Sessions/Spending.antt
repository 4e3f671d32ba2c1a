-- ===== src/Store/Sessions/Spending.antt =====
-- What `CreateSession` and `ConsumeSession` (internal/store/sources.go) leave in the table.
use traceboard.Prelude.{
  ◌++◌, ◌==◌, ◌≤◌, String, false, none, some, List, [], ◌∷◌, ◌≡◌, refl, subst, arith, find_row,
  exists_row, count_rows, update_rows, Bool-cases, Option-cases, inl, inr, eq_refl,
}
use traceboard.Event.{Instant}
use traceboard.Store.{Db, SessionRow, ok, err, session_not_found}
use traceboard.Store.Sessions.{
  create_session, new_session, has_hash, is_unspent, is_usable, is_consumable, consumed,
  consume_row, consume_session,
}

-- The UNIQUE constraint on `token_hash`.
abbrev pub HasUniqueHashes : List SessionRow → Type 0
HasUniqueHashes l = (h : String) → count_rows (has_hash h) l ≤ 1

absent_unspent :
    (h id : String) (at : Instant) (l : List SessionRow)
    → count_rows (has_hash h) l ≡ 0
    → exists_row (is_unspent h) (update_rows (is_consumable id) (consumed at) l) ≡ false
unfolding count_rows exists_row update_rows
absent_unspent h id at [] e = refl
absent_unspent h id at (x ∷ rest) e = ground (arith, absent_unspent h id at rest)

found_counted :
    (h : String) (at : Instant) (l : List SessionRow) (r : SessionRow)
    → find_row (is_usable h at) l ≡ some r
    → 1 ≤ count_rows (has_hash h) l
unfolding count_rows find_row
found_counted h at [] r e = absurd (cc)
found_counted h at (x ∷ rest) r e = ground (arith, found_counted h at rest r)

-- The update of `ConsumeSession` uses up the only row of its hash.
pub consumed-spent :
    (h : String) (at : Instant) (l : List SessionRow) (r : SessionRow)
    → count_rows (has_hash h) l ≤ 1
    → find_row (is_usable h at) l ≡ some r
    → exists_row (is_unspent h) (update_rows (is_consumable r.id) (consumed at) l) ≡ false
unfolding count_rows find_row exists_row update_rows
consumed-spent h at [] r c e = absurd (cc)
consumed-spent h at (x ∷ rest) r c e = elim (Bool-cases (is_usable h at x)) [
  | inl usable ↦
      let same : x ≡ r = ground arith in
      let spent = absent_unspent h x.id at rest (ground arith) in
      subst
        (λ y.
          exists_row (is_unspent h)
            (update_rows (is_consumable (SessionRow.id y)) (consumed at) (x ∷ rest))
          ≡ false)
        same (ground (arith, spent, eq_refl x.id))
  | inr other ↦
      let found : find_row (is_usable h at) rest ≡ some r = ground arith in
      let there = found_counted h at rest r found in
      let later = consumed-spent h at rest r (ground arith) found in ground (arith, there, later)
]

-- A hash whose rows are all used up is not found, at whatever time.
pub spent_not_found :
    (h : String) (at : Instant) (l : List SessionRow)
    → exists_row (is_unspent h) l ≡ false
    → find_row (is_usable h at) l ≡ none
unfolding find_row exists_row
spent_not_found h at [] e = refl
spent_not_found h at (x ∷ rest) e = ground (arith, spent_not_found h at rest)

module _ (hash_token : String → String) where
  -- What a successful `CreateSession` has checked and added.
  pub create_session_parts :
      (now : Instant) (id token : String) (expires_at : Instant) (db after : Db)
      → create_session hash_token now id token expires_at db ≡ ok after
      → (after.sessions ≡ db.sessions ++ (new_session hash_token now id token expires_at ∷ []))
        × (exists_row (λ r. r.id == id) db.sessions ≡ false)
        × (exists_row (has_hash (hash_token token)) db.sessions ≡ false)
  unfolding create_session
  create_session_parts now id token expires_at db after e = ground arith

  -- A sign-in token works once: where no two sessions have the same token hash, a token that
  -- `ConsumeSession` has accepted is refused by every later call as not found, at whatever time,
  -- and that call changes nothing.
  pub consume_session_once :
      (at later : Instant) (token id : String) (db : Db)
      → HasUniqueHashes db.sessions
      → (consume_session hash_token at token db).0 ≡ ok id
      → consume_session hash_token later token (consume_session hash_token at token db).1
        ≡ (err session_not_found, (consume_session hash_token at token db).1)
  unfolding consume_session consume_row
  consume_session_once at later token id db unique accepted =
      elim (Option-cases (find_row (is_usable (hash_token token) at) db.sessions)) [
        | inl missing ↦ absurd (ground arith)
        | inr (r, found) ↦
            rw (found, consume_row)
              (rw
                (
                  spent_not_found (hash_token token) later _ (
                      consumed-spent (hash_token token) at db.sessions r (unique (hash_token token))
                        found),
                  consume_row,
                )
                refl)
      ]
