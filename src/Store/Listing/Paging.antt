-- ===== src/Store/Listing/Paging.antt =====
-- The pages of `ListRuns` (internal/store/runs.go) against the whole list of the runs that pass a
-- filter.
use traceboard.Prelude.{
  ℕ, suc, Bool, true, false, Option, none, some, List, [], ◌∷◌, ◌==◌, ◌&&◌, ◌≡◌, refl, sym, ap,
  subst, ◌∙◌, arith, take, drop, All, All-imp, All-both, zero, eq_iff, select,
}
use traceboard.Prelude.Sorting.{
  sort_by, IsOrder, IsOrdered, sort_by-IsOrdered, sort_by-All, select-sort_by, count_rows-sort_by,
}
use traceboard.Prelude.TextOrder.{text_before_asym, text_before_trans, text_before_total}
use traceboard.Platform.{Platform}
use traceboard.Store.{Db, RunRow}
use traceboard.Store.Runs.{is_newer}
use traceboard.Store.Runs.Deleting.{
  HasUniqueIds, HasUniqueIds-head, HasUniqueIds-tail, count_select_le, select-All,
}
use traceboard.Store.Consistent.{is_run}
use traceboard.Store.Listing.{
  RunFilter, RunCursor, Queries, passes, is_after_key, is_after_cursor, matching, last_run,
  cursor_of,
}

is_newer-IsOrder : IsOrder is_newer
unfolding is_newer
is_newer-IsOrder = record {
  asym = λ a b h. ground (arith, h, text_before_asym b.id a.id);
  trans = λ a b c h k. ground (arith, h, k, text_before_trans c.id b.id a.id);
}

-- Every run is newer than those behind it.
abbrev IsStrict : List RunRow → Type 0
IsStrict [] = Unit
IsStrict (r ∷ rest) = All (λ s. is_newer r s ≡ true) rest × IsStrict rest

-- Two runs with different ids stand in one order or the other.
newer_of_other :
    (r s : RunRow) → is_newer s r ≡ false → (s.id == r.id) ≡ false → is_newer r s ≡ true
unfolding is_newer
newer_of_other r s h e = ground (arith, h, e, eq_iff s.id r.id, text_before_total s.id r.id)

ordered-IsStrict : (l : List RunRow) → IsOrdered is_newer l → HasUniqueIds l → IsStrict l
ordered-IsStrict [] h u = tt
ordered-IsStrict (r ∷ rest) h u = (
  All-imp _ _ rest (λ s p. newer_of_other r s p.0 p.1)
      (All-both _ _ rest h.0 (HasUniqueIds-head r rest u)),
  ordered-IsStrict rest h.1 (HasUniqueIds-tail r rest u),
)

select-all : {A : Type 0} (p : A → Bool) (l : List A) → All (λ x. p x ≡ true) l → select p l ≡ l
unfolding select
select-all p [] h = refl
select-all p (x ∷ rest) h = rw (h.0, select-all p rest h.1) refl

last_run-All :
    (P : RunRow → Type 0) (n : ℕ) (r : RunRow) (rest : List RunRow)
    → P r
    → All P rest
    → P (last_run r (take n rest))
unfolding last_run
last_run-All P zero r rest p h = p
last_run-All P (suc n) r [] p h = p
last_run-All P (suc n) r (s ∷ rest) p h = last_run-All P n s rest h.0 h.1

not_before_itself : (r : RunRow) → is_newer r r ≡ false
not_before_itself r = ground (arith, IsOrder.asym is_newer-IsOrder r r)

-- What stands behind the last run of a page is what the page leaves.
select-last_run :
    (n : ℕ) (r : RunRow) (rest : List RunRow)
    → IsStrict (r ∷ rest)
    → select (is_newer (last_run r (take n rest))) (r ∷ rest) ≡ drop n rest
unfolding last_run select
select-last_run zero r rest h = rw (not_before_itself r) (select-all (is_newer r) rest h.0)
select-last_run (suc n) r [] h = rw (not_before_itself r) refl
select-last_run (suc n) r (s ∷ rest) h =
    let last = last_run s (take n rest) in
    let later = last_run-All (λ x. is_newer r x ≡ true) n s rest h.0.0 h.0.1 in
    rw (is_newer-IsOrder.asym r last later) (select-last_run n s rest h.1)

select-select :
    {A : Type 0} (p q r : A → Bool) (l : List A)
    → ((x : A) → (p x && q x) ≡ r x)
    → select q (select p l) ≡ select r l
unfolding select
select-select p q r [] h = refl
select-select p q r (x ∷ rest) h = ground (arith, h x, select-select p q r rest h)

module _ (platform : Platform) (queries : Queries) (filter : RunFilter) (db : Db) where
  unique_rows :
      (cursor : Option RunCursor)
      → HasUniqueIds db.runs
      → HasUniqueIds (matching platform queries filter cursor db)
  unfolding matching
  unique_rows cursor u x =
      let test : RunRow → Bool =
        λ r. passes platform queries filter db r && is_after_cursor cursor r in
      ground (
        arith,
        count_rows-sort_by is_newer (is_run x) (select test db.runs),
        count_select_le (is_run x) test db.runs,
        u x,
      )

  -- The rows that the query finds stand newest first.
  matching-IsStrict :
      (cursor : Option RunCursor)
      → HasUniqueIds db.runs
      → IsStrict (matching platform queries filter cursor db)
  unfolding matching
  matching-IsStrict cursor u =
      ordered-IsStrict (matching platform queries filter cursor db)
        (sort_by-IsOrdered is_newer is_newer-IsOrder _) (unique_rows cursor u)

  -- A run behind one that a cursor has not passed is one that the cursor has not passed.
  behind_cursor :
      (cursor : Option RunCursor) (k r : RunRow)
      → is_after_cursor cursor k ≡ true
      → (is_after_cursor cursor r && is_newer k r) ≡ is_after_cursor (some (cursor_of k)) r
  unfolding is_after_key is_newer
  behind_cursor none k r h = ground arith
  behind_cursor (some c) k r h = ground (
    arith,
    h,
    text_before_trans r.id c.id k.id,
    text_before_asym k.id c.id,
    text_before_asym r.id k.id,
  )

all_rows : {A : Type 0} (l : List A) → All (λ x. Unit {0}) l
all_rows [] = tt
all_rows (x ∷ l) = (tt, all_rows l)

module _ (platform : Platform) (queries : Queries) (filter : RunFilter) (db : Db) where
  after_cursor :
      (cursor : Option RunCursor)
      → All (λ x. is_after_cursor cursor x ≡ true) (matching platform queries filter cursor db)
  unfolding matching
  after_cursor cursor =
      let test : RunRow → Bool =
        λ x. passes platform queries filter db x && is_after_cursor cursor x in
      sort_by-All is_newer _ (select test db.runs) (
        All-imp _ _ (select test db.runs) (λ x h. ground (arith, h.1))
          (select-All (λ x. Unit {0}) test db.runs (all_rows db.runs)))

  -- The rows behind a page are those that its cursor asks for.
  pub matching-drop :
      (cursor : Option RunCursor) (n : ℕ) (r : RunRow) (rest : List RunRow)
      → HasUniqueIds db.runs
      → matching platform queries filter cursor db ≡ r ∷ rest
      → matching platform queries filter (some (cursor_of (last_run r (take n rest)))) db
        ≡ drop n rest
  unfolding matching
  matching-drop cursor n r rest u e =
      let k = last_run r (take n rest) in
      let test : RunRow → Bool =
        λ x. passes platform queries filter db x && is_after_cursor cursor x in
      let later : RunRow → Bool =
        λ x. passes platform queries filter db x && is_after_cursor (some (cursor_of k)) x in
      let not_passed : All (λ x. is_after_cursor cursor x ≡ true) (r ∷ rest) =
        subst (All (λ x. is_after_cursor cursor x ≡ true)) e (after_cursor cursor) in
      let k_after =
        last_run-All (λ x. is_after_cursor cursor x ≡ true) n r rest not_passed.0 not_passed.1 in
      sym (
        ap (sort_by is_newer) (
          select-select test (is_newer k) later db.runs
            (λ x. ground (arith, behind_cursor platform queries filter db cursor k x k_after))))
      ∙ (sym (select-sort_by is_newer is_newer-IsOrder (is_newer k) (select test db.runs))
          ∙ (ap (select (is_newer k)) e
              ∙ select-last_run n r rest
                  (subst IsStrict e (matching-IsStrict platform queries filter db cursor u))))
