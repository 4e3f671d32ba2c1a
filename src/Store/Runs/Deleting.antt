-- ===== src/Store/Runs/Deleting.antt =====
-- `DeleteRun` and the selection of runs (internal/store/runs.go) as statements on tables.
use traceboard.Prelude.{
  ◌≤◌, String, Bool, true, false, List, [], ◌∷◌, ◌≡◌, refl, ◌∙◌, ◌==◌, arith, eq_iff, eq_refl, All,
  All-imp, select, exists_row, count_rows, delete_rows, Bool-cases, inl, inr,
}
use traceboard.Store.{RunRow}
use traceboard.Store.Consistent.{is_run}
use traceboard.Store.Runs.{insert_oldest, oldest_first, is_newer}

module _ {A : Type 0} where
  pub count_rows-delete :
      (q p : A → Bool) (l : List A)
      → ((x : A) → q x ≡ true → p x ≡ false)
      → count_rows q (delete_rows p l) ≡ count_rows q l
  unfolding count_rows delete_rows
  count_rows-delete q p [] h = refl
  count_rows-delete q p (x ∷ rest) h = ground (arith, h x, count_rows-delete q p rest h)

  pub exists_row-delete :
      (q p : A → Bool) (l : List A)
      → ((x : A) → q x ≡ true → p x ≡ false)
      → exists_row q (delete_rows p l) ≡ exists_row q l
  unfolding exists_row delete_rows
  exists_row-delete q p [] h = refl
  exists_row-delete q p (x ∷ rest) h = ground (arith, h x, exists_row-delete q p rest h)

  pub count_rows-deleted : (p : A → Bool) (l : List A) → count_rows p (delete_rows p l) ≡ 0
  unfolding count_rows delete_rows
  count_rows-deleted p [] = refl
  count_rows-deleted p (x ∷ rest) = ground (arith, count_rows-deleted p rest)

  pub exists_row-deleted : (p : A → Bool) (l : List A) → exists_row p (delete_rows p l) ≡ false
  unfolding exists_row delete_rows
  exists_row-deleted p [] = refl
  exists_row-deleted p (x ∷ rest) = ground (arith, exists_row-deleted p rest)

  pub count_rows-delete_none :
      (q p : A → Bool) (l : List A) → count_rows q l ≡ 0 → count_rows q (delete_rows p l) ≡ 0
  unfolding count_rows delete_rows
  count_rows-delete_none q p [] h = refl
  count_rows-delete_none q p (x ∷ rest) h = ground (arith, h, count_rows-delete_none q p rest)

  pub exists_row-delete_none :
      (q p : A → Bool) (l : List A)
      → exists_row q l ≡ false
      → exists_row q (delete_rows p l) ≡ false
  unfolding exists_row delete_rows
  exists_row-delete_none q p [] h = refl
  exists_row-delete_none q p (x ∷ rest) h = ground (arith, h, exists_row-delete_none q p rest)

  pub select-All :
      (P : A → Type 0) (p : A → Bool) (l : List A)
      → All P l
      → All (λ x. P x × (p x ≡ true)) (select p l)
  unfolding select
  select-All P p [] h = tt
  select-All P p (x ∷ rest) h = elim (Bool-cases (p x)) [
    | inl e ↦ rw e ((h.0, e), select-All P p rest h.1)
    | inr e ↦ rw e (select-All P p rest h.1)
  ]

  pub count_select_le : (q p : A → Bool) (l : List A) → count_rows q (select p l) ≤ count_rows q l
  unfolding count_rows select
  count_select_le q p [] = omega arith
  count_select_le q p (x ∷ rest) = ground (arith, count_select_le q p rest)

-- Rows of another run are not touched.
pub others_kept : (x id y : String) → (x == id) ≡ false → (y == x) ≡ true → (y == id) ≡ false
others_kept x id y h e = ground (arith, eq_iff x id, eq_iff y x, eq_iff y id)

-- No two runs have the same id: the primary key of the table `runs`.
abbrev pub HasUniqueIds : List RunRow → Type 0
HasUniqueIds runs = (x : String) → count_rows (is_run x) runs ≤ 1

none_of_id :
    (x : String) (runs : List RunRow)
    → count_rows (is_run x) runs ≡ 0
    → All (λ r. (r.id == x) ≡ false) runs
unfolding count_rows
none_of_id x [] h = tt
none_of_id x (r ∷ rest) h = (ground arith, none_of_id x rest (ground arith))

pub HasUniqueIds-head :
    (r : RunRow) (rest : List RunRow)
    → HasUniqueIds (r ∷ rest)
    → All (λ s. (s.id == r.id) ≡ false) rest
unfolding count_rows
HasUniqueIds-head r rest h = none_of_id r.id rest (ground (arith, h r.id, eq_refl r.id))

pub HasUniqueIds-tail :
    (r : RunRow) (rest : List RunRow) → HasUniqueIds (r ∷ rest) → HasUniqueIds rest
unfolding count_rows
HasUniqueIds-tail r rest h x = ground (arith, h x)

insert_oldest-All :
    (P : RunRow → Type 0) (r : RunRow) (l : List RunRow) → P r → All P l → All P (insert_oldest r l)
unfolding insert_oldest
insert_oldest-All P r [] p h = (p, tt)
insert_oldest-All P r (s ∷ rest) p h = elim (Bool-cases (is_newer r s)) [
  | inl e ↦ rw e (h.0, insert_oldest-All P r rest p h.1)
  | inr e ↦ rw e (p, h)
]

pub oldest_first-All : (P : RunRow → Type 0) (l : List RunRow) → All P l → All P (oldest_first l)
unfolding oldest_first
oldest_first-All P [] h = tt
oldest_first-All P (r ∷ rest) h = insert_oldest-All P r _ h.0 (oldest_first-All P rest h.1)

insert_oldest-count :
    (q : RunRow → Bool) (r : RunRow) (l : List RunRow)
    → count_rows q (insert_oldest r l) ≡ count_rows q (r ∷ l)
unfolding insert_oldest count_rows
insert_oldest-count q r [] = refl
insert_oldest-count q r (s ∷ rest) = ground (arith, insert_oldest-count q r rest)

pub oldest_first-count :
    (q : RunRow → Bool) (l : List RunRow) → count_rows q (oldest_first l) ≡ count_rows q l
unfolding oldest_first count_rows
oldest_first-count q [] = refl
oldest_first-count q (r ∷ rest) =
    insert_oldest-count q r (oldest_first rest) ∙ ground (arith, oldest_first-count q rest)

-- Every run of a table is found there by its id.
pub All-found : (runs : List RunRow) → All (λ r. exists_row (is_run r.id) runs ≡ true) runs
unfolding exists_row
All-found [] = tt
All-found (r ∷ rest) =
    (ground (arith, eq_refl r.id), All-imp _ _ rest (λ s h. ground arith) (All-found rest))
