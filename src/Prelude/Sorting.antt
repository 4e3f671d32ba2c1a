-- ===== src/Prelude/Sorting.antt =====
-- Insertion sort by a test, as the model of ORDER BY and of Go's stable sorts: the result is ordered,
-- and selecting rows before sorting them is selecting them afterwards.
use mathlib.Core.List.{Perm}
use mathlib.Core.List.Perm
use traceboard.Prelude.Tests.{if◌then◌else◌, Bool-cases}
use traceboard.Prelude.Lists.{All, All-imp}
use traceboard.Prelude.Tables.{select, count_rows}
use mathlib.Core.Path.{◌≡◌, refl, sym, ap, ◌∙◌}
use mathlib.Core.Bool.{Bool, true, false}
use mathlib.Core.Logic.{inl, inr}
use mathlib.Core.List.{List, [], ◌∷◌}
use native.Mathlib.Omega.{arith}

module _ {ℓ} {A : Type ℓ} (before : A → A → Bool) where
  unfoldable pub insert_by : A → List A → List A
  insert_by e [] = e ∷ []
  insert_by e (d ∷ rest) =
      let later = insert_by e rest in if before d e then d ∷ later else e ∷ d ∷ rest

  unfoldable pub sort_by : List A → List A
  unfolding insert_by
  sort_by [] = []
  sort_by (e ∷ rest) = insert_by e (sort_by rest)

  -- No element stands behind one that comes after it.
  abbrev pub IsOrdered : List A → Type ℓ
  IsOrdered [] = Unit
  IsOrdered (e ∷ rest) = All (λ d. before d e ≡ false) rest × IsOrdered rest

  -- `before` is a strict order whose negation is transitive.
  pub record IsOrder : Type ℓ where
    pub asym : (a b : A) → before a b ≡ true → before b a ≡ false
    pub trans : (a b c : A) → before a b ≡ false → before b c ≡ false → before a c ≡ false

  insert_by-perm : (e : A) (l : List A) → Perm (insert_by e l) (e ∷ l)
  unfolding insert_by
  insert_by-perm e [] = Perm.refl _
  insert_by-perm e (d ∷ rest) = elim (Bool-cases (before d e)) [
    | inl first ↦ rw first (Perm.trans (Perm.cons d (insert_by-perm e rest)) (Perm.swap e d rest))
    | inr other ↦ rw other (Perm.refl _)
  ]

  pub sort_by-perm : (l : List A) → Perm (sort_by l) l
  unfolding sort_by
  sort_by-perm [] = Perm.refl _
  sort_by-perm (e ∷ rest) =
      Perm.trans (insert_by-perm e (sort_by rest)) (Perm.cons e (sort_by-perm rest))

  insert_by-All {κ} : (P : A → Type κ) (e : A) (l : List A) → P e → All P l → All P (insert_by e l)
  unfolding insert_by
  insert_by-All P e [] p h = (p, tt)
  insert_by-All P e (d ∷ rest) p h = elim (Bool-cases (before d e)) [
    | inl first ↦ rw first (h.0, insert_by-All P e rest p h.1)
    | inr other ↦ rw other (p, h)
  ]

  pub sort_by-All {κ} : (P : A → Type κ) (l : List A) → All P l → All P (sort_by l)
  unfolding sort_by
  sort_by-All P [] h = tt
  sort_by-All P (e ∷ rest) h = insert_by-All P e (sort_by rest) h.0 (sort_by-All P rest h.1)

  insert_by-first : (e : A) (l : List A) → All (λ d. before d e ≡ false) l → insert_by e l ≡ e ∷ l
  unfolding insert_by
  insert_by-first e [] h = refl
  insert_by-first e (d ∷ rest) h = rw h.0 refl

  count_rows-insert_by :
      (q : A → Bool) (e : A) (l : List A) → count_rows q (insert_by e l) ≡ count_rows q (e ∷ l)
  unfolding insert_by count_rows
  count_rows-insert_by q e [] = refl
  count_rows-insert_by q e (d ∷ rest) = ground (arith, count_rows-insert_by q e rest)

  -- Sorting keeps the number of the rows that pass a test.
  pub count_rows-sort_by : (q : A → Bool) (l : List A) → count_rows q (sort_by l) ≡ count_rows q l
  unfolding sort_by count_rows
  count_rows-sort_by q [] = refl
  count_rows-sort_by q (e ∷ rest) =
      count_rows-insert_by q e (sort_by rest) ∙ (rw (count_rows-sort_by q rest) refl)

  select-All {κ} : (P : A → Type κ) (p : A → Bool) (l : List A) → All P l → All P (select p l)
  unfolding select
  select-All P p [] h = tt
  select-All P p (d ∷ rest) h = elim (Bool-cases (p d)) [
    | inl yes_p ↦ rw yes_p (h.0, select-All P p rest h.1)
    | inr no_p ↦ rw no_p (select-All P p rest h.1)
  ]

  module _ (order : IsOrder) where
    insert_by-IsOrdered : (e : A) (l : List A) → IsOrdered l → IsOrdered (insert_by e l)
    unfolding insert_by
    insert_by-IsOrdered e [] h = (tt, tt)
    insert_by-IsOrdered e (d ∷ rest) h = elim (Bool-cases (before d e)) [
      | inl first ↦ rw first (
        insert_by-All (λ c. before c d ≡ false) e rest (order.asym d e first) h.0,
        insert_by-IsOrdered e rest h.1,
      )
      | inr other ↦ rw other ((other, All-imp _ _ rest (λ c p. order.trans c d e p other) h.0), h)
    ]

    pub sort_by-IsOrdered : (l : List A) → IsOrdered (sort_by l)
    unfolding sort_by
    sort_by-IsOrdered [] = tt
    sort_by-IsOrdered (e ∷ rest) = insert_by-IsOrdered e (sort_by rest) (sort_by-IsOrdered rest)

    select-insert_by :
        (p : A → Bool) (e : A) (l : List A)
        → IsOrdered l
        → select p (insert_by e l) ≡ (if p e then insert_by e (select p l) else select p l)
    unfolding insert_by select
    select-insert_by p e [] h = ground arith
    select-insert_by p e (d ∷ rest) h = elim (Bool-cases (before d e)) [
      | inl first ↦ rw first (ground (arith, first, select-insert_by p e rest h.1))
      | inr other ↦ rw other (
          let lower = All-imp _ _ rest (λ c q. order.trans c d e q other) h.0 in
          let all = select-All (λ c. before c e ≡ false) p (d ∷ rest) (other, lower) in
          elim (Bool-cases (p e)) [
            | inl yes_p ↦ rw yes_p (sym (insert_by-first e (select p (d ∷ rest)) all))
            | inr no_p ↦ rw no_p refl
          ])
    ]

    -- Sorting what a SELECT finds is selecting from what is sorted.
    pub select-sort_by : (p : A → Bool) (l : List A) → select p (sort_by l) ≡ sort_by (select p l)
    unfolding sort_by select
    select-sort_by p [] = refl
    select-sort_by p (e ∷ rest) =
        select-insert_by p e (sort_by rest) (sort_by-IsOrdered rest) ∙ elim (Bool-cases (p e)) [
          | inl yes_p ↦ rw yes_p (ap (insert_by e) (select-sort_by p rest))
          | inr no_p ↦ rw no_p (select-sort_by p rest)
        ]
