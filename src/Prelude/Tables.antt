-- ===== src/Prelude/Tables.antt =====
-- Tables as lists of rows: the SQL statements of the store as functions of a row test.
use Prim.Native.Nat.{ℕ, ◌+◌}
use mathlib.Core.Path.{◌≡◌, refl, subst}
use mathlib.Core.Bool.{Bool, true, false, ◌||◌}
use mathlib.Core.Option.{Option, none, some}
use mathlib.Core.List.{List, [], ◌∷◌, ◌++◌}
use native.Mathlib.Omega.{arith}
use traceboard.Prelude.Tests.{if◌then◌else◌}
use traceboard.Prelude.Lists.{All}

module _ {ℓ} {A : Type ℓ} where
  -- SELECT … WHERE
  unfoldable pub select : (A → Bool) → List A → List A
  select p [] = []
  select p (x ∷ xs) = let rest = select p xs in if p x then x ∷ rest else rest

  -- SELECT … WHERE … LIMIT 1
  unfoldable pub find_row : (A → Bool) → List A → Option A
  find_row p [] = none
  find_row p (x ∷ xs) = let rest = find_row p xs in if p x then some x else rest

  -- SELECT EXISTS(…)
  unfoldable pub exists_row : (A → Bool) → List A → Bool
  exists_row p [] = false
  exists_row p (x ∷ xs) = p x || exists_row p xs

  -- SELECT COUNT(*)
  unfoldable pub count_rows : (A → Bool) → List A → ℕ
  count_rows p [] = 0
  count_rows p (x ∷ xs) = (if p x then 1 else 0) + count_rows p xs

  -- UPDATE … SET … WHERE
  unfoldable pub update_rows : (A → Bool) → (A → A) → List A → List A
  update_rows p f [] = []
  update_rows p f (x ∷ xs) = (if p x then f x else x) ∷ update_rows p f xs

  -- DELETE … WHERE
  unfoldable pub delete_rows : (A → Bool) → List A → List A
  delete_rows p [] = []
  delete_rows p (x ∷ xs) = let rest = delete_rows p xs in if p x then rest else x ∷ rest

module _ {ℓ} {A : Type ℓ} where
  pub count_rows-append :
      (p : A → Bool) (xs ys : List A) → count_rows p (xs ++ ys) ≡ count_rows p xs + count_rows p ys
  unfolding count_rows
  count_rows-append p [] ys = omega arith
  count_rows-append p (x ∷ xs) ys = omega (arith, count_rows-append p xs ys)

  pub exists_row-append :
      (p : A → Bool) (xs ys : List A)
      → exists_row p (xs ++ ys) ≡ (exists_row p xs || exists_row p ys)
  unfolding exists_row
  exists_row-append p [] ys = refl
  exists_row-append p (x ∷ xs) ys = ground (arith, exists_row-append p xs ys)

  -- Every row passes from `P` to `Q`, whether the update reaches it or not.
  pub All-update {κ μ} :
      (P : A → Type κ) (Q : A → Type μ) (p : A → Bool) (f : A → A) (xs : List A)
      → ((x : A) → P x → Q (if p x then f x else x))
      → All P xs
      → All Q (update_rows p f xs)
  unfolding update_rows
  All-update P Q p f [] step h = tt
  All-update P Q p f (x ∷ xs) step h = (step x h.0, All-update P Q p f xs step h.1)

  pub All-delete {κ} :
      (P : A → Type κ) (p : A → Bool) (xs : List A) → All P xs → All P (delete_rows p xs)
  unfolding delete_rows
  All-delete P p [] h = tt
  All-delete P p (x ∷ xs) h = split (p x) (All-delete P p xs h.1)
    where
      split :
          (b : Bool)
          → All P (delete_rows p xs)
          → All P (if b then delete_rows p xs else x ∷ delete_rows p xs)
      split true rest = rest
      split false rest = (h.0, rest)

  pub exists_row-update :
      (q p : A → Bool) (f : A → A) (xs : List A)
      → ((x : A) → q (f x) ≡ q x)
      → exists_row q (update_rows p f xs) ≡ exists_row q xs
  unfolding exists_row update_rows
  exists_row-update q p f [] same = refl
  exists_row-update q p f (x ∷ xs) same = ground (arith, same x, exists_row-update q p f xs same)

  -- The row that a query finds passes its test and has what all rows have.
  pub find_row-All {κ} :
      (P : A → Type κ) (p : A → Bool) (xs : List A) (r : A)
      → All P xs
      → find_row p xs ≡ some r
      → P r × (p r ≡ true)
  unfolding find_row
  find_row-All P p [] r h e = absurd (cc)
  find_row-All P p (x ∷ xs) r h e = split (p x) refl (find_row-All P p xs r h.1) e
    where
      split :
          (b : Bool)
          → p x ≡ b
          → (find_row p xs ≡ some r → P r × (p r ≡ true))
          → (if b then some x else find_row p xs) ≡ some r
          → P r × (p r ≡ true)
      split true q later found =
          let same : x ≡ r = cc in (subst P same h.0, subst (λ y. p y ≡ true) same q)
      split false q later found = later found

  -- What an EXISTS query finds, a SELECT finds.
  pub find_row_of_exists :
      (p : A → Bool) (xs : List A) → exists_row p xs ≡ true → (r : A) × (find_row p xs ≡ some r)
  unfolding find_row exists_row
  find_row_of_exists p [] h = absurd (cc)
  find_row_of_exists p (x ∷ xs) h = split (p x) refl (find_row_of_exists p xs)
    where
      split :
          (b : Bool)
          → p x ≡ b
          → (exists_row p xs ≡ true → (r : A) × (find_row p xs ≡ some r))
          → (r : A) × ((if b then some x else find_row p xs) ≡ some r)
      split true q later = (x, refl)
      split false q later = later (ground arith)
