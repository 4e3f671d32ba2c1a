-- ===== src/Prelude/TextOrder.antt =====
-- The order of texts by their characters' codes: the order of Go's strings and of SQLite's texts.
use Prim.Native.Nat.{ℕ, Ordering, compare as compare_ℕ}
use Prim.Native.Char.{Char, code}
use Prim.Native.String.compare
use Prim.Native.String.{String, [], ◌∷◌, compare, then}
use mathlib.Core.Path.{◌≡◌, refl, sym, ◌∙◌, ap}
use mathlib.Core.Bool.{Bool, true, false}
use native.Mathlib.Omega.{arith}
use text.Mathlib.Text.{is_lt}
use text.Mathlib.TextEquality.{path_by_compare}

abbrev pub text_before : String → String → Bool
text_before s t = is_lt (compare s t)

-- The first difference decides.
then_asym :
    (m n : ℕ) (o p : Ordering)
    → (is_lt o ≡ true → is_lt p ≡ false)
    → is_lt (then (compare_ℕ m n) o) ≡ true
    → is_lt (then (compare_ℕ n m) p) ≡ false
then_asym m n o p h q = ground (arith, h, q)

then_total :
    (m n : ℕ) (o p : Ordering)
    → (is_lt o ≡ false → is_lt p ≡ false → o ≡ Ordering.eq)
    → is_lt (then (compare_ℕ m n) o) ≡ false
    → is_lt (then (compare_ℕ n m) p) ≡ false
    → then (compare_ℕ m n) o ≡ Ordering.eq
then_total m n o p h q r = ground (arith, h, q, r)

then_trans :
    (l m n : ℕ) (o p q : Ordering)
    → (is_lt o ≡ false → is_lt p ≡ false → is_lt q ≡ false)
    → is_lt (then (compare_ℕ l m) o) ≡ false
    → is_lt (then (compare_ℕ m n) p) ≡ false
    → is_lt (then (compare_ℕ l n) q) ≡ false
then_trans l m n o p q h a b = ground (arith, h, a, b)

module _ (c d : Char) (s t : String) where
  before-cons :
      text_before (c ∷ s) (d ∷ t) ≡ is_lt (then (compare_ℕ (code c) (code d)) (compare s t))
  before-cons = ap is_lt (compare.cons-cons c d s t)

pub text_before_asym : (s t : String) → text_before s t ≡ true → text_before t s ≡ false
text_before_asym [] [] h = absurd (cc)
text_before_asym [] (d ∷ t) h = ap is_lt (compare.cons-nil d t)
text_before_asym (c ∷ s) [] h = let e = ap is_lt (compare.cons-nil c s) in absurd (cc)
text_before_asym (c ∷ s) (d ∷ t) h =
    before-cons d c t s
    ∙ then_asym (code c) (code d) (compare s t) (compare t s) (text_before_asym s t)
        (sym (before-cons c d s t) ∙ h)

compare-eq :
    (s t : String) → text_before s t ≡ false → text_before t s ≡ false → compare s t ≡ Ordering.eq
compare-eq [] [] h k = refl
compare-eq [] (d ∷ t) h k = let e = ap is_lt (compare.nil-cons d t) in absurd (cc)
compare-eq (c ∷ s) [] h k = let e = ap is_lt (compare.nil-cons c s) in absurd (cc)
compare-eq (c ∷ s) (d ∷ t) h k =
    compare.cons-cons c d s t
    ∙ then_total (code c) (code d) (compare s t) (compare t s) (compare-eq s t)
        (sym (before-cons c d s t) ∙ h) (sym (before-cons d c t s) ∙ k)

pub text_before_total : (s t : String) → text_before s t ≡ false → text_before t s ≡ false → s ≡ t
text_before_total s t h k = path_by_compare s t (compare-eq s t h k)

pub text_before_trans :
    (r s t : String) → text_before r s ≡ false → text_before s t ≡ false → text_before r t ≡ false
text_before_trans [] [] t h k = k
text_before_trans [] (d ∷ s) t h k = let e = ap is_lt (compare.nil-cons d s) in absurd (cc)
text_before_trans (c ∷ r) s [] h k = ap is_lt (compare.cons-nil c r)
text_before_trans (c ∷ r) [] (f ∷ t) h k = let e = ap is_lt (compare.nil-cons f t) in absurd (cc)
text_before_trans (c ∷ r) (d ∷ s) (f ∷ t) h k =
    before-cons c f r t
    ∙ then_trans (code c) (code d) (code f) (compare r s) (compare s t) (compare r t)
        (text_before_trans r s t) (sym (before-cons c d r s) ∙ h) (sym (before-cons d f s t) ∙ k)
