-- ===== src/Redact/Distinct.antt =====
-- Distinct keys, and the order in which `applyMapEntries` of internal/redact/redact.go visits them.
use Prim.Native.String.{compare}
use package.text.Mathlib.Text.{is_lt}
use traceboard.Prelude.{
  suc, String, false, List, [], ◌∷◌, ◌≡◌, refl, ap, ◌∙◌, ◌==◌, arith, length, eq_iff, Bool-cases,
  inl, inr, All,
}
use traceboard.Redact.{MapEntry, sort_entries, insert_entry}

-- No two entries have the same key.
abbrev pub IsDistinct : {A : Type 0} → (A → String) → List A → Type 0
IsDistinct key [] = Unit
IsDistinct key (x ∷ rest) = All (λ y. (key y == key x) ≡ false) rest × IsDistinct key rest

differs_sym : (a b : String) → (a == b) ≡ false → (b == a) ≡ false
differs_sym a b h = ground (arith, eq_iff a b, eq_iff b a)

insert_entry-differs :
    (key : String) (e : MapEntry) (l : List MapEntry)
    → (e.key == key) ≡ false
    → All (λ d. (MapEntry.key d == key) ≡ false) l
    → All (λ d. (MapEntry.key d == key) ≡ false) (insert_entry e l)
unfolding insert_entry
insert_entry-differs key e [] p h = (p, tt)
insert_entry-differs key e (d ∷ rest) p h = elim (Bool-cases (is_lt (compare d.key e.key))) [
  | inl before ↦ rw before (h.0, insert_entry-differs key e rest p h.1)
  | inr other ↦ rw other (p, h)
]

insert_entry-IsDistinct :
    (e : MapEntry) (l : List MapEntry)
    → All (λ d. (MapEntry.key d == e.key) ≡ false) l
    → IsDistinct (λ d. MapEntry.key d) l
    → IsDistinct (λ d. MapEntry.key d) (insert_entry e l)
unfolding insert_entry
insert_entry-IsDistinct e [] p h = (tt, tt)
insert_entry-IsDistinct e (d ∷ rest) p h = elim (Bool-cases (is_lt (compare d.key e.key))) [
  | inl before ↦ rw before (
    insert_entry-differs d.key e rest (differs_sym d.key e.key p.0) h.0,
    insert_entry-IsDistinct e rest p.1 h.1,
  )
  | inr other ↦ rw other (p, h)
]

length-insert_entry :
    (e : MapEntry) (l : List MapEntry) → length (insert_entry e l) ≡ suc (length l)
unfolding insert_entry
length-insert_entry e [] = refl
length-insert_entry e (d ∷ rest) = ground (arith, length-insert_entry e rest)

sort_entries-differs :
    (key : String) (l : List MapEntry)
    → All (λ d. (MapEntry.key d == key) ≡ false) l
    → All (λ d. (MapEntry.key d == key) ≡ false) (sort_entries l)
unfolding sort_entries
sort_entries-differs key [] h = tt
sort_entries-differs key (e ∷ rest) h =
    insert_entry-differs key e _ h.0 (sort_entries-differs key rest h.1)

pub sort_entries-IsDistinct :
    (l : List MapEntry)
    → IsDistinct (λ d. MapEntry.key d) l
    → IsDistinct (λ d. MapEntry.key d) (sort_entries l)
unfolding sort_entries
sort_entries-IsDistinct [] h = tt
sort_entries-IsDistinct (e ∷ rest) h =
    insert_entry-IsDistinct e _ (sort_entries-differs e.key rest h.0)
      (sort_entries-IsDistinct rest h.1)

pub length-sort_entries : (l : List MapEntry) → length (sort_entries l) ≡ length l
unfolding sort_entries
length-sort_entries [] = refl
length-sort_entries (e ∷ rest) = length-insert_entry e _ ∙ ap suc (length-sort_entries rest)
