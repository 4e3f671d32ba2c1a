-- ===== src/Store/Timeline/Sorting.antt =====
-- The order of the timeline (`timelineOrder` of internal/store/timeline.go): occurred_at, then
-- source_sequence with NULL last, then sequence.
use traceboard.Prelude.{
  ℕ, Bool, true, false, Option, none, some, List, [], ◌∷◌, ◌≡◌, ◌&&◌, ◌||◌, ltb, eqb, All, All-imp,
  if◌then◌else◌, Bool-cases, inl, inr,
}
use mathlib.Core.List.{Perm}
use mathlib.Core.List.Perm
use native.Mathlib.Omega.{arith}
use traceboard.Store.{EventRow}

-- Is the first source sequence before the second? Are they the same?
abbrev pub sequence_before : Option ℕ → Option ℕ → Bool
sequence_before (some a) (some b) = ltb a b
sequence_before (some a) none = true
sequence_before none b = false

abbrev pub sequence_same : Option ℕ → Option ℕ → Bool
sequence_same (some a) (some b) = eqb a b
sequence_same none none = true
sequence_same _ _ = false

unfoldable pub timeline_before : EventRow → EventRow → Bool
timeline_before a b =
    ltb a.occurred_at b.occurred_at
    || (eqb a.occurred_at b.occurred_at
        && (sequence_before a.source_sequence b.source_sequence
            || (sequence_same a.source_sequence b.source_sequence && ltb a.sequence b.sequence)))

unfoldable pub insert_sorted : EventRow → List EventRow → List EventRow
insert_sorted e [] = e ∷ []
insert_sorted e (d ∷ rest) =
    let later = insert_sorted e rest in if timeline_before d e then d ∷ later else e ∷ d ∷ rest

-- ORDER BY timelineOrder
unfoldable pub sort_timeline : List EventRow → List EventRow
unfolding insert_sorted
sort_timeline [] = []
sort_timeline (e ∷ rest) = insert_sorted e (sort_timeline rest)

insert_sorted-perm : (e : EventRow) (l : List EventRow) → Perm (insert_sorted e l) (e ∷ l)
unfolding insert_sorted
insert_sorted-perm e [] = Perm.refl _
insert_sorted-perm e (d ∷ rest) = elim (Bool-cases (timeline_before d e)) [
  | inl before ↦
      rw before (Perm.trans (Perm.cons d (insert_sorted-perm e rest)) (Perm.swap e d rest))
  | inr other ↦ rw other (Perm.refl _)
]

-- Sorting loses and invents no row.
pub sort_timeline-perm : (l : List EventRow) → Perm (sort_timeline l) l
unfolding sort_timeline
sort_timeline-perm [] = Perm.refl _
sort_timeline-perm (e ∷ rest) =
    Perm.trans (insert_sorted-perm e (sort_timeline rest)) (Perm.cons e (sort_timeline-perm rest))

-- No row stands behind one that the order puts after it.
abbrev pub IsSorted : List EventRow → Type 0
IsSorted [] = Unit
IsSorted (e ∷ rest) = All (λ d. timeline_before d e ≡ false) rest × IsSorted rest

before_step :
    (a b c : EventRow)
    → timeline_before a b ≡ false
    → timeline_before b c ≡ false
    → timeline_before a c ≡ false
unfolding timeline_before
before_step a b c p q = ground arith

before_asym : (a b : EventRow) → timeline_before a b ≡ true → timeline_before b a ≡ false
unfolding timeline_before
before_asym a b p = ground arith

insert_sorted-All :
    (P : EventRow → Type 0) (e : EventRow) (l : List EventRow)
    → P e
    → All P l
    → All P (insert_sorted e l)
unfolding insert_sorted
insert_sorted-All P e [] p h = (p, tt)
insert_sorted-All P e (d ∷ rest) p h = elim (Bool-cases (timeline_before d e)) [
  | inl before ↦ rw before (h.0, insert_sorted-All P e rest p h.1)
  | inr other ↦ rw other (p, h)
]

insert_sorted-IsSorted :
    (e : EventRow) (l : List EventRow) → IsSorted l → IsSorted (insert_sorted e l)
unfolding insert_sorted
insert_sorted-IsSorted e [] h = (tt, tt)
insert_sorted-IsSorted e (d ∷ rest) h = elim (Bool-cases (timeline_before d e)) [
  | inl before ↦ rw before (
    insert_sorted-All (λ c. timeline_before c d ≡ false) e rest (before_asym d e before) h.0,
    insert_sorted-IsSorted e rest h.1,
  )
  | inr other ↦ rw other ((other, All-imp _ _ rest (λ c p. before_step c d e p other) h.0), h)
]

-- What holds of every row holds of every sorted row.
pub sort_timeline-All :
    (P : EventRow → Type 0) (l : List EventRow) → All P l → All P (sort_timeline l)
unfolding sort_timeline
sort_timeline-All P [] h = tt
sort_timeline-All P (e ∷ rest) h =
    insert_sorted-All P e (sort_timeline rest) h.0 (sort_timeline-All P rest h.1)

pub sort_timeline-IsSorted : (l : List EventRow) → IsSorted (sort_timeline l)
unfolding sort_timeline
sort_timeline-IsSorted [] = tt
sort_timeline-IsSorted (e ∷ rest) = insert_sorted-IsSorted e _ (sort_timeline-IsSorted rest)

-- The timeline's order loses and invents no event, and leaves no event before one that the
-- order of occurrence time, source sequence (none last) and sequence number puts first.
pub sort_timeline_lem : (l : List EventRow) → IsSorted (sort_timeline l) × Perm (sort_timeline l) l
sort_timeline_lem l = (sort_timeline-IsSorted l, sort_timeline-perm l)
