-- ===== src/Redact/Entries.antt =====
-- The entries of a map before and after the redaction of internal/redact/redact.go.
use traceboard.Prelude.{
  ℕ, suc, ◌+◌, String, Bool, true, false, List, [], ◌∷◌, ◌++◌, ◌≡◌, refl, ap, subst, ◌==◌, ◌||◌,
  map, arith, length, eq_iff, Bool-cases, inl, inr, All,
}
use traceboard.Event.{Value, obj, Fields, end, field}
use traceboard.Event.EventType.{contains_text}
use traceboard.Event.Maps
use traceboard.Redact.{
  Regexp, Formats, CompiledRule, MapEntry, PendingMapEntry, pending_entry, reserved_keys, entry_key,
  build_map, apply_map_entries, apply_value, map_entries, sort_entries, child_field,
}
use traceboard.Redact.Keys.{unique_map_key}
use traceboard.Redact.Distinct.{IsDistinct, sort_entries-IsDistinct, length-sort_entries}
use traceboard.Redact.Fresh.{unique_map_key-fresh}

contains-append :
    (k : String) (xs ys : List String)
    → contains_text k (xs ++ ys) ≡ (contains_text k xs || contains_text k ys)
unfolding contains_text
contains-append k [] ys = refl
contains-append k (x ∷ xs) ys = ground (arith, contains-append k xs ys)

-- A write under a new key adds an entry and that key.
size-insert :
    (k : String) (v : Value) (m : Fields)
    → contains_text k (Maps.keys m) ≡ false
    → Maps.size (Maps.insert k v m) ≡ suc (Maps.size m)
unfolding Maps.size Maps.insert Maps.keys contains_text
size-insert k v end h = refl
size-insert k v (field j w rest) h = ground (arith, size-insert k v rest)

keys-insert :
    (k q : String) (v : Value) (m : Fields)
    → contains_text q (Maps.keys m) ≡ false
    → (k == q) ≡ false
    → contains_text q (Maps.keys (Maps.insert k v m)) ≡ false
unfolding Maps.insert Maps.keys contains_text
keys-insert k q v end h other = ground arith
keys-insert k q v (field j w rest) h other = ground (arith, keys-insert k q v rest)

-- An entry whose key redaction leaves as it is.
abbrev kept : PendingMapEntry → Bool
kept p = p.redacted_key == p.key

module _ (regexp : Regexp) (formats : Formats) (rules : List CompiledRule) where
  -- What the loop relies on: the kept keys are reserved, and none of them is written yet.
  abbrev Ready : List String → Fields → PendingMapEntry → Type 0
  Ready reserved result p =
      kept p ≡ true
      → (contains_text p.key reserved ≡ true) × (contains_text p.key (Maps.keys result) ≡ false)

  module _
      (candidate_injective : (k : String) (i j : ℕ)
        → formats.candidate k i ≡ formats.candidate k j
        → i ≡ j) where
    entry_key-fresh :
        (result : Fields) (reserved : List String) (p : PendingMapEntry)
        → Ready reserved result p
        → contains_text (entry_key regexp formats rules result reserved p) (Maps.keys result)
          ≡ false
    unfolding entry_key
    entry_key-fresh result reserved p ready = elim (Bool-cases (kept p)) [
      | inl e ↦ rw e (rw ((eq_iff _ _).0 e) ((ready e).1))
      | inr e ↦
          let free =
            unique_map_key-fresh formats.candidate p.redacted_key
              (candidate_injective p.redacted_key) (Maps.keys result ++ reserved) in
          rw e (
            ground (
              arith,
              contains-append
                  (unique_map_key formats.candidate (Maps.keys result ++ reserved) p.redacted_key)
                  (Maps.keys result) reserved,
            ))
    ]

    entry_key-other :
        (result : Fields) (reserved : List String) (p q : PendingMapEntry)
        → (q.key == p.key) ≡ false
        → kept q ≡ true
        → contains_text q.key reserved ≡ true
        → (entry_key regexp formats rules result reserved p == q.key) ≡ false
    unfolding entry_key
    entry_key-other result reserved p q differs same there = elim (Bool-cases (kept p)) [
      | inl e ↦ rw e (
          ground
            (arith, eq_iff p.redacted_key p.key, eq_iff p.redacted_key q.key, eq_iff q.key p.key))
      | inr e ↦
          let used = Maps.keys result ++ reserved in
          let fresh = unique_map_key formats.candidate used p.redacted_key in
          let free =
            unique_map_key-fresh formats.candidate p.redacted_key
              (candidate_injective p.redacted_key) used in
          rw e (elim (Bool-cases (fresh == q.key)) [
            | inr f ↦ f
            | inl f ↦
                let taken : contains_text q.key used ≡ false =
                  subst (λ k. contains_text k used ≡ false) ((eq_iff fresh q.key).0 f) free in
                absurd (ground (arith, contains-append q.key (Maps.keys result) reserved))
          ])
    ]

    Ready-insert :
        (reserved : List String) (result : Fields) (p : PendingMapEntry) (v : Value)
        (rest : List PendingMapEntry)
        → All (λ q. (PendingMapEntry.key q == p.key) ≡ false) rest
        → All (Ready reserved result) rest
        → All
            (Ready reserved
              (Maps.insert (entry_key regexp formats rules result reserved p) v result))
            rest
    Ready-insert reserved result p v [] differs ready = tt
    Ready-insert reserved result p v (q ∷ rest) differs ready = (
      λ same. (
        (ready.0 same).0,
        keys-insert (entry_key regexp formats rules result reserved p) q.key v result
            (ready.0 same).1 (entry_key-other result reserved p q differs.0 same (ready.0 same).0),
      ),
      Ready-insert reserved result p v rest differs.1 ready.1,
    )

    build_map-size :
        (path : String) (reserved : List String) (result : Fields) (pending : List PendingMapEntry)
        → IsDistinct (λ p. PendingMapEntry.key p) pending
        → All (Ready reserved result) pending
        → Maps.size (build_map regexp formats rules path reserved result pending).0
          ≡ Maps.size result + length pending
    unfolding build_map
    build_map-size path reserved result [] distinct ready = omega arith
    build_map-size path reserved result (p ∷ rest) distinct ready =
        let key = entry_key regexp formats rules result reserved p in
        let child = (p.redact_at (child_field path key)).0 in
        omega (
          arith,
          size-insert key child result (entry_key-fresh result reserved p ready.0),
          build_map-size path reserved (Maps.insert key child result) rest distinct.1
              (Ready-insert reserved result p child rest distinct.0 ready.1),
        )

module _ (regexp : Regexp) (formats : Formats) (rules : List CompiledRule) where
  -- Every kept key is reserved.
  abbrev Reserved : List String → PendingMapEntry → Type 0
  Reserved reserved p = kept p ≡ true → contains_text p.key reserved ≡ true

  Reserved-more :
      (p : PendingMapEntry) (rest l : List PendingMapEntry)
      → All (Reserved (reserved_keys regexp formats rules rest)) l
      → All (Reserved (reserved_keys regexp formats rules (p ∷ rest))) l
  unfolding reserved_keys contains_text
  Reserved-more p rest [] h = tt
  Reserved-more p rest (q ∷ l) h = (λ same. ground (arith, h.0 same), Reserved-more p rest l h.1)

  Reserved-all :
      (pending : List PendingMapEntry)
      → All (Reserved (reserved_keys regexp formats rules pending)) pending
  Reserved-all [] = tt
  Reserved-all (p ∷ rest) = (first, Reserved-more p rest rest (Reserved-all rest))
    where
      first :
          kept p ≡ true → contains_text p.key (reserved_keys regexp formats rules (p ∷ rest)) ≡ true
      first =
          unfold reserved_keys contains_text in λ same. ground (arith, eq_iff p.redacted_key p.key)

  Ready-all :
      (reserved : List String) (l : List PendingMapEntry)
      → All (Reserved reserved) l
      → All (Ready regexp formats rules reserved end) l
  unfolding Maps.keys contains_text
  Ready-all reserved [] h = tt
  Ready-all reserved (p ∷ rest) h = (λ same. (h.0 same, refl), Ready-all reserved rest h.1)

  pending_differs :
      (path key : String) (l : List MapEntry)
      → All (λ e. (MapEntry.key e == key) ≡ false) l
      → All
          (λ p. (PendingMapEntry.key p == key) ≡ false)
          (map (pending_entry regexp formats rules path) l)
  unfolding pending_entry
  pending_differs path key [] h = tt
  pending_differs path key (e ∷ rest) h = (h.0, pending_differs path key rest h.1)

  pending-IsDistinct :
      (path : String) (l : List MapEntry)
      → IsDistinct (λ e. MapEntry.key e) l
      → IsDistinct (λ p. PendingMapEntry.key p) (map (pending_entry regexp formats rules path) l)
  unfolding pending_entry
  pending-IsDistinct path [] h = tt
  pending-IsDistinct path (e ∷ rest) h =
      (pending_differs path e.key rest h.0, pending-IsDistinct path rest h.1)

  length-pending :
      (path : String) (l : List MapEntry)
      → length (map (pending_entry regexp formats rules path) l) ≡ length l
  length-pending path [] = refl
  length-pending path (e ∷ rest) = ap suc (length-pending path rest)

-- No two entries of a JSON map have the same key.
abbrev pub HasDistinctKeys : Fields → Type 0
HasDistinctKeys m = IsDistinct (λ k. k) (Maps.keys m)

module _ (regexp : Regexp) (formats : Formats) (rules : List CompiledRule) where
  entries_differ :
      (key : String) (m : Fields)
      → All (λ k. (k == key) ≡ false) (Maps.keys m)
      → All (λ e. (MapEntry.key e == key) ≡ false) (map_entries regexp formats rules m)
  unfolding map_entries Maps.keys
  entries_differ key end h = tt
  entries_differ key (field k v rest) h = (h.0, entries_differ key rest h.1)

  map_entries-IsDistinct :
      (m : Fields)
      → HasDistinctKeys m
      → IsDistinct (λ e. MapEntry.key e) (map_entries regexp formats rules m)
  unfolding map_entries Maps.keys
  map_entries-IsDistinct end h = tt
  map_entries-IsDistinct (field k v rest) h =
      (entries_differ k rest h.0, map_entries-IsDistinct rest h.1)

  length-map_entries : (m : Fields) → length (map_entries regexp formats rules m) ≡ Maps.size m
  unfolding map_entries Maps.size
  length-map_entries end = refl
  length-map_entries (field k v rest) = ap suc (length-map_entries rest)

  -- Redaction keeps every entry of a map: where the texts that are tried for different suffixes
  -- differ, the redaction of a map whose keys are distinct is a map with exactly as many
  -- entries, however many of its keys are redacted to the same text.
  pub apply_value-size :
      ((k : String) (i j : ℕ) → formats.candidate k i ≡ formats.candidate k j → i ≡ j)
      → (m : Fields) (path : String) → HasDistinctKeys m
      → (m' : Fields) × ((apply_value regexp formats rules (obj m) path).0 ≡ obj m')
        × (Maps.size m' ≡ Maps.size m)
  unfolding apply_value apply_map_entries Maps.size
  apply_value-size injective m path distinct =
      let sorted = sort_entries (map_entries regexp formats rules m) in
      let pending = map (pending_entry regexp formats rules path) sorted in
      let reserved = reserved_keys regexp formats rules pending in
      (
        (build_map regexp formats rules path reserved end pending).0,
        refl,
        omega (
          arith,
          build_map-size regexp formats rules injective path reserved end pending
              (pending-IsDistinct regexp formats rules path sorted
                (sort_entries-IsDistinct _ (map_entries-IsDistinct m distinct)))
              (Ready-all regexp formats rules reserved pending
                (Reserved-all regexp formats rules pending)),
          length-pending regexp formats rules path sorted,
          length-sort_entries (map_entries regexp formats rules m),
          length-map_entries m,
        ),
      )
