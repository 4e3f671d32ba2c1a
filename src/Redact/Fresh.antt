-- ===== src/Redact/Fresh.antt =====
-- The search of `uniqueMapKey` in internal/redact/redact.go: its fuel and its result.
use traceboard.Prelude.{
  ◌⊎◌, ℕ, zero, suc, ◌+◌, ◌≤◌, String, true, false, List, [], ◌∷◌, ◌≡◌, ◌==◌, arith, length,
  delete_rows, eq_iff, Bool-cases, inl, inr,
}
use traceboard.Event.EventType.{contains_text}
use traceboard.Redact.Keys.{Format, next_candidate, unique_map_key}

without_text : String → List String → List String
without_text x used = delete_rows (λ y. y == x) used

length-without_text : (x : String) (used : List String) → length (without_text x used) ≤ length used
unfolding without_text delete_rows
length-without_text x [] = omega arith
length-without_text x (y ∷ rest) = ground (arith, length-without_text x rest)

length-without_present :
    (x : String) (used : List String)
    → contains_text x used ≡ true
    → suc (length (without_text x used)) ≤ length used
unfolding without_text delete_rows contains_text
length-without_present x [] h = absurd (cc)
length-without_present x (y ∷ rest) h =
    ground (arith, length-without_text x rest, length-without_present x rest)

contains_other :
    (x y : String) (used : List String)
    → (y == x) ≡ false
    → contains_text y used ≡ true
    → contains_text y (without_text x used) ≡ true
unfolding without_text delete_rows contains_text
contains_other x y [] differs h = h
contains_other x y (z ∷ rest) differs h =
    ground (arith, contains_other x y rest differs, eq_iff z x, eq_iff z y, eq_iff y x)

module _ (candidate : Format) (key : String) where
  -- The texts for `n` suffixes from `suffix` on are all in use.
  Hits : ℕ → ℕ → List String → Type 0
  Hits zero suffix used = Unit {0}
  Hits (suc n) suffix used =
      (contains_text (candidate key suffix) used ≡ true) × Hits n (suffix + 1) used

  module _ (candidate_injective : (i j : ℕ) → candidate key i ≡ candidate key j → i ≡ j) where
    Hits-without :
        (n suffix at : ℕ) (used : List String)
        → suc suffix ≤ at
        → Hits n at used
        → Hits n at (without_text (candidate key suffix) used)
    unfolding Hits
    Hits-without zero suffix at used later h = tt
    Hits-without (suc n) suffix at used later h = (
      contains_other (candidate key suffix) (candidate key at) used
          (differs (Bool-cases (candidate key at == candidate key suffix))) h.0,
      Hits-without n suffix (at + 1) used (omega arith) h.1,
    )
      where
        differs :
            (candidate key at == candidate key suffix ≡ true)
              ⊎ (candidate key at == candidate key suffix ≡ false)
            → (candidate key at == candidate key suffix) ≡ false
        differs (inl e) = absurd (omega (arith, candidate_injective at suffix ((eq_iff _ _).0 e)))
        differs (inr e) = e

    -- No more texts can be in use than there are used ones.
    Hits-le : (n suffix : ℕ) (used : List String) → Hits n suffix used → n ≤ length used
    unfolding Hits
    Hits-le zero suffix used h = omega arith
    Hits-le (suc n) suffix used h = omega (
      arith,
      Hits-le n (suffix + 1) (without_text (candidate key suffix) used)
          (Hits-without n suffix (suffix + 1) used (omega arith) h.1),
      length-without_present (candidate key suffix) used h.0,
    )

    taken_candidate :
        (used : List String) (fuel suffix : ℕ)
        → contains_text (next_candidate candidate used key fuel suffix) used ≡ true
        → Hits (suc fuel) suffix used
    unfolding Hits next_candidate
    taken_candidate used zero suffix h = (h, tt)
    taken_candidate used (suc fuel) suffix h =
        elim (Bool-cases (contains_text (candidate key suffix) used)) [
          | inl e ↦ (e, taken_candidate used fuel (suffix + 1) (rw e at h))
          | inr e ↦ let free : contains_text (candidate key suffix) used ≡ true = (rw e at h) in cc
        ]

    -- `uniqueMapKey` returns a key that is not in use, whatever keys are: where the texts for
    -- different suffixes differ, the search ends within one more try than there are used keys.
    pub unique_map_key-fresh :
        (used : List String) → contains_text (unique_map_key candidate used key) used ≡ false
    unfolding unique_map_key
    unique_map_key-fresh used = elim (Bool-cases (contains_text key used)) [
      | inr e ↦ rw e e
      | inl e ↦
          rw e
            (elim (Bool-cases
              (contains_text (next_candidate candidate used key (length used) 2) used)) [
                | inr f ↦ f
                | inl f ↦ absurd (
                    omega (
                      arith,
                      Hits-le (suc (length used)) 2 used (taken_candidate used (length used) 2 f),
                    ))
              ])
    ]
