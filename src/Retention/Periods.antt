-- ===== src/Retention/Periods.antt =====
-- `ParseDuration` and `parsePositive` of internal/retention/retention.go: a retention period as a
-- number of days. `none` is an error.
use Prim.Native.Char.{Char, code}
use Prim.Native.String.{String, len, [], ◌∷◌}
use traceboard.Prelude.{
  ℕ, ◌+◌, ◌-◌, ◌*◌, ◌/◌, ◌≤◌, Bool, true, false, Option, none, some, ◌≡◌, refl, subst, arith, ◌==◌,
  ◌&&◌, ◌||◌, ltb, leb, eqb, le→ltb, if◌then◌else◌, Bool-cases, inl, inr,
}

abbrev is_digit : Char → Bool
is_digit c = leb 48 (code c) && leb (code c) 57

-- The loop of `parsePositive`.
unfoldable pub parse_digits : ℕ → String → Option ℕ
parse_digits total [] = some total
parse_digits total (c ∷ s) =
    let rest = parse_digits (total * 10 + (code c - 48)) s in
    if is_digit c then (if ltb 3650 (total * 10 + (code c - 48)) then none else rest) else none

abbrev positive : Option ℕ → Option ℕ
positive none = none
positive (some total) = if eqb total 0 then none else some total

unfoldable pub parse_positive : String → Option ℕ
unfolding parse_digits
parse_positive value = if value == "" then none else positive (parse_digits 0 value)

-- All characters but the last.
unfoldable pub without_last : Char → String → String
without_last c [] = []
without_last c (d ∷ s) = c ∷ without_last d s

unfoldable pub last : Char → String → Char
last c [] = c
last c (d ∷ s) = last d s

abbrev pub amount_of : String → String
unfolding without_last
amount_of [] = []
amount_of (c ∷ s) = without_last c s

-- The code of the last character; 0 where there is none.
abbrev pub unit_of : String → ℕ
unfolding last
unit_of [] = 0
unit_of (c ∷ s) = code (last c s)

-- The switch over the unit: d, w or h.
unfoldable pub days_of : ℕ → Option ℕ → Option ℕ
days_of unit none = none
days_of unit (some amount) =
    if eqb unit 100
    then some amount
    else if eqb unit 119
    then some (amount * 7)
    else if eqb unit 104
    then some (if ltb (amount / 24) 1 then 1 else amount / 24)
    else none

abbrev pub is_forever : String → Bool
is_forever value = value == "always" || value == "infinite" || value == "none"

unfoldable pub parse_duration : String → Option ℕ
unfolding parse_positive days_of
parse_duration value =
    if is_forever value
    then some 0
    else if ltb (len value) 2
    then none
    else days_of (unit_of value) (parse_positive (amount_of value))

-- The decimal value of a text of digits, after the digits that were read before.
unfoldable pub decimal : ℕ → String → ℕ
decimal total [] = total
decimal total (c ∷ s) = decimal (total * 10 + (code c - 48)) s

abbrev pub IsDigits : String → Type 0
IsDigits [] = Unit
IsDigits (c ∷ s) = (is_digit c ≡ true) × IsDigits s

decimal-≥ : (total : ℕ) (s : String) → total ≤ decimal total s
unfolding decimal
decimal-≥ total [] = omega arith
decimal-≥ total (c ∷ s) = omega (arith, decimal-≥ (total * 10 + (code c - 48)) s)

parse_digits-decimal :
    (total : ℕ) (s : String)
    → IsDigits s
    → decimal total s ≤ 3650
    → parse_digits total s ≡ some (decimal total s)
unfolding parse_digits decimal
parse_digits-decimal total [] h k = refl
parse_digits-decimal total (c ∷ s) h k =
    let next = total * 10 + (code c - 48) in
    rw (h.0, le→ltb 3650 next (omega (arith, decimal-≥ next s, k)))
      (parse_digits-decimal next s h.1 k)

-- `parsePositive` reads decimal numbers: a text of digits whose value is from 1 to 3650 gives that
-- value, leading zeros included.
pub parse_positive-decimal :
    (s : String)
    → (s == "") ≡ false
    → IsDigits s
    → 1 ≤ decimal 0 s
    → decimal 0 s ≤ 3650
    → parse_positive s ≡ some (decimal 0 s)
unfolding parse_positive
parse_positive-decimal s filled h low high =
    rw (filled, parse_digits-decimal 0 s h high) (ground (arith, low))

parse_digits-bounds :
    (total n : ℕ) (s : String) → total ≤ 3650 → parse_digits total s ≡ some n → n ≤ 3650
unfolding parse_digits
parse_digits-bounds total n [] h e = ground (arith, h, e)
parse_digits-bounds total n (c ∷ s) h e =
    let next = total * 10 + (code c - 48) in
    elim (Bool-cases (is_digit c && leb next 3650)) [
      | inl good ↦ parse_digits-bounds next n s (ground (arith, good)) (ground (arith, good, e))
      | inr bad ↦ absurd (ground (arith, bad, e))
    ]

parse_positive-bounds : (n : ℕ) (s : String) → parse_positive s ≡ some n → (1 ≤ n) × (n ≤ 3650)
unfolding parse_positive
parse_positive-bounds n s e = split (s == "") (parse_digits 0 s) refl e
  where
    split :
        (blank : Bool) (read : Option ℕ)
        → parse_digits 0 s ≡ read
        → (if blank then none else positive read) ≡ some n
        → (1 ≤ n) × (n ≤ 3650)
    split true read q r = absurd (cc)
    split false none q r = absurd (cc)
    split false (some m) q r =
        let bound = parse_digits-bounds 0 m s (omega arith) q in ground (arith, bound, r)

-- A period that is accepted and is not for ever is at least one day and at most 25550: the limit of
-- 3650 is on the amount, and the weeks are multiplied afterwards.
pub parse_duration-bounds :
    (value : String) (n : ℕ)
    → is_forever value ≡ false
    → parse_duration value ≡ some n
    → (1 ≤ n) × (n ≤ 25550)
unfolding parse_duration days_of
parse_duration-bounds value n finite e =
    split (ltb (len value) 2) (unit_of value) (parse_positive (amount_of value)) refl (
      subst
        (λ b.
          (if b
            then some 0
            else if ltb (len value) 2
            then none
            else days_of (unit_of value) (parse_positive (amount_of value)))
          ≡ some n)
        finite e)
  where
    split :
        (short : Bool) (unit : ℕ) (read : Option ℕ)
        → parse_positive (amount_of value) ≡ read
        → (if short then none else days_of unit read) ≡ some n
        → (1 ≤ n) × (n ≤ 25550)
    split true unit read q r = absurd (cc)
    split false unit none q r = absurd (cc)
    split false unit (some m) q r =
        let bound = parse_positive-bounds m (amount_of value) q in ground (arith, bound, r)
