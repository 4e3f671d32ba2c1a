-- ===== src/Ingest/Spool/Lines.antt =====
-- The lines of a spool file (internal/ingest/spool.go) against the entries that they encode, and
-- their size against the limit.
use Prim.Native.String.{len}
use traceboard.Prelude.{
  ℕ, zero, suc, subst, ◌+◌, ◌-◌, ◌≤◌, ◌<◌, ◌⊎◌, String, false, Option, none, some, List, [], ◌∷◌,
  inl, inr, ◌==◌, ◌≡◌, refl, sym, ap, arith, ltb, drop, Bool-cases,
}
use traceboard.Ingest.Spool.{
  SpoolEntry, Codec, entries_of, encode_lines, entry_line_bytes, total_bytes, drop_excess,
}

unfoldable pub file_bytes : List String → ℕ
file_bytes [] = 0
file_bytes (line ∷ rest) = len line + 1 + file_bytes rest

-- What `appendLocked` keeps are the newest entries, and they are within the limit.
pub drop_excess_lem :
    (size : SpoolEntry → ℕ) (limit total : ℕ) (entries : List SpoolEntry)
    → total ≡ total_bytes size entries
    → ((drop_excess size limit total entries).1
        ≡ drop (drop_excess size limit total entries).0 entries)
      × (total_bytes size (drop_excess size limit total entries).1 ≤ limit)
unfolding drop_excess total_bytes
drop_excess_lem size limit total [] e = (refl, omega arith)
drop_excess_lem size limit total (x ∷ rest) e =
    let later = drop_excess_lem size limit (total - size x) rest (omega (arith, e)) in
    elim (Bool-cases (ltb limit total)) [
      | inl over ↦ rw over later
      | inr fits ↦ rw fits (refl, ground (arith, e, fits))
    ]

-- It drops no more than it must.
pub drop_excess_needed :
    (size : SpoolEntry → ℕ) (limit total : ℕ) (entries : List SpoolEntry)
    → total ≡ total_bytes size entries
    → ((drop_excess size limit total entries).0 ≡ 0)
      ⊎ (limit < total_bytes size (drop ((drop_excess size limit total entries).0 - 1) entries))
unfolding drop_excess total_bytes
drop_excess_needed size limit total [] e = inl refl
drop_excess_needed size limit total (x ∷ rest) e =
    let later = drop_excess_needed size limit (total - size x) rest (omega (arith, e)) in
    elim (Bool-cases (ltb limit total)) [
      | inl over ↦ rw over (
          inr
            (step (drop_excess size limit (total - size x) rest).0 later (ground (arith, e, over))))
      | inr fits ↦ rw fits (inl refl)
    ]
  where
    step :
        (n : ℕ)
        → (n ≡ 0) ⊎ (limit < total_bytes size (drop (n - 1) rest))
        → limit < size x + total_bytes size rest
        → limit < total_bytes size (drop (suc n - 1) (x ∷ rest))
    step zero p q = q
    step (suc m) (inl p) q = absurd (omega (arith, p))
    step (suc m) (inr p) q =
        let one : suc (suc m) - 1 ≡ suc m = omega arith in
        let same : suc m - 1 ≡ m = omega arith in
        subst (λ k. limit < total_bytes size (drop k (x ∷ rest))) (sym one)
          (subst (λ k. limit < total_bytes size (drop k rest)) same p)

module _ (codec : Codec) where
  pub encode_cons :
      (e : SpoolEntry) (rest : List SpoolEntry) (lines : List String)
      → encode_lines codec (e ∷ rest) ≡ some lines
      → (line : String) × (later : List String) × (codec.encode e ≡ some line)
        × (encode_lines codec rest ≡ some later)
        × (lines ≡ line ∷ later)
  unfolding encode_lines
  encode_cons e rest lines h = split (codec.encode e) (encode_lines codec rest) refl refl h
    where
      split :
          (a : Option String) (b : Option (List String))
          → codec.encode e ≡ a
          → encode_lines codec rest ≡ b
          → elim a [
            | none ↦ none
            | some line ↦ elim b [ none ↦ none | some later ↦ some (line ∷ later) ]
          ]
            ≡ some lines
          → (line : String) × (later : List String) × (codec.encode e ≡ some line)
            × (encode_lines codec rest ≡ some later)
            × (lines ≡ line ∷ later)
      split none b p q r = absurd (cc)
      split (some line) none p q r = absurd (cc)
      split (some line) (some later) p q r = (line, later, p, q, cc)

  entry_line_bytes-encode :
      (e : SpoolEntry) (line : String)
      → codec.encode e ≡ some line
      → entry_line_bytes codec e ≡ len line + 1
  unfolding entry_line_bytes
  entry_line_bytes-encode e line p = ground (arith, p)

  -- The size of a file is that of its entries.
  pub file_bytes-encode_lines :
      (entries : List SpoolEntry) (lines : List String)
      → encode_lines codec entries ≡ some lines
      → file_bytes lines ≡ total_bytes (entry_line_bytes codec) entries
  unfolding file_bytes total_bytes encode_lines
  file_bytes-encode_lines [] lines h =
      let same : [] ≡ lines = ground arith in ap file_bytes (sym same)
  file_bytes-encode_lines (e ∷ rest) lines h =
      let (line, later, p, q, same) = encode_cons e rest lines h in
      rw same
        (omega (arith, entry_line_bytes-encode e line p, file_bytes-encode_lines rest later q))

  module _
      (decode-encode : (e : SpoolEntry) (line : String)
        → codec.encode e ≡ some line
        → (codec.trim_space line ≡ line)
          × ((line == "") ≡ false)
          × (codec.decode line ≡ some e)) where
    -- What was written is read back.
    pub entries_of-encode_lines :
        (entries : List SpoolEntry) (lines : List String)
        → encode_lines codec entries ≡ some lines
        → entries_of codec lines ≡ entries
    unfolding entries_of encode_lines
    entries_of-encode_lines [] lines h =
        let same : [] ≡ lines = ground arith in ap (entries_of codec) (sym same)
    entries_of-encode_lines (e ∷ rest) lines h =
        let (line, later, p, q, same) = encode_cons e rest lines h in
        let (trimmed, filled, decoded) = decode-encode e line p in
        rw (same, trimmed, filled, decoded) (ap (λ l. e ∷ l) (entries_of-encode_lines rest later q))
