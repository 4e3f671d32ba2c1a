-- ===== src/Examples/RedactRuns.antt =====
-- Runs of the redaction: a map with two secret keys, which become the same text.
use Prim.Native.String.{len, ◌++◌ as concat}
use package.text.Mathlib.TextLemmas.{append_cancel_left}
use package.text.Mathlib.TextPositions.{len-append}
use traceboard.Prelude.{
  ℕ, zero, suc, String, true, List, [], ◌∷◌, ◌≡◌, refl, sym, ap, ◌∙◌, ◌==◌, if◌then◌else◌, arith,
}
use traceboard.Event.{null, text, obj, Fields, end, field}
use traceboard.Event.Maps
use traceboard.Redact.{Regexp, Formats, CompiledRule, apply_value}
use traceboard.Redact.Entries.{apply_value-size, HasDistinctKeys}

-- A numeral in unary.
tally : ℕ → String
tally zero = ""
tally (suc n) = concat "i" (tally n)

len-tally : (n : ℕ) → len (tally n) ≡ n
unfolding tally
len-tally zero = refl
len-tally (suc n) = omega (arith, len-append "i" (tally n), len-tally n)

tally-injective : (i j : ℕ) → tally i ≡ tally j → i ≡ j
tally-injective i j e = sym (len-tally i) ∙ (ap len e ∙ len-tally j)

abbrev candidate : String → ℕ → String
candidate k n = concat k (concat "~" (tally n))

candidate-injective : (k : String) (i j : ℕ) → candidate k i ≡ candidate k j → i ≡ j
candidate-injective k i j e =
    tally-injective i j (append_cancel_left "~" _ _ (append_cancel_left k _ _ e))

-- Every text that is not empty matches as a whole.
abbrev regexp : Regexp
regexp = record {
  compiles = λ e. true;
  quote_meta = λ s. s;
  find_all = λ e s. if s == "" then [] else (0, len s) ∷ [];
}

abbrev formats : Formats
formats = record { candidate = candidate; index_path = λ k n. k }

abbrev rules : List CompiledRule
rules = record { name = "api_key"; expression = "sk-.*" } ∷ []

abbrev secrets : Fields
secrets = field "sk-1" null (field "sk-2" null (field "" null end))

secrets-HasDistinctKeys : HasDistinctKeys secrets
unfolding Maps.keys
secrets-HasDistinctKeys = ((refl, (refl, tt)), ((refl, tt), (tt, tt)))

apply_value-size_example :
    (m' : Fields) × ((apply_value regexp formats rules (obj secrets) "$").0 ≡ obj m')
    × (Maps.size m' ≡ Maps.size secrets)
apply_value-size_example =
    apply_value-size regexp formats rules candidate-injective secrets "$" secrets-HasDistinctKeys
