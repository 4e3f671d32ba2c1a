-- ===== src/Store/Search/Phrases.antt =====
-- The expressions of `FTSQuery` (internal/store/timeline.go) as SQLite's FTS5 reads them: phrases in
-- double quotes with spaces between them, a quote inside a phrase written twice.
use Prim.Native.Char.{Char, code}
use Prim.Native.String.{String, [], ◌∷◌, ◌++◌}
use Prim.Native.String.append
use mathlib.Core.List.{List, [] as no_words, ◌∷◌ as more}
use text.Mathlib.TextLemmas.{append-nil, append_assoc}
use traceboard.Prelude.{
  Bool, true, false, Option, none, some, ◌≡◌, refl, sym, ap, ◌∙◌, eqb, Bool-cases, inl, inr,
  if◌then◌else◌,
}
use traceboard.Store.Search.{double_quotes, quoted, join_terms, trimmed_terms, words_of, fts_query}

-- Where the reader stands: before a phrase, inside one, behind a quote, or at an error.
pub data Place : Type 0 where
  between : Place
  inside : Place
  closed : Place
  wrong : Place

abbrev is_quote : Char → Bool
is_quote c = eqb (code c) 34

next_place : Place → Char → Place
next_place between c = if is_quote c then inside else wrong
next_place inside c = if is_quote c then closed else inside
next_place closed c = if is_quote c then inside else if eqb (code c) 32 then between else wrong
next_place wrong c = wrong

-- The phrase that is being read and those behind it.
abbrev Phrases : Type 0
Phrases = Option (String × List String)

push : Char → Phrases → Phrases
push c none = none
push c (some (p, rest)) = some (c ∷ p, rest)

new_phrase : Phrases → Phrases
new_phrase none = none
new_phrase (some (p, rest)) = some ("", more p rest)

with_char : Place → Char → Phrases → Phrases
unfolding push new_phrase
with_char between c rest = rest
with_char inside c rest = if is_quote c then rest else push c rest
with_char closed c rest = if is_quote c then push c rest else new_phrase rest
with_char wrong c rest = none

at_end : Place → Phrases
at_end closed = some ("", no_words)
at_end _ = none

scan : Place → String → Phrases
unfolding next_place with_char at_end
scan place [] = at_end place
scan place (c ∷ s) = with_char place c (scan (next_place place c) s)

all_phrases : Phrases → Option (List String)
all_phrases none = none
all_phrases (some (p, rest)) = some (more p rest)

-- The phrases of an expression, or `none` for one that is no list of quoted phrases.
unfoldable pub read_phrases : String → Option (List String)
unfolding scan all_phrases
read_phrases s = all_phrases (scan between s)

prefix : String → Phrases → Phrases
prefix t none = none
prefix t (some (p, rest)) = some (t ++ p, rest)

prefix-nil : (o : Phrases) → o ≡ prefix [] o
unfolding prefix
prefix-nil none = refl
prefix-nil (some (p, rest)) = ap (λ q. some (q, rest)) (sym (append.nil p))

push-prefix : (c : Char) (t : String) (o : Phrases) → push c (prefix t o) ≡ prefix (c ∷ t) o
unfolding push prefix
push-prefix c t none = refl
push-prefix c t (some (p, rest)) = ap (λ q. some (q, rest)) (sym (append.cons c t p))

-- A phrase with what follows it, from behind its opening quote on.
abbrev tail_of : String → String → String
tail_of t s = double_quotes t ++ ("\"" ++ s)

quote-cons : (s : String) → "\"" ++ s ≡ "\"" ∷ s
quote-cons s = append.cons "\"" [] s ∙ ap (λ u. "\"" ∷ u) (append.nil s)

space-cons : (s : String) → " " ++ s ≡ " " ∷ s
space-cons s = append.cons " " [] s ∙ ap (λ u. " " ∷ u) (append.nil s)

quoted-append : (t s : String) → quoted t ++ s ≡ "\"" ∷ tail_of t s
quoted-append t s =
    append_assoc "\"" (double_quotes t ++ "\"") s
    ∙ (ap (λ u. "\"" ++ u) (append_assoc (double_quotes t) "\"" s) ∙ quote-cons (tail_of t s))

tail_of-quote :
    (c : Char) (t s : String) → is_quote c ≡ true → tail_of (c ∷ t) s ≡ c ∷ c ∷ tail_of t s
unfolding double_quotes
tail_of-quote c t s h = rw h (
    append.cons c (c ∷ double_quotes t) ("\"" ++ s)
    ∙ ap (λ u. c ∷ u) (append.cons c (double_quotes t) ("\"" ++ s)))

tail_of-other : (c : Char) (t s : String) → is_quote c ≡ false → tail_of (c ∷ t) s ≡ c ∷ tail_of t s
unfolding double_quotes
tail_of-other c t s h = rw h (append.cons c (double_quotes t) ("\"" ++ s))

scan-quote :
    (c : Char) (s : String) → is_quote c ≡ true → scan inside (c ∷ c ∷ s) ≡ push c (scan inside s)
unfolding scan next_place with_char
scan-quote c s h = rw h (rw h refl)

scan-other :
    (c : Char) (s : String) → is_quote c ≡ false → scan inside (c ∷ s) ≡ push c (scan inside s)
unfolding scan next_place with_char
scan-other c s h = rw h refl

scan-tail_of : (t s : String) → scan inside (tail_of t s) ≡ prefix t (scan closed s)
unfolding scan next_place with_char double_quotes
scan-tail_of [] s =
    ap (scan inside) (append.nil ("\"" ++ s) ∙ quote-cons s) ∙ prefix-nil (scan closed s)
scan-tail_of (c ∷ t) s =
    let later = ap (push c) (scan-tail_of t s) ∙ push-prefix c t (scan closed s) in
    elim (Bool-cases (is_quote c)) [
      | inl yes_quote ↦
          ap (scan inside) (tail_of-quote c t s yes_quote)
          ∙ (scan-quote c (tail_of t s) yes_quote ∙ later)
      | inr no_quote ↦
          ap (scan inside) (tail_of-other c t s no_quote)
          ∙ (scan-other c (tail_of t s) no_quote ∙ later)
    ]

scan-join_terms :
    (t : String) (rest : List String) → scan between (join_terms (more t rest)) ≡ some (t, rest)
unfolding scan next_place with_char at_end new_phrase prefix join_terms
scan-join_terms t no_words =
    ap (scan between) (sym (append-nil (quoted t)) ∙ quoted-append t "")
    ∙ (scan-tail_of t "" ∙ ap (λ u. some (u, no_words)) (append-nil t))
scan-join_terms t (more u rest) =
    let next = join_terms (more u rest) in
    ap (scan between) (quoted-append t (" " ++ next))
    ∙ (scan-tail_of t (" " ++ next)
        ∙ (ap (λ s. prefix t (scan closed s)) (space-cons next)
            ∙ (ap (λ o. prefix t (new_phrase o)) (scan-join_terms u rest)
                ∙ ap (λ v. some (v, more u rest)) (append-nil t))))

-- No term at all is one empty phrase.
abbrev pub phrases_of : List String → List String
phrases_of no_words = more "" no_words
phrases_of (more t rest) = more t rest

read_phrases-join_terms :
    (terms : List String) → read_phrases (join_terms terms) ≡ some (phrases_of terms)
unfolding read_phrases all_phrases scan next_place with_char at_end join_terms
read_phrases-join_terms no_words = refl
read_phrases-join_terms (more t rest) = ap all_phrases (scan-join_terms t rest)

-- The full-text engine reads the expression of any input back as the terms that were taken from it,
-- each a phrase of its own, and as one empty phrase where there is no term: no character of the input
-- is read as an operator.
pub read_phrases-fts_query :
    (is_letter_or_digit : Char → Bool) (input : String)
    → read_phrases (fts_query is_letter_or_digit input)
      ≡ some (phrases_of (trimmed_terms (words_of is_letter_or_digit input)))
unfolding fts_query
read_phrases-fts_query is_letter_or_digit input =
    read_phrases-join_terms (trimmed_terms (words_of is_letter_or_digit input))
