-- ===== src/Redact.antt =====
-- internal/redact/redact.go: rules, redaction of a text, and of a JSON value with its map keys.
-- The regular expressions are Go's package regexp: `Regexp` holds what the code calls of it.
pub mod Keys
pub mod Fresh
pub mod Distinct
pub mod Entries
use Prim.Native.String.{len, slice, compare, ◌++◌ as concat}
use mathlib.Core.List.{◌++◌ as append}
use package.text.Mathlib.Text.{is_lt}
use traceboard.Prelude.{
  ℕ, suc, ◌+◌, String, Bool, true, false, Option, none, some, List, [], ◌∷◌, map, ◌==◌, ◌≡◌, refl,
  if◌then◌else◌,
}
use traceboard.Event.{
  Value, null, bool, number, count, text, arr, obj, Items, nil, cons, Fields, end, field,
}
use traceboard.Event.Maps
use traceboard.Redact.Keys.{Format, unique_map_key}

pub record Match : Type 0 where
  pub field : String
  pub rule : String

pub record Pattern : Type 0 where
  pub name : String
  pub expression : String

pub record Options : Type 0 where
  pub environment_values : List String
  pub patterns : List Pattern

pub record CompiledRule : Type 0 where
  pub name : String
  pub expression : String

pub data RedactError : Type 0 where
  name_required : RedactError
  compile_failed : String → RedactError

pub data RulesResult : Type 0 where
  compiled : List CompiledRule → RulesResult
  failed : RedactError → RulesResult

-- `find_all e s` is FindAllStringIndex: the bounds of the matches of `e` in `s`, left to right.
pub record Regexp : Type 0 where
  pub compiles : String → Bool
  pub quote_meta : String → String
  pub find_all : String → String → List (ℕ × ℕ)

module _ (regexp : Regexp) where
  environment_rules : List String → List CompiledRule
  environment_rules [] = []
  environment_rules (value ∷ rest) =
      let later = environment_rules rest in
      if value == ""
      then later
      else record { name = "configured_environment"; expression = regexp.quote_meta value } ∷ later

  add_patterns : List CompiledRule → List Pattern → RulesResult
  add_patterns done [] = compiled done
  add_patterns done (p ∷ rest) =
      let next =
        add_patterns (append done (record { name = p.name; expression = p.expression } ∷ []))
          rest in
      if p.name == ""
      then failed name_required
      else if regexp.compiles p.expression
      then next
      else failed (compile_failed p.name)

  with_defaults : List CompiledRule → RulesResult → RulesResult
  with_defaults defaults (failed e) = failed e
  with_defaults defaults (compiled done) = compiled (append done defaults)

  -- New
  unfoldable pub new : List CompiledRule → Options → RulesResult
  unfolding environment_rules add_patterns with_defaults
  new defaults options =
      with_defaults defaults
        (add_patterns (environment_rules options.environment_values) options.patterns)

-- defaultRules
abbrev pub default_rules : List CompiledRule
default_rules =
    record { name = "bearer_token"; expression = "(?i)\\bBearer[ \\t]+[A-Za-z0-9._~+/=-]{8,}" }
    ∷ record {
      name = "private_key";
      expression =
          "(?s)-----BEGIN (?:[A-Z0-9]+ )?PRIVATE KEY-----.*?-----END (?:[A-Z0-9]+ )?PRIVATE KEY-----";
    }
    ∷ record {
      name = "database_url";
      expression =
          "(?i)\\b(?:postgres(?:ql)?|mysql|mariadb|mongodb(?:\\+srv)?|rediss?|amqps?|clickhouse)://[^\\s/@:]+:[^\\s/@]+@[^\\s]+";
    }
    ∷ record {
      name = "api_key";
      expression =
          "\\b(?:sk-(?:proj-)?[A-Za-z0-9_-]{16,}|AIza[0-9A-Za-z_-]{20,}|AKIA[0-9A-Z]{16}|gh[pousr]_[A-Za-z0-9]{20,}|glpat-[A-Za-z0-9_-]{20,}|xox[baprs]-[A-Za-z0-9-]{10,})\\b";
    }
    ∷ []

-- The replacement of one match.
unfoldable pub marker : String → String
marker name = concat "[REDACTED:" (concat name "]")

-- The inner loop of `applyString`: what stands before, between and behind the matches, with a
-- marker in the place of each match.
unfoldable pub splice : String → String → ℕ → List (ℕ × ℕ) → String
unfolding marker
splice name s last [] = slice s last (len s)
splice name s last ((from, to) ∷ rest) =
    concat (slice s last from) (concat (marker name) (splice name s to rest))

module _ (regexp : Regexp) where
  apply_matches : String → CompiledRule → String → List (ℕ × ℕ) → String × List Match
  unfolding splice
  apply_matches path rule s [] = (s, [])
  apply_matches path rule s (m ∷ rest) = (
    splice rule.name s 0 (m ∷ rest),
    map (λ _. record { field = path; rule = rule.name }) (m ∷ rest),
  )

  -- applyString: the rules in turn, each on the result of the ones before.
  unfoldable pub apply_string : String → List CompiledRule → String → String × List Match
  unfolding apply_matches
  apply_string path [] s = (s, [])
  apply_string path (rule ∷ later) s =
      let (s', found) = apply_matches path rule s (regexp.find_all rule.expression s) in
      let (result, more) = apply_string path later s' in (result, append found more)

-- childField
unfoldable pub child_field : String → String → String
child_field parent key = concat parent (concat "." key)

-- A map entry, with its value as the redaction of it below a path.
pub record MapEntry : Type 0 where
  pub key : String
  pub redact_at : String → Value × List Match

pub record PendingMapEntry : Type 0 where
  pub key : String
  pub redacted_key : String
  pub key_matches : List Match
  pub redact_at : String → Value × List Match

-- sort.Slice by key. The keys of a map are distinct, so the order is determined.
insert_entry : MapEntry → List MapEntry → List MapEntry
insert_entry e [] = e ∷ []
insert_entry e (d ∷ rest) =
    let later = insert_entry e rest in
    if is_lt (compare d.key e.key) then d ∷ later else e ∷ d ∷ rest

unfoldable pub sort_entries : List MapEntry → List MapEntry
unfolding insert_entry
sort_entries [] = []
sort_entries (e ∷ rest) = insert_entry e (sort_entries rest)

-- fmt.Sprintf("%s~%d", …) and fmt.Sprintf("%s[%d]", …)
pub record Formats : Type 0 where
  pub candidate : Format
  pub index_path : Format

module _ (regexp : Regexp) (formats : Formats) (rules : List CompiledRule) where
  unfoldable pub pending_entry : String → MapEntry → PendingMapEntry
  unfolding apply_string
  pending_entry path e =
      let (redacted, found) = apply_string regexp path rules e.key in
      record { key = e.key; redacted_key = redacted; key_matches = found; redact_at = e.redact_at }

  -- The keys that redaction leaves as they are.
  unfoldable pub reserved_keys : List PendingMapEntry → List String
  reserved_keys [] = []
  reserved_keys (p ∷ rest) =
      let later = reserved_keys rest in
      if p.redacted_key == p.key then p.redacted_key ∷ later else later

  entry_key : Fields → List String → PendingMapEntry → String
  unfolding unique_map_key Maps.keys
  entry_key result reserved p =
      if p.redacted_key == p.key
      then p.redacted_key
      else unique_map_key formats.candidate (append (Maps.keys result) reserved) p.redacted_key

  -- The second loop of `applyMapEntries`.
  unfoldable pub build_map :
      String → List String → Fields → List PendingMapEntry → Fields × List Match
  unfolding entry_key child_field Maps.insert
  build_map path reserved result [] = (result, [])
  build_map path reserved result (p ∷ rest) =
      let key = entry_key result reserved p in
      let (child, found) = p.redact_at (child_field path key) in
      let (whole, more) = build_map path reserved (Maps.insert key child result) rest in
      (whole, append p.key_matches (append found more))

  apply_map_entries : String → List MapEntry → Value × List Match
  unfolding sort_entries pending_entry reserved_keys build_map
  apply_map_entries path entries =
      let pending = map (pending_entry path) (sort_entries entries) in
      let (result, matches) = build_map path (reserved_keys pending) end pending in
      (obj result, matches)

  text_value : String × List Match → Value × List Match
  text_value (s, found) = (text s, found)

  items_value : Items × List Match → Value × List Match
  items_value (items, found) = (arr items, found)

  cons_value : Value × List Match → Items × List Match → Items × List Match
  cons_value (v, found) (items, more) = (cons v items, append found more)

  -- applyValue, with `redact_items` for the loop over a slice.
  unfoldable mutual
    unfolding apply_string apply_map_entries text_value items_value cons_value

    pub apply_value : Value → String → Value × List Match
    apply_value (text s) path = text_value (apply_string regexp path rules s)
    apply_value (obj m) path = apply_map_entries path (map_entries m)
    apply_value (arr items) path = items_value (apply_items items path 0)
    apply_value null path = (null, [])
    apply_value (bool b) path = (bool b, [])
    apply_value (number n) path = (number n, [])
    apply_value (count n) path = (count n, [])

    pub apply_items : Items → String → ℕ → Items × List Match
    apply_items nil path index = (nil, [])
    apply_items (cons v rest) path index =
        cons_value (apply_value v (formats.index_path path index))
          (apply_items rest path (index + 1))

    pub map_entries : Fields → List MapEntry
    map_entries end = []
    map_entries (field key v rest) =
        record { key = key; redact_at = apply_value v } ∷ map_entries rest

-- A redactor with no rules of its own uses the defaults.
unfoldable pub rules_or_default : List CompiledRule → List CompiledRule → List CompiledRule
rules_or_default defaults [] = defaults
rules_or_default defaults (rule ∷ rest) = rule ∷ rest

-- Redactor.Apply
unfoldable pub apply :
    Regexp → Formats → List CompiledRule → List CompiledRule → Value → Value × List Match
unfolding apply_value rules_or_default
apply regexp formats defaults rules value =
    apply_value regexp formats (rules_or_default defaults rules) value "$"
