-- ===== src/Hooks.antt =====
-- internal/hooks/common.go and internal/hooks/lifecycle.go: a hook of an agent as an event. An error is
-- `none`: a source without an adapter, or an input without a name or a run.
pub mod Tables
pub mod Rules
pub mod Sound
pub mod Merged
use Prim.Native.String.{◌++◌ as concat, [] as empty_text, ◌∷◌ as put}
use Prim.Native.Char.{code}
use traceboard.Prelude.{
  ℕ, String, Bool, true, false, Option, none, some, List, [], ◌∷◌, ◌==◌, ◌||◌, eqb, or_else,
  if◌then◌else◌,
}
use traceboard.Event.{Value, null, text, obj, Fields, end, field, Event, Instant, schema_version_1}
use traceboard.Event.EventType.{is_known_type, source_extension}
use traceboard.Event.Status.{started, completed, failed, unknown}
use traceboard.Event.Maps
use traceboard.Event.Maps.{or_empty}
use traceboard.Otlp.Decode.{split_at}
use traceboard.Hooks.Tables.{Rule, Adapter, canonical_lifecycle, registry}

pub record HookInput : Type 0 where
  pub source : String
  pub source_version : String
  pub event_name : String
  pub run_id : String
  pub step_id : String
  pub parent_step_id : String
  pub source_sequence : Option ℕ
  pub occurred_at : Instant
  pub status : String
  pub attributes : Option Fields
  pub content : Option Fields
  pub raw : Value

pub record Mapping : Type 0 where
  pub source : String
  pub source_version : String
  pub supported_since : String
  pub events : List Event
  pub notes : List String

-- What the package calls: strings.TrimSpace, json.Marshal, the hex of the first 16 bytes of a SHA-256,
-- the RFC 3339 text of an instant, and the decimal text of a number.
pub record HookTools : Type 0 where
  pub trim_space : String → String
  pub marshal : Value → Option String
  pub digest : String → String
  pub rfc3339_nano : Instant → String
  pub decimal : ℕ → String

abbrev pub command_failure : String
command_failure = "command.failed"

-- For
unfoldable pub adapter_for : String → List Adapter → Option Adapter
adapter_for source [] = none
adapter_for source (adapter ∷ rest) =
    let later = adapter_for source rest in if adapter.source == source then some adapter else later

-- m[key] of a table.
unfoldable pub find_entry {ℓ} : {A : Type ℓ} → String → List (String × A) → Option A
find_entry key [] = none
find_entry key ((k, a) ∷ rest) =
    let later = find_entry key rest in if k == key then some a else later

-- The loop of `dig` over the segments of a path; nil where one is missing.
unfoldable pub dig_segments : List String → Value → Value
dig_segments [] v = v
dig_segments (segment ∷ rest) (obj m) = dig_segments rest (or_else (Maps.lookup segment m) null)
dig_segments (segment ∷ rest) v = null

unfoldable pub dig : Value → String → Value
unfolding dig_segments split_at
dig payload path = let (first, rest) = split_at 46 path in dig_segments (first ∷ rest) payload

unfoldable pub underscores : String → String
underscores empty_text = empty_text
underscores (put c s) =
    let rest = underscores s in if eqb (code c) 46 then put "_" rest else put c rest

insert_dug : String → Value → Fields → Fields
insert_dug key null m = m
insert_dug key v m = Maps.insert key v m

unfoldable pub copy_paths : List String → Value → Fields → Fields
unfolding insert_dug dig underscores
copy_paths [] raw m = m
copy_paths (path ∷ rest) raw m =
    copy_paths rest raw (insert_dug (concat "source." (underscores path)) (dig raw path) m)

-- attributes
unfoldable pub hook_attributes : Adapter → HookInput → Fields
unfolding copy_paths
hook_attributes adapter input =
    let named =
      Maps.insert "source_event_name" (text input.event_name) (or_empty input.attributes) in
    let versioned =
      if input.source_version == ""
      then named
      else Maps.insert "source_version" (text input.source_version) named in
    copy_paths adapter.raw_paths input.raw versioned

unfoldable pub joined : List String → String
joined [] = ""
joined (s ∷ []) = s
joined (s ∷ rest) = concat s (concat "\u{1f}" (joined rest))

module _ (tools : HookTools) where
  decimal_or_empty : Option ℕ → String
  decimal_or_empty none = ""
  decimal_or_empty (some n) = tools.decimal n

  -- deriveID
  unfoldable pub derive_id : String → Event → String → String
  unfolding decimal_or_empty joined
  derive_id prefix output type = concat prefix (
      concat "_" (
        tools.digest (
          joined (
            output.source
            ∷ output.source_version
            ∷ output.run_id
            ∷ output.step_id
            ∷ output.parent_step_id
            ∷ type
            ∷ decimal_or_empty output.source_sequence
            ∷ tools.rfc3339_nano output.occurred_at
            ∷ or_else (tools.marshal output.raw) ""
            ∷ []))))

  -- The event of `build` before its identifiers.
  abbrev pub envelope : Instant → HookInput → String → String → String → Fields → Event
  envelope now input type status step attributes = record {
    schema_version = schema_version_1;
    event_id = "";
    source_event_id = "";
    source = input.source;
    source_version = input.source_version;
    run_id = if input.run_id == "" then concat input.source ":unattributed" else input.run_id;
    step_id = step;
    parent_step_id = input.parent_step_id;
    source_sequence = input.source_sequence;
    occurred_at = if eqb input.occurred_at 0 then now else input.occurred_at;
    type = type;
    status = if status == "" then unknown else status;
    capture = some (field "mode" (text "metadata") end);
    attributes = some attributes;
    content = input.content;
    raw = input.raw;
  }

  abbrev pub hook_extension : Event → String → Event
  hook_extension e type = record e {
    type = source_extension;
    status = if e.status == started || e.status == completed then e.status else unknown;
    attributes = some (
        Maps.insert "source_type" (text type)
          (Maps.insert "extension_kind" (text "hook") (or_empty e.attributes)));
  }

  -- build
  unfoldable pub build : Instant → HookInput → String → String → String → Fields → Event
  unfolding derive_id
  build now input type status step attributes =
      let e = envelope now input type status step attributes in
      let identified = record e {
        event_id = derive_id "evt" e type;
        source_event_id = derive_id "src" e type;
      } in
      if is_known_type type then identified else hook_extension identified type

  -- resolve
  unfoldable pub resolve : Adapter → String → Option String
  unfolding find_entry
  resolve adapter name =
      let trimmed = tools.trim_space name in
      elim (find_entry trimmed canonical_lifecycle) [
        | some r ↦ some trimmed
        | none ↦ find_entry trimmed adapter.aliases
      ]

  -- The rule of a resolved name; one that is not in the table reads as the zero rule.
  unfoldable pub rule_of : String → Rule
  unfolding find_entry
  rule_of canonical =
      if canonical == command_failure
      then record { event_type = command_failure; status = failed; step_bound = false }
      else or_else (find_entry canonical canonical_lifecycle)
          (record { event_type = ""; status = ""; step_bound = false })

  -- The event of `Normalize`, and its note.
  unfoldable pub hook_event : Instant → Adapter → HookInput → Option String → Event × List String
  unfolding build hook_attributes rule_of
  hook_event now adapter input none = (
    build now input input.event_name unknown input.step_id (hook_attributes adapter input),
    "unmapped lifecycle name stored as a source extension" ∷ [],
  )
  hook_event now adapter input (some canonical) = (
    build now input (rule_of canonical).event_type (rule_of canonical).status
        (if (rule_of canonical).step_bound then input.step_id else "")
        (hook_attributes adapter input),
    [],
  )

  -- baseAdapter.Normalize
  unfoldable pub normalize_by : Instant → Adapter → HookInput → Option Mapping
  unfolding hook_event resolve
  normalize_by now adapter input =
      if tools.trim_space input.event_name == "" || tools.trim_space input.run_id == ""
      then none
      else some (
          let (e, notes) = hook_event now adapter input (resolve adapter input.event_name) in
          record {
            source = adapter.source;
            source_version = input.source_version;
            supported_since = adapter.supported_since;
            events = e ∷ [];
            notes = notes;
          })

  -- Normalize
  unfoldable pub normalize_hook : Instant → HookInput → Option Mapping
  unfolding adapter_for normalize_by
  normalize_hook now input = elim (adapter_for input.source registry) [
    | none ↦ none
    | some adapter ↦ normalize_by now adapter input
  ]
