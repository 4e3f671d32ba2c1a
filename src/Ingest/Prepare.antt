-- ===== src/Ingest/Prepare.antt =====
-- `prepare` of internal/ingest/service.go: what becomes of one incoming event.
use Prim.Native.Nat.{min}
use Prim.Native.String.{len, slice, ◌++◌ as concat}
use traceboard.Prelude.{
  ℕ, String, Bool, true, false, not, Option, none, some, List, [], ◌∷◌, ◌==◌, ◌&&◌, ◌||◌, ltb, eqb,
  length, if◌then◌else◌,
}
use traceboard.Event.{
  Value, null, bool, count, text, arr, obj, Fields, end, field, Event, Instant, schema_version_1,
}
use traceboard.Event.Mode.{off, metadata, detailed}
use traceboard.Event.Status.{started, completed, unknown}
use traceboard.Event.EventType.{is_known_type, source_extension}
use traceboard.Event.Maps
use traceboard.Event.Maps.{or_empty}
use traceboard.Redact.{Match, apply, default_rules}
use traceboard.Platform.{Platform}
use traceboard.Ingest.Setup.{
  Service, Tools, RedactedMap, capture_mode, sorted_keys, text_items, copy_capture, is_null,
}

module _ (platform : Platform) (tools : Tools) (service : Service) where
  unfoldable pub redact : Value → Value × List Match
  redact v = apply platform.regexp platform.formats default_rules service.rules v

  text_of : Value → String
  text_of (text s) = s
  text_of _ = ""

  -- The cut of a text that is too long, after another redaction.
  unfoldable pub cut_text : String → Value
  unfolding text_of
  cut_text s =
      let safe = text_of (redact (text s)).0 in
      text (slice safe 0 (min (len safe) service.limits.max_content_field_size))

  unfoldable pub is_too_long : Value → Bool
  is_too_long (text s) = ltb service.limits.max_content_field_size (len s)
  is_too_long _ = false

  unfoldable pub bound_value : Value → Value
  bound_value (text s) =
      if ltb service.limits.max_content_field_size (len s) then cut_text s else text s
  bound_value v = v

  -- boundMap
  unfoldable pub bound_map : Fields → Fields
  bound_map end = end
  bound_map (field key v rest) = field key (bound_value v) (bound_map rest)

  unfoldable pub any_too_long : Fields → Bool
  any_too_long end = false
  any_too_long (field key v rest) = is_too_long v || any_too_long rest

  redacted_fields : Value × List Match → RedactedMap
  redacted_fields (obj m, found) = record {
    fields = bound_map m;
    matches = length found;
    truncated = any_too_long m;
  }
  redacted_fields (v, found) = record { fields = end; matches = length found; truncated = false }

  -- redactMap
  unfoldable pub redact_map : Option Fields → RedactedMap
  unfolding redacted_fields
  redact_map none = record { fields = end; matches = 0; truncated = false }
  redact_map (some m) = redacted_fields (redact (obj m))

  decoded : Option String → Value
  decoded none = null
  decoded (some encoded) = elim (platform.unmarshal encoded) [ none ↦ null | some v ↦ v ]

  -- canonicalRaw
  unfoldable pub canonical_raw : Value → Value
  unfolding decoded
  canonical_raw null = null
  canonical_raw v = decoded (platform.marshal v)

  text_or_empty : Option String → String
  text_or_empty none = ""
  text_or_empty (some s) = s

  join_unit : List String → String
  join_unit [] = ""
  join_unit (s ∷ []) = s
  join_unit (s ∷ rest) = concat s (concat "\u{1f}" (join_unit rest))

  -- deriveIdentifier
  unfoldable pub derive_identifier : String → Event → Value → String
  unfolding text_or_empty join_unit
  derive_identifier prefix input raw = concat prefix (
      concat "_" (
        tools.digest (
          join_unit (
            input.source
            ∷ input.source_version
            ∷ input.run_id
            ∷ input.step_id
            ∷ input.type
            ∷ tools.rfc3339_nano input.occurred_at
            ∷ text_or_empty (platform.marshal raw)
            ∷ []))))

  unfoldable pub identifier : String → String → Event → String
  identifier prefix given input =
      let trimmed = tools.trim_space given in
      if trimmed == "" then derive_identifier prefix input (canonical_raw input.raw) else trimmed

  unfoldable pub flagged : Bool → String → Fields → Fields
  flagged b key capture = if b then Maps.insert key (bool true) capture else capture

  unfoldable pub detailed_content : RedactedMap → Fields → Fields × Option Fields
  unfolding flagged
  detailed_content redacted capture =
      (flagged redacted.truncated "content_truncated" capture, some redacted.fields)

  -- Prompt and tool bodies: withheld in metadata mode, redacted and bounded in detailed mode.
  unfoldable pub content_step : String → Option Fields → Fields → Fields × Option Fields
  unfolding detailed_content
  content_step mode content capture =
      let given = not (eqb (Maps.size (or_empty content)) 0) in
      if mode == metadata && given
      then (
        Maps.insert "content_fields" (arr (text_items (sorted_keys (or_empty content))))
            (Maps.insert "content_withheld" (bool true) capture),
        none,
      )
      else if mode == detailed && given
      then detailed_content (redact_map content) capture
      else (capture, none)

  unfoldable pub raw_size : Option String → ℕ
  raw_size none = 0
  raw_size (some encoded) = len encoded

  unfoldable pub truncated_raw : ℕ → Value
  truncated_raw bytes = obj (field "truncated" (bool true) (field "bytes" (count bytes) end))

  unfoldable pub raw_within : Value → ℕ → Fields → Fields × Value
  unfolding truncated_raw
  raw_within redacted size capture =
      if ltb service.limits.max_raw_payload_size size
      then (Maps.insert "raw_truncated" (bool true) capture, truncated_raw size)
      else (capture, redacted)

  -- A raw payload that decodes to null is left out.
  unfoldable pub bounded_raw : Value → Fields → Fields × Value
  unfolding raw_size
  bounded_raw v capture =
      let redacted = (redact v).0 in
      if is_null v
      then (capture, null)
      else raw_within redacted (raw_size (platform.marshal redacted)) capture

  unfoldable pub raw_step : String → Value → Fields → Fields × Value
  raw_step mode raw capture =
      if mode == detailed && not (is_null raw)
      then bounded_raw (canonical_raw raw) capture
      else if not (is_null raw)
      then (Maps.insert "raw_withheld" (bool true) capture, null)
      else (capture, null)

  unfoldable pub default_field : String → Value → Fields → Fields
  default_field key v m = elim (Maps.lookup key m) [ none ↦ Maps.insert key v m | some w ↦ m ]

  -- The attributes of an event of a type outside the contract.
  unfoldable pub extension_attributes : String → Fields → Fields
  unfolding default_field
  extension_attributes type attributes =
      default_field "source_type" (text type)
        (default_field "extension_kind" (text "event") attributes)

  unfoldable pub normal_status : String → String
  normal_status status = if status == "" then unknown else status

  unfoldable pub extension_status : String → String
  extension_status status = if status == started || status == completed then status else unknown

  unfoldable pub first_capture : String → Event → RedactedMap → Fields
  unfolding flagged
  first_capture mode input attributes =
      flagged attributes.truncated "attributes_truncated"
        (copy_capture (or_empty input.capture) (field "mode" (text mode) end))

  unfoldable pub last_capture : ℕ → Fields → Fields
  last_capture found capture =
      if eqb found 0 then capture else Maps.insert "redacted_fields" (count found) capture

  -- The event that `prepare` builds once the mode is known not to be off.
  unfoldable pub output_event : Instant → Event → String → Event
  unfolding normal_status extension_status last_capture
  output_event now input mode =
      let known = is_known_type input.type in
      let attributes = redact_map input.attributes in
      let (content_capture, content) =
        content_step mode input.content (first_capture mode input attributes) in
      let (raw_capture, raw) = raw_step mode input.raw content_capture in
      record {
        schema_version = schema_version_1;
        event_id = identifier "evt" input.event_id input;
        source_event_id = identifier "src" input.source_event_id input;
        source = input.source;
        source_version = input.source_version;
        run_id = input.run_id;
        step_id = input.step_id;
        parent_step_id = input.parent_step_id;
        source_sequence = input.source_sequence;
        occurred_at = if eqb input.occurred_at 0 then now else input.occurred_at;
        type = if known then input.type else source_extension;
        status =
            if known
            then normal_status input.status
            else extension_status (normal_status input.status);
        capture = some (last_capture attributes.matches raw_capture);
        attributes = some (
            if known then attributes.fields else extension_attributes input.type attributes.fields);
        content = content;
        raw = raw;
      }

  -- prepare at the service's time `now`; `none` for an event that is dropped.
  unfoldable pub prepare : Instant → Event → Option Event
  prepare now input =
      if not (eqb input.schema_version schema_version_1)
      then some input
      else if capture_mode service input.source == off
      then none
      else some (output_event now input (capture_mode service input.source))
