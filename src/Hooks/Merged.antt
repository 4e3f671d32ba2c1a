-- ===== src/Hooks/Merged.antt =====
-- internal/hooks/common.go: the identifiers of two hooks whose names have one mapping.
use traceboard.Prelude.{
  String, Option, some, ◌≡◌, refl, ap, ◌∙◌, sym, Bool-cases, inl, inr, if◌then◌else◌,
}
use traceboard.Event.{Fields, end, Instant}
use traceboard.Event.EventType.{is_known_type}
use traceboard.Hooks.Tables.{Rule, Adapter}
use traceboard.Hooks.{
  HookInput, HookTools, hook_attributes, derive_id, envelope, build, rule_of, hook_event,
}

-- The input as the hook would be under another name, with other attributes and other content.
abbrev pub renamed : String → Option Fields → Option Fields → HookInput → HookInput
renamed name attributes content input = record input {
  event_name = name;
  attributes = attributes;
  content = content;
}

-- The identifier of the event of a hook whose name resolves to `canonical`.
abbrev pub id_made : HookTools → Instant → Adapter → HookInput → String → String
id_made tools now adapter input canonical =
    let (e, notes) = hook_event tools now adapter input (some canonical) in e.event_id

module _ (tools : HookTools) (now : Instant) (input : HookInput) where
  abbrev id_of : String → String → String → String
  id_of type status step =
      derive_id tools "evt" (envelope tools now input type status step end) type

  build-event_id :
      (name : String) (other content : Option Fields) (type status step : String)
      (attributes : Fields)
      → (build tools now (renamed name other content input) type status step attributes).event_id
        ≡ id_of type status step
  unfolding build derive_id
  build-event_id name other content type status step attributes =
      elim (Bool-cases (is_known_type type)) [ inl e ↦ rw e refl | inr e ↦ rw e refl ]

  abbrev id_under : Rule → String
  id_under r = id_of r.event_type r.status (if r.step_bound then input.step_id else "")

  hook_event-id_under :
      (adapter : Adapter) (name : String) (other content : Option Fields) (canonical : String)
      → id_made tools now adapter (renamed name other content input) canonical
        ≡ id_under (rule_of tools canonical)
  unfolding hook_event
  hook_event-id_under adapter name other content canonical =
      build-event_id name other content (rule_of tools canonical).event_type
        (rule_of tools canonical).status
        (if (rule_of tools canonical).step_bound then input.step_id else "")
        (hook_attributes adapter (renamed name other content input))

  -- Two lifecycle names with the same rule give a hook the same event identifier, also where the hook's
  -- own name, its attributes and its content differ.
  pub same_rule_merged :
      (adapter : Adapter) (canonical canonical' name : String) (attributes content : Option Fields)
      → rule_of tools canonical ≡ rule_of tools canonical'
      → id_made tools now adapter input canonical
        ≡ id_made tools now adapter (renamed name attributes content input) canonical'
  same_rule_merged adapter canonical canonical' name attributes content same =
      hook_event-id_under adapter input.event_name input.attributes input.content canonical
      ∙ ap id_under same
      ∙ sym (hook_event-id_under adapter name attributes content canonical')
