-- ===== src/Ingest/Modes.antt =====
-- The steps of `prepare` (internal/ingest/service.go) that depend on the configured capture mode.
use traceboard.Prelude.{
  ℕ, String, Bool, true, false, Option, some, ◌≡◌, refl, ◌∙◌, ◌==◌, ◌&&◌, not, if◌then◌else◌,
  Bool-cases, inl, inr, eqb, ltb,
}
use traceboard.Event.{Value, bool, text, Fields, end, field, Event, Instant}
use traceboard.Event.Mode.{metadata, detailed}
use traceboard.Event.EventType.{contains_text, source_extension, is_known_type}
use traceboard.Event.Maps
use traceboard.Event.Maps.{or_empty, lookup-insert}
use traceboard.Platform.{Platform}
use traceboard.Ingest.Setup.{Service, Tools, RedactedMap, is_null, copy_capture}
use traceboard.Ingest.Prepare.{
  content_step, raw_step, flagged, detailed_content, bounded_raw, raw_within, last_capture,
  first_capture, output_event,
}

-- `key` is not the entry that holds the mode.
lookup_mode-insert :
    (key : String) (v : Value) (m : Fields)
    → (key == "mode") ≡ false
    → Maps.lookup "mode" (Maps.insert key v m) ≡ Maps.lookup "mode" m
lookup_mode-insert key v m h = rw lookup-insert (rw h)

copy_capture-mode :
    (given capture : Fields)
    → Maps.lookup "mode" (copy_capture given capture) ≡ Maps.lookup "mode" capture
unfolding copy_capture
copy_capture-mode end capture = refl
copy_capture-mode (field key v rest) capture = elim (Bool-cases (key == "mode")) [
  | inl e ↦ rw e (copy_capture-mode rest capture)
  | inr e ↦ rw e (copy_capture-mode rest _ ∙ lookup_mode-insert key v capture e)
]

known_or_extension :
    (type : String) (known : Bool)
    → is_known_type type ≡ known
    → is_known_type (if known then type else source_extension) ≡ true
unfolding is_known_type contains_text
known_or_extension type true e = e
known_or_extension type false e = refl

module _ (platform : Platform) (tools : Tools) (service : Service) where
  flagged-mode :
      (b : Bool) (key : String) (m : Fields)
      → (key == "mode") ≡ false
      → Maps.lookup "mode" (flagged platform tools service b key m) ≡ Maps.lookup "mode" m
  unfolding flagged
  flagged-mode true key m h = lookup_mode-insert key (bool true) m h
  flagged-mode false key m h = refl

  content_step-mode :
      (mode : String) (content : Option Fields) (capture : Fields)
      → Maps.lookup "mode" (content_step platform tools service mode content capture).0
        ≡ Maps.lookup "mode" capture
  unfolding content_step detailed_content
  content_step-mode mode content capture =
      elim (Bool-cases (mode == metadata && not (eqb (Maps.size (or_empty content)) 0))) [
        | inl e ↦ rw e (
            lookup_mode-insert "content_fields" _ _ refl
            ∙ lookup_mode-insert "content_withheld" _ capture refl)
        | inr e ↦
            elim (Bool-cases (mode == detailed && not (eqb (Maps.size (or_empty content)) 0))) [
              | inl f ↦ rw (e, f) (flagged-mode _ "content_truncated" capture refl)
              | inr f ↦ rw (e, f) refl
            ]
      ]

  raw_within-mode :
      (v : Value) (size : ℕ) (capture : Fields)
      → Maps.lookup "mode" (raw_within platform tools service v size capture).0
        ≡ Maps.lookup "mode" capture
  unfolding raw_within
  raw_within-mode v size capture =
      elim (Bool-cases (ltb service.limits.max_raw_payload_size size)) [
        | inl e ↦ rw e (lookup_mode-insert "raw_truncated" _ capture refl)
        | inr e ↦ rw e refl
      ]

  bounded_raw-mode :
      (v : Value) (capture : Fields)
      → Maps.lookup "mode" (bounded_raw platform tools service v capture).0
        ≡ Maps.lookup "mode" capture
  unfolding bounded_raw
  bounded_raw-mode v capture = elim (Bool-cases (is_null v)) [
    | inl e ↦ rw e refl
    | inr e ↦ rw e (raw_within-mode _ _ capture)
  ]

  raw_step-mode :
      (mode : String) (raw : Value) (capture : Fields)
      → Maps.lookup "mode" (raw_step platform tools service mode raw capture).0
        ≡ Maps.lookup "mode" capture
  unfolding raw_step
  raw_step-mode mode raw capture = elim (Bool-cases (mode == detailed && not (is_null raw))) [
    | inl e ↦ rw e (bounded_raw-mode _ capture)
    | inr e ↦ elim (Bool-cases (not (is_null raw))) [
      | inl f ↦ rw (e, f) (lookup_mode-insert "raw_withheld" _ capture refl)
      | inr f ↦ rw (e, f) refl
    ]
  ]

  first_capture-mode :
      (mode : String) (input : Event) (attributes : RedactedMap)
      → Maps.lookup "mode" (first_capture platform tools service mode input attributes)
        ≡ some (text mode)
  unfolding first_capture Maps.lookup
  first_capture-mode mode input attributes =
      flagged-mode attributes.truncated "attributes_truncated"
        (copy_capture (or_empty input.capture) (field "mode" (text mode) end)) refl
      ∙ copy_capture-mode (or_empty input.capture) (field "mode" (text mode) end)

  last_capture-mode :
      (found : ℕ) (capture : Fields)
      → Maps.lookup "mode" (last_capture platform tools service found capture)
        ≡ Maps.lookup "mode" capture
  unfolding last_capture
  last_capture-mode found capture = elim (Bool-cases (eqb found 0)) [
    | inl e ↦ rw e refl
    | inr e ↦ rw e (lookup_mode-insert "redacted_fields" _ capture refl)
  ]

  pub output_event-mode :
      (now : Instant) (input : Event) (mode : String)
      → Maps.lookup "mode" (or_empty (output_event platform tools service now input mode).capture)
        ≡ some (text mode)
  unfolding output_event
  output_event-mode now input mode =
      last_capture-mode _ _
      ∙ raw_step-mode mode input.raw _
      ∙ content_step-mode mode input.content _
      ∙ first_capture-mode mode input _

  pub output_event-IsKnown :
      (now : Instant) (input : Event) (mode : String)
      → is_known_type (output_event platform tools service now input mode).type ≡ true
  unfolding output_event
  output_event-IsKnown now input mode =
      known_or_extension input.type (is_known_type input.type) refl
