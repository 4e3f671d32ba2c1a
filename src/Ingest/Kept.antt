-- ===== src/Ingest/Kept.antt =====
-- What `prepare` of internal/ingest/service.go lets through of an event: content, raw payload and
-- mode.
use traceboard.Prelude.{
  String, true, false, Option, none, some, ◌≡◌, refl, sym, ap, ◌∙◌, ◌==◌, ◌&&◌, not, arith,
  Bool-cases, inl, inr, eqb,
}
use traceboard.Event.{Value, null, text, Fields, Event, Instant, schema_version_1}
use traceboard.Event.Mode.{off, metadata, detailed}
use traceboard.Event.EventType.{is_known_type}
use traceboard.Event.Maps
use traceboard.Event.Maps.{or_empty, lookup-insert}
use traceboard.Ingest.Modes.{output_event-mode, output_event-IsKnown}
use traceboard.Platform.{Platform}
use traceboard.Ingest.Setup.{Service, Tools, capture_mode, is_null}
use traceboard.Ingest.Prepare.{content_step, raw_step, output_event, prepare}

module _ (platform : Platform) (tools : Tools) (service : Service) where
  content_step-withheld :
      (mode : String) (content : Option Fields) (capture : Fields)
      → (mode == detailed) ≡ false
      → (content_step platform tools service mode content capture).1 ≡ none
  unfolding content_step
  content_step-withheld mode content capture h =
      elim (Bool-cases (mode == metadata && not (eqb (Maps.size (or_empty content)) 0))) [
        | inl e ↦ rw e refl
        | inr e ↦ rw (e, h) refl
      ]

  raw_step-withheld :
      (mode : String) (raw : Value) (capture : Fields)
      → (mode == detailed) ≡ false
      → (raw_step platform tools service mode raw capture).1 ≡ null
  unfolding raw_step
  raw_step-withheld mode raw capture h = elim (Bool-cases (not (is_null raw))) [
    | inl f ↦ rw (h, f) refl
    | inr f ↦ rw (h, f) refl
  ]

  prepare-not_off :
      (now : Instant) (input out : Event)
      → eqb input.schema_version schema_version_1 ≡ true
      → prepare platform tools service now input ≡ some out
      → (capture_mode service input.source == off) ≡ false
  unfolding prepare
  prepare-not_off now input out v h = ground arith

  pub prepare-shape :
      (now : Instant) (input out : Event)
      → eqb input.schema_version schema_version_1 ≡ true
      → prepare platform tools service now input ≡ some out
      → output_event platform tools service now input (capture_mode service input.source) ≡ out
  unfolding prepare
  prepare-shape now input out v h = ground arith

  -- What `prepare` makes of an event of the contract's version: it leaves the mode that is configured
  -- for the event's source in the capture entry, whatever the event says of itself, and has a type of
  -- the contract.
  pub prepare-mode :
      (now : Instant) (input out : Event)
      → eqb input.schema_version schema_version_1 ≡ true
      → prepare platform tools service now input ≡ some out
      → (Maps.lookup "mode" (or_empty out.capture)
          ≡ some (text (capture_mode service input.source)))
        × (is_known_type out.type ≡ true)
  prepare-mode now input out v h =
      let e = prepare-shape now input out v h in
      (
        ap (λ o. Maps.lookup "mode" (or_empty (Event.capture o))) (sym e)
            ∙ output_event-mode platform tools service now input _,
        ap (λ o. is_known_type (Event.type o)) (sym e)
            ∙ output_event-IsKnown platform tools service now input _,
      )

  output_event-withheld :
      (now : Instant) (input : Event) (mode : String)
      → (mode == detailed) ≡ false
      → ((output_event platform tools service now input mode).content ≡ none)
        × ((output_event platform tools service now input mode).raw ≡ null)
  unfolding output_event
  output_event-withheld now input mode h =
      (content_step-withheld mode input.content _ h, raw_step-withheld mode input.raw _ h)

  -- Unless the source is in the detailed mode, what `prepare` makes of an event of the contract's
  -- version carries neither content nor a raw payload, and in the mode off nothing is made of it.
  pub prepare-withheld :
      (now : Instant) (input out : Event)
      → eqb input.schema_version schema_version_1 ≡ true
      → (capture_mode service input.source == detailed) ≡ false
      → prepare platform tools service now input ≡ some out
      → (out.content ≡ none)
        × (out.raw ≡ null)
        × ((capture_mode service input.source == off) ≡ false)
  prepare-withheld now input out v m h =
      let e = prepare-shape now input out v h in
      let (c, r) = output_event-withheld now input (capture_mode service input.source) m in
      (ap Event.content (sym e) ∙ c, ap Event.raw (sym e) ∙ r, prepare-not_off now input out v h)
