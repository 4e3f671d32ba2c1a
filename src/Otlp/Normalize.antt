-- ===== src/Otlp/Normalize.antt =====
-- `Normalize` of internal/otlp/normalize.go: the events of a decoded signal, and the names of the
-- services that it carries.
use traceboard.Prelude.{
  ℕ, suc, String, Bool, Option, none, some, List, [], ◌∷◌, ◌++◌, ltb, map, if◌then◌else◌,
}
use traceboard.Prelude.Sorting.{sort_by}
use traceboard.Event.{Fields, Event, Instant}
use traceboard.Event.EventType.{contains_text}
use traceboard.Otlp.{
  Span, LogRecord, Metric, Scope, Resource, Signal, traces, logs, metrics, SourceContext, Codec,
}
use traceboard.Otlp.Attributes.{resource_attributes, source_name, resource_version, first_text_of}
use traceboard.Otlp.Spans.{trace_span_events}
use traceboard.Otlp.Records.{log_event, metric_event}

-- An item with its resource's attributes and its scope's name.
pub record Placed (Item : Type 0) : Type 0 where
  pub resource : Fields
  pub scope : String
  pub item : Item

module _ {Item : Type 0} where
  scope_items : Fields → List (Scope Item) → List (Placed Item)
  scope_items resource [] = []
  scope_items resource (scope ∷ rest) =
      map (λ item. record { resource = resource; scope = scope.name; item = item }) scope.items
      ++ scope_items resource rest

  -- The items that the nested loops come to, in their order.
  unfoldable pub placed_items : List (Resource Item) → List (Placed Item)
  unfolding scope_items resource_attributes
  placed_items [] = []
  placed_items (resource ∷ rest) =
      scope_items (resource_attributes resource.attributes) resource.scopes ++ placed_items rest

  -- Each item appends its events; the n-th item reads the clocks of number n.
  unfoldable pub append_each : (ℕ → Placed Item → List Event) → ℕ → List (Placed Item) → List Event
  append_each events n [] = []
  append_each events n (item ∷ rest) = events n item ++ append_each events (suc n) rest

abbrev pub occurs_before : Event → Event → Bool
occurs_before a b = ltb a.occurred_at b.occurred_at

module _ (codec : Codec) (clock : ℕ → ℕ → Instant) (context : SourceContext) where
  abbrev pub span_item_events : ℕ → Placed Span → List Event
  span_item_events n placed =
      let source = source_name placed.resource context.source in
      trace_span_events codec (clock n) source
        (resource_version placed.resource context.source_version) placed.scope placed.resource
        placed.item (record context { source = source })

  abbrev pub log_item_events : ℕ → Placed LogRecord → List Event
  log_item_events n placed =
      log_event codec (clock n 0) (source_name placed.resource context.source)
        (resource_version placed.resource context.source_version) placed.scope placed.resource
        placed.item context
      ∷ []

  abbrev pub metric_item_events : ℕ → Placed Metric → List Event
  metric_item_events n placed =
      metric_event (clock n 0) (source_name placed.resource context.source)
        (resource_version placed.resource context.source_version) placed.scope placed.item context
      ∷ []

  -- Normalize, with normalizeTraces, normalizeLogs and normalizeMetrics.
  unfoldable pub normalize : Signal → List Event
  unfolding placed_items append_each
  normalize (traces resources) =
      sort_by occurs_before (append_each span_item_events 0 (placed_items resources))
  normalize (logs resources) =
      sort_by occurs_before (append_each log_item_events 0 (placed_items resources))
  normalize (metrics resources) = append_each metric_item_events 0 (placed_items resources)

add_name : Option String → List String → List String
add_name none names = names
add_name (some name) names = if contains_text name names then names else names ++ (name ∷ [])

add_names : {Item : Type 0} → List (Resource Item) → List String → List String
unfolding add_name
add_names [] names = names
add_names (resource ∷ rest) names =
    add_names rest (
      add_name (first_text_of ("service.name" ∷ []) (resource_attributes resource.attributes))
        names)

-- OtlpSourceNames
unfoldable pub otlp_source_names : Signal → List String
unfolding add_names
otlp_source_names (traces resources) = add_names resources []
otlp_source_names (logs resources) = add_names resources []
otlp_source_names (metrics resources) = add_names resources []
