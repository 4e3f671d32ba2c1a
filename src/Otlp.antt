-- ===== src/Otlp.antt =====
-- internal/otlp: the decoded OpenTelemetry messages, as records of what the generated getters return,
-- and the context in which a signal arrives (internal/otlp/normalize.go, internal/otlp/decoder.go).
pub mod Attributes
pub mod Times
pub mod Spans
pub mod Records
pub mod Normalize
pub mod Contract
pub mod Identity
pub mod Decode
use traceboard.Prelude.{ℕ, String, Bool, Option, List}
use traceboard.Event.{Instant}

-- commonpb.AnyValue. A number is kept by the text that JSON gives it. `unset` is a nil value, one
-- without a kind, or bytes.
mutual
  pub data AnyValue : Type 0 where
    unset : AnyValue
    string_value : String → AnyValue
    bool_value : Bool → AnyValue
    int_value : String → AnyValue
    double_value : String → AnyValue
    array_value : AnyValues → AnyValue
    kvlist_value : KeyValues → AnyValue

  pub data AnyValues : Type 0 where
    no_values : AnyValues
    value : AnyValue → AnyValues → AnyValues

  pub data KeyValues : Type 0 where
    no_pairs : KeyValues
    pair : String → AnyValue → KeyValues → KeyValues

-- The codes of tracepb.Status.
pub data StatusCode : Type 0 where
  code_unset : StatusCode
  code_ok : StatusCode
  code_error : StatusCode

-- tracepb.Span; `kind` is the text of its kind.
pub record Span : Type 0 where
  pub trace_id : List ℕ
  pub span_id : List ℕ
  pub parent_span_id : List ℕ
  pub name : String
  pub kind : String
  pub start_time_unix_nano : ℕ
  pub end_time_unix_nano : ℕ
  pub attributes : KeyValues
  pub status_code : StatusCode
  pub status_message : String

-- logspb.LogRecord; `body` is the text of the body, or empty.
pub record LogRecord : Type 0 where
  pub time_unix_nano : ℕ
  pub observed_time_unix_nano : ℕ
  pub severity_number : ℕ
  pub body : String
  pub attributes : KeyValues
  pub trace_id : List ℕ

pub record Metric : Type 0 where
  pub name : String
  pub unit : String
  pub description : String

-- The items of one scope, with the scope's name.
pub record Scope (Item : Type 0) : Type 0 where
  pub name : String
  pub items : List Item

-- The scopes of one resource. A resource that is nil has no attributes.
pub record Resource (Item : Type 0) : Type 0 where
  pub attributes : Option KeyValues
  pub scopes : List (Scope Item)

-- Signal: the request of its kind. No decoded signal has two.
pub data Signal : Type 0 where
  traces : List (Resource Span) → Signal
  logs : List (Resource LogRecord) → Signal
  metrics : List (Resource Metric) → Signal

pub record SourceContext : Type 0 where
  pub source : String
  pub source_version : String
  pub capture_mode : String
  pub project_id : String
  pub parent_run_id : String
  pub conversation_id : String

-- What the package calls of Go's library: hex.EncodeToString, the hex of the first eight bytes of a
-- SHA-256, the text of an instant, the name of a severity number, and strings.ToLower.
pub record Codec : Type 0 where
  pub hex : List ℕ → String
  pub short_digest : String → String
  pub time_text : Instant → String
  pub severity_text : ℕ → String
  pub to_lower : String → String
