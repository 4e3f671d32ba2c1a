-- ===== src/Lib.antt =====
-- Traceboard: the event log of coding agents, with its store, its dashboard feed and its sign-in.
--
-- An event comes in through `Service.Ingest` (internal/ingest/service.go), which applies the capture
-- mode that is configured for its source, redacts it (internal/redact/redact.go) and hands the batch
-- to `Store.InsertEvents` (internal/store/events.go). The store validates every event
-- (internal/event), redacts it once more, and writes it with its run and step in one transaction.
-- The dashboard reads the timeline of a run in pages (internal/store/timeline.go) and listens to the
-- hub (internal/live/hub.go). Alerts (internal/store/alerts.go) and retention
-- (internal/retention/retention.go) work on the same store, and so do the sessions of the dashboard
-- (internal/auth/auth.go over internal/store/sources.go). OpenTelemetry bodies are decoded and
-- normalized to events (internal/otlp) and go the same way (internal/ingest/otlp.go). The hooks of the
-- agents are mapped to events by one adapter for each agent (internal/hooks).
--
-- The files:
-- - Prelude.antt and Prelude/: shared names, Boolean tests on native numbers, lists, and tables. A
--   table is a list of rows in the order of insertion, and an SQL statement is a function on it.
--   Prelude/Sorting.antt is ORDER BY and Go's stable sort, Prelude/TextOrder.antt the order of texts.
-- - Event.antt and Event/: internal/event/event.go and validate.go. A JSON value is a tree (`Value`),
--   a Go map an association list (Event/Maps.antt), `Validate` is `Event.Validate.validate`.
-- - Redact.antt: internal/redact/redact.go: `Redactor.Apply` and `applyValue`. Redact/Keys.antt
--   has `uniqueMapKey`; Redact/Fresh.antt, Distinct.antt and Entries.antt are about map keys.
-- - Platform.antt: what the code calls of Go's standard library (encoding/json, regexp, fmt) is a
--   record that the definitions take as a parameter. Nothing is assumed of it unless a theorem's
--   hypothesis names it.
-- - Store.antt: the tables of migrations/ and the error results. A function that returns `ok db`
--   has committed, one that returns `err` has rolled back.
--   Store/Prepare.antt, Statements.antt, Summary.antt and Insert.antt are `prepareEvent`, the SQL
--   statements, `updateRun`/`updateStep` and `insertEvent`/`InsertEvents`. Store/Counting.antt,
--   Consistent.antt, Consistent/ and Redelivery/ are about them.
-- - Store/Timeline.antt: `ListEvents`, `GetEvent` and their scanning; Timeline/Export.antt is
--   `ListAllEvents`; Timeline/Sorting.antt is the ORDER BY; Timeline/Pages.antt and
--   Timeline/Cursors.antt are about pages, Timeline/Passed.antt about the events they pass over.
-- - Store/Listing.antt: `ListRuns`, `GetRun`, `ListSteps` and `loadRunDerived` of
--   internal/store/runs.go, with Listing/Paging.antt and Listing/Pages.antt about cursors and pages.
--   Store/Search.antt: `FTSQuery`, with Search/Phrases.antt, a reader of its expressions.
--   Store/Projects.antt: the projects.
-- - Store/Alerts.antt: `OpenAlert`, `AcknowledgeAlert`, `ResolveAlerts`, with Alerts/Opening.antt and
--   Alerts/Reopening.antt about them.
-- - Store/Runs.antt: `DeleteRun`, `SelectRetentionCandidates`, the end of silent runs, and the
--   durations. Store/Sessions.antt: the session statements. Store/Sources.antt: the sources, with
--   Sources/Kept.antt, Kept/Batches.antt and Kept/Steps.antt about their capture modes.
-- - Evaluate.antt: `evaluateSources` of internal/alerts/evaluator.go, with Evaluate/Silence.antt;
--   Evaluate/Runs.antt: `evaluateRuns`, `evaluateStalled` and `Evaluate`, with Runs/Untouched.antt.
-- - Otlp.antt: the OpenTelemetry messages; Otlp/Decode.antt: `Decode` of internal/otlp/decoder.go, with
--   Decode/Limits.antt; Otlp/Attributes.antt, Times.antt, Spans.antt, Records.antt and Normalize.antt:
--   internal/otlp/normalize.go, with Otlp/Contract.antt, Contract/ and Identity.antt about the events.
--   Ingest/Signals.antt: internal/ingest/otlp.go, with Signals/Off.antt.
-- - Ingest/Spool.antt with Ingest/Spool/Names.antt, Buffer.antt and Reports.antt: the disk buffer of
--   internal/ingest/spool.go, a file as its list of lines; Spool/Lines.antt, Bounded.antt,
--   Shrinking.antt, History.antt, Reading.antt, Accounts.antt, Losses.antt, Emptying.antt and
--   Blocking.antt are
--   about it.
-- - Retention.antt: `Preview` and `Apply`, with Retention/Totals.antt and Active.antt about them;
--   Retention/Periods.antt: `ParseDuration`.
-- - Auth.antt: the manager's operations, with Auth/Spent.antt and Auth/Valid.antt about them.
-- - Ingest.antt with Ingest/Setup.antt and Ingest/Prepare.antt: the service; Ingest/Modes.antt,
--   Kept.antt and Counts.antt are about it.
-- - Hooks.antt: `Normalize` of internal/hooks/common.go and lifecycle.go, with Hooks/Tables.antt the
--   adapters of internal/hooks/adapters.go; Rules.antt and Sound.antt are about the events,
--   Merged.antt about their identifiers.
-- - Live.antt: the hub, with Live/Steps.antt the relation of its steps, one publication at a time, and
--   Live/Concurrent.antt that of publications at once.
-- - Examples.antt and Examples/: a sample platform and concrete runs of every part.
--
-- Numbers and fuel. Counters and sequence numbers are natural numbers: the source's int64 start at 0
-- or 1 and only rise by one per event. Times are nanoseconds since Go's zero time. Redaction recurses
-- on the structure of a value, as the source does, and the search of `uniqueMapKey` has as much fuel
-- as there are used keys and one more, since among so many candidates one is free. `ListAllEvents`
-- has one round more than the table has events, since each page but the last shows an event with a
-- number above the previous cursor and not above the next.
-- A text is a sequence of characters, and its length is that of its UTF-8 bytes: where `boundMap` cuts
-- in the middle of a character, the source keeps the bytes in front of the cut and the model drops the
-- character. A source sequence that a client sends is a natural number here, though the source takes a
-- negative one too, and an instant is not bounded, though UnixNano overflows outside 1678 to 2262.
--
-- Not modelled: the SQLite driver and its own failures, failures of the disk, the locks (one call
-- runs at a time, but for the publications of the hub, which Live/Concurrent.antt interleaves), the cascade from a run
-- to its child runs (no statement writes `parent_run_id`), the random generator (random texts are arguments), the clock (readings are
-- arguments), the text of error messages, the full-text table and SQLite's LIKE and MATCH (parameters),
-- gzip and the protobuf parsers (parameters), the configuration
-- and its files (internal/config, internal/configure), the export document (internal/export), the
-- HTTP routes (internal/server), and the command line (cmd/traceboard): they are input and output, or
-- build on the parts above.
pub mod Prelude
pub mod Event
pub mod Redact
pub mod Platform
pub mod Store
pub mod Retention
pub mod Auth
pub mod Evaluate
pub mod Ingest
pub mod Live
pub mod Otlp
pub mod Hooks
pub mod Examples
