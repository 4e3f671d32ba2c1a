-- ===== src/Store/Summary.antt =====
-- The row updates of `updateRun`, `updateStep` and `mergeCaptureModes` in
-- internal/store/events.go: how one stored event changes the summary of its run and its step.
use traceboard.Prelude.{
  ◌+◌, String, Bool, true, Option, none, some, List, [], ◌∷◌, ◌++◌, ◌==◌, ◌&&◌, ◌||◌, not, ltb,
  is_none, if◌then◌else◌,
}
use traceboard.Event.{Value, text, Instant}
use traceboard.Event.Mode.{metadata, detailed}
use traceboard.Event.Status.{started, completed, failed, cancelled, incomplete}
use traceboard.Event.EventType.{
  run_started, run_completed, run_failed, run_cancelled, run_incomplete, error_recorded,
}
use traceboard.Event.Maps
use traceboard.Event.Maps.{or_empty}
use traceboard.Store.{RunRow, StepRow, StoredEvent}

-- CASE WHEN x IS NULL OR t < x THEN t ELSE x END
unfoldable pub earliest : Option Instant → Instant → Option Instant
earliest none t = some t
earliest (some x) t = if ltb t x then some t else some x

-- CASE WHEN x IS NULL OR t > x THEN t ELSE x END
unfoldable pub latest : Option Instant → Instant → Option Instant
latest none t = some t
latest (some x) t = if ltb x t then some t else some x

-- x IS NULL OR t < x
unfoldable pub is_before : Instant → Option Instant → Bool
is_before t none = true
is_before t (some x) = ltb t x

-- runTerminalStatus, with `none` for a type that ends no run.
unfoldable pub run_terminal_status : String → Option String
run_terminal_status type =
    if type == run_completed
    then some completed
    else if type == run_failed
    then some failed
    else if type == run_cancelled
    then some cancelled
    else if type == run_incomplete
    then some incomplete
    else none

unfoldable pub terminal_status : String → Bool
terminal_status status =
    status == completed || (status == failed || (status == cancelled || status == incomplete))

mode_of : Option Value → String
mode_of (some (text mode)) = mode
mode_of _ = metadata

-- captureModeOf
unfoldable pub capture_mode_of : StoredEvent → String
unfolding mode_of Maps.lookup
capture_mode_of stored = mode_of (Maps.lookup "mode" (or_empty stored.capture))

-- The loop of `mergeCaptureModes` over the modes that are left.
merge_loop : String → List String → List String → List String → List String
merge_loop mode modes filtered [] = filtered ++ (mode ∷ [])
merge_loop mode modes filtered (existing ∷ rest) =
    let skip = merge_loop mode modes filtered rest in
    let keep = merge_loop mode modes (filtered ++ (existing ∷ [])) rest in
    if mode == detailed && not (existing == detailed)
    then skip
    else if existing == mode
    then modes
    else keep

unfoldable pub merge_capture_modes : String → List String → List String
unfolding merge_loop
merge_capture_modes mode modes = merge_loop mode modes [] modes

-- nullableString
unfoldable pub nullable : String → Option String
nullable s = if s == "" then none else some s

module _ (stored : StoredEvent) where
  -- The CASE for `status`.
  unfoldable pub next_status : RunRow → Option String → String
  unfolding is_before
  next_status run terminal =
      if stored.type == run_started && is_none run.ended_at then stored.status else elim terminal [
        | some status ↦ if is_before stored.occurred_at run.ended_at then status else run.status
        | none ↦ run.status
      ]

  -- The UPDATE of `updateRun`, on the row of the event's run.
  unfoldable pub apply_to_run : RunRow → RunRow
  apply_to_run run = record run {
    capture_modes = merge_capture_modes (capture_mode_of stored) run.capture_modes;
    status = next_status run (run_terminal_status stored.type);
    started_at =
        if stored.type == run_started
        then earliest run.started_at stored.occurred_at
        else run.started_at;
    ended_at =
        if is_none (run_terminal_status stored.type)
        then run.ended_at
        else earliest run.ended_at stored.occurred_at;
    last_event_at = latest run.last_event_at stored.occurred_at;
    event_count = run.event_count + 1;
    error_count = run.error_count + (if stored.type == error_recorded then 1 else 0);
    updated_at = stored.received_at;
  }

  -- The UPDATE of `updateStep`, on the row of the event's step.
  unfoldable pub apply_to_step : StepRow → StepRow
  apply_to_step step = record step {
    parent_step_id =
        if stored.parent_step_id == "" then step.parent_step_id else some stored.parent_step_id;
    type = stored.type;
    status = stored.status;
    started_at =
        if stored.status == started
        then earliest step.started_at stored.occurred_at
        else step.started_at;
    ended_at =
        if terminal_status stored.status
        then earliest step.ended_at stored.occurred_at
        else step.ended_at;
    updated_at = stored.received_at;
  }
