-- ===== src/Hooks/Tables.antt =====
-- The tables of internal/hooks: the canonical lifecycle names (internal/hooks/lifecycle.go) and the
-- adapters of the agents (internal/hooks/adapters.go).
use traceboard.Prelude.{String, Bool, true, false, List, [], ◌∷◌}

-- lifecycleRule
pub record Rule : Type 0 where
  pub event_type : String
  pub status : String
  pub step_bound : Bool

abbrev lifecycle_rule : String → String → Bool → Rule
lifecycle_rule type status step_bound = record {
  event_type = type;
  status = status;
  step_bound = step_bound;
}

-- canonicalLifecycle
abbrev pub canonical_lifecycle : List (String × Rule)
canonical_lifecycle =
    ("session.start", lifecycle_rule "run.started" "started" false)
    ∷ ("session.end", lifecycle_rule "run.completed" "completed" false)
    ∷ ("session.error", lifecycle_rule "run.failed" "failed" false)
    ∷ ("session.idle", lifecycle_rule "run.incomplete" "incomplete" false)
    ∷ ("prompt.submit", lifecycle_rule "prompt.received" "completed" false)
    ∷ ("message.received", lifecycle_rule "prompt.received" "completed" false)
    ∷ ("model.request", lifecycle_rule "model.requested" "started" true)
    ∷ ("model.finish", lifecycle_rule "model.completed" "completed" true)
    ∷ ("tool.execute.before", lifecycle_rule "tool.started" "started" true)
    ∷ ("tool.execute.after", lifecycle_rule "tool.completed" "completed" true)
    ∷ ("tool.execute.error", lifecycle_rule "tool.failed" "failed" true)
    ∷ ("file.write", lifecycle_rule "file.changed" "completed" false)
    ∷ ("file.edit", lifecycle_rule "file.changed" "completed" false)
    ∷ ("file.remove", lifecycle_rule "file.changed" "completed" false)
    ∷ ("command.start", lifecycle_rule "command.started" "started" true)
    ∷ ("command.finish", lifecycle_rule "command.completed" "completed" true)
    ∷ ("permission.ask", lifecycle_rule "permission.requested" "started" true)
    ∷ ("permission.answer", lifecycle_rule "permission.resolved" "completed" true)
    ∷ ("context.compact", lifecycle_rule "context.compacted" "completed" false)
    ∷ ("subagent.start", lifecycle_rule "subagent.started" "started" true)
    ∷ ("subagent.end", lifecycle_rule "subagent.completed" "completed" true)
    ∷ ("source.heartbeat", lifecycle_rule "source.connected" "unknown" false)
    ∷ ("source.connect", lifecycle_rule "source.connected" "unknown" false)
    ∷ ("source.disconnect", lifecycle_rule "source.disconnected" "unknown" false)
    ∷ []

-- baseAdapter
pub record Adapter : Type 0 where
  pub source : String
  pub supported_since : String
  pub aliases : List (String × String)
  pub raw_paths : List String

abbrev pub opencode_adapter : Adapter
opencode_adapter = record {
  source = "opencode";
  supported_since = "0.4.0";
  aliases =
      ("session.created", "session.start")
      ∷ ("session.updated", "session.idle")
      ∷ ("session.completed", "session.end")
      ∷ ("session.error", "session.error")
      ∷ ("message.updated", "message.received")
      ∷ ("message.part.updated", "model.finish")
      ∷ ("tool.execute.before", "tool.execute.before")
      ∷ ("tool.execute.after", "tool.execute.after")
      ∷ ("file.changed", "file.write")
      ∷ ("permission.asked", "permission.ask")
      ∷ ("permission.replied", "permission.answer")
      ∷ ("session.compacted", "context.compact")
      ∷ ("error", "session.error")
      ∷ ("idle", "session.idle")
      ∷ [];
  raw_paths = "sessionID" ∷ "messageID" ∷ "partID" ∷ "tool" ∷ "path" ∷ "callID" ∷ [];
}

abbrev pub claude_code_adapter : Adapter
claude_code_adapter = record {
  source = "claude-code";
  supported_since = "1.0.0";
  aliases =
      ("SessionStart", "session.start")
      ∷ ("SessionEnd", "session.end")
      ∷ ("UserPromptSubmit", "prompt.submit")
      ∷ ("PreToolUse", "tool.execute.before")
      ∷ ("PostToolUse", "tool.execute.after")
      ∷ ("PostToolUseFailure", "tool.execute.error")
      ∷ ("Notification", "message.received")
      ∷ ("Stop", "session.end")
      ∷ ("SubagentStart", "subagent.start")
      ∷ ("SubagentStop", "subagent.end")
      ∷ ("PreCompact", "context.compact")
      ∷ ("PermissionRequest", "permission.ask")
      ∷ ("SessionStartResumed", "session.start")
      ∷ [];
  raw_paths = "session_id" ∷ "tool_name" ∷ "tool_input" ∷ "transcript_path" ∷ [];
}

abbrev pub codex_adapter : Adapter
codex_adapter = record {
  source = "codex";
  supported_since = "0.20.0";
  aliases =
      ("session.start", "session.start")
      ∷ ("session.end", "session.end")
      ∷ ("turn.start", "prompt.submit")
      ∷ ("turn.end", "session.end")
      ∷ ("tool.start", "tool.execute.before")
      ∷ ("tool.end", "tool.execute.after")
      ∷ ("tool.failed", "tool.execute.error")
      ∷ ("command.start", "command.start")
      ∷ ("command.finish", "command.finish")
      ∷ ("command.failed", "command.failed")
      ∷ ("permission.ask", "permission.ask")
      ∷ ("permission.reply", "permission.answer")
      ∷ ("compaction", "context.compact")
      ∷ ("subagent.start", "subagent.start")
      ∷ ("subagent.end", "subagent.end")
      ∷ ("error", "session.error")
      ∷ ("stop", "session.end")
      ∷ [];
  raw_paths = "session_id" ∷ "turn_id" ∷ "call_id" ∷ "command" ∷ "exit_code" ∷ [];
}

abbrev pub antigravity_adapter : Adapter
antigravity_adapter = record {
  source = "antigravity";
  supported_since = "1.0.0";
  aliases =
      ("conversation.start", "session.start")
      ∷ ("conversation.end", "session.end")
      ∷ ("execution.start", "session.start")
      ∷ ("execution.end", "session.end")
      ∷ ("execution.error", "session.error")
      ∷ ("tool.start", "tool.execute.before")
      ∷ ("tool.end", "tool.execute.after")
      ∷ ("tool.failed", "tool.execute.error")
      ∷ ("model.request", "model.request")
      ∷ ("model.response", "model.finish")
      ∷ ("permission.request", "permission.ask")
      ∷ ("permission.resolved", "permission.answer")
      ∷ ("context.compacted", "context.compact")
      ∷ ("subagent.start", "subagent.start")
      ∷ ("subagent.end", "subagent.end")
      ∷ ("stop.reason", "session.end")
      ∷ [];
  raw_paths = "conversation_id" ∷ "execution_id" ∷ "tool_name" ∷ "stop_reason" ∷ [];
}

abbrev pub gemini_cli_adapter : Adapter
gemini_cli_adapter = record {
  source = "gemini-cli";
  supported_since = "0.1.0";
  aliases =
      ("turn.start", "prompt.submit")
      ∷ ("turn.end", "session.end")
      ∷ ("turn.error", "session.error")
      ∷ ("tool.call", "tool.execute.before")
      ∷ ("tool.result", "tool.execute.after")
      ∷ ("model.request", "model.request")
      ∷ ("model.response", "model.finish")
      ∷ ("session.start", "session.start")
      ∷ ("session.end", "session.end")
      ∷ ("context.compact", "context.compact")
      ∷ [];
  raw_paths = "session_id" ∷ "turn_id" ∷ "tool_name" ∷ "model" ∷ [];
}

-- registry
abbrev pub registry : List Adapter
registry =
    opencode_adapter ∷ claude_code_adapter ∷ codex_adapter ∷ antigravity_adapter
    ∷ gemini_cli_adapter ∷ []
