-- ===== src/Examples/HookRuns.antt =====
-- Runs of the hook adapters: a file tool's hook of OpenCode, and a hook whose name has no mapping.
use traceboard.Prelude.{String, none, some, ◌≡◌, refl, arith}
use traceboard.Event.{text, obj, end, field}
use traceboard.Hooks.{HookInput, HookTools, adapter_for, find_entry, rule_of, normalize_hook}
use traceboard.Hooks.Tables.{opencode_adapter, registry}
use traceboard.Hooks.Sound.{IsSoundMapping, normalize_hook-IsSound}
use traceboard.Hooks.Merged.{renamed, id_made, same_rule_merged}

abbrev tools : HookTools
tools = record {
  trim_space = λ s. s;
  marshal = λ v. some "{}";
  digest = λ s. s;
  rfc3339_nano = λ at. "2026-01-01T00:00:00Z";
  decimal = λ n. "1";
}

abbrev hook : String → HookInput
hook name = record {
  source = "opencode";
  source_version = "0.4.1";
  event_name = name;
  run_id = "run-1";
  step_id = "step-1";
  parent_step_id = "";
  source_sequence = none;
  occurred_at = 0;
  status = "";
  attributes = none;
  content = none;
  raw = obj (field "path" (text "main.go") end);
}

found : adapter_for "opencode" registry ≡ some opencode_adapter
unfolding adapter_for
found = refl

normalize_hook-IsSound_example :
    IsSoundMapping tools.marshal "opencode" (normalize_hook tools 100 (hook "todo.updated"))
normalize_hook-IsSound_example =
    normalize_hook-IsSound tools 100 (hook "todo.updated") "{}" refl (omega arith) refl
      opencode_adapter found refl refl refl

write_and_edit : rule_of tools "file.write" ≡ rule_of tools "file.edit"
unfolding rule_of find_entry
write_and_edit = refl

write_and_edit_merged :
    id_made tools 100 opencode_adapter (hook "file.write") "file.write"
    ≡ id_made tools 100 opencode_adapter
        (renamed "file.edit" none none (hook "file.write"))
        "file.edit"
write_and_edit_merged =
    same_rule_merged tools 100 (hook "file.write") opencode_adapter "file.write" "file.edit"
      "file.edit" none none write_and_edit
