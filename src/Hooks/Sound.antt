-- ===== src/Hooks/Sound.antt =====
-- The events that internal/hooks makes, against internal/event/validate.go.
use Prim.Native.String.{len, ◌++◌ as concat}
use traceboard.Prelude.{
  ◌≤◌, String, true, false, Option, none, some, List, [], ◌∷◌, ◌≡◌, refl, sym, ap, subst, ◌==◌,
  ◌||◌, arith, eq_iff, eqb, Bool-cases, inl, inr, if◌then◌else◌,
}
use traceboard.Event.{Value, text, Fields, end, field, Event, Instant}
use traceboard.Event.EventType.{is_known_type, contains_text}
use traceboard.Event.Status.{started, completed, unknown}
use traceboard.Event.Maps
use traceboard.Event.Validate.{validate, valid_status, capture_mode, is_capture_mode}
use traceboard.Hooks.Tables.{Adapter, registry}
use traceboard.Hooks.Rules.{
  or_unknown, HasStatus, lifecycle-HasStatus, chosen-HasStatus, adapter_for-source, registry_named,
}
use traceboard.Hooks.{
  HookInput, Mapping, HookTools, hook_attributes, build, resolve, rule_of, hook_event, normalize_by,
  adapter_for, normalize_hook, command_failure,
}
use traceboard.Otlp.Contract.{NotEmpty, IsTime, IsSound}

known-NotEmpty : (type : String) → is_known_type type ≡ true → NotEmpty type
unfolding is_known_type contains_text
known-NotEmpty type h = elim (Bool-cases (type == "")) [
  | inl e ↦
      let blank : type ≡ "" = ground (arith, e, eq_iff type "") in
      absurd (ground (arith, subst (λ t. is_known_type t ≡ true) blank h))
  | inr e ↦ e
]

extension-valid :
    (status : String)
    → valid_status status ≡ true
    → valid_status (if status == started || status == completed then status else unknown) ≡ true
unfolding valid_status
extension-valid status h = elim (Bool-cases (status == started || status == completed)) [
  | inl e ↦ rw e h
  | inr e ↦ rw e refl
]

named : (run other : String) → NotEmpty run → NotEmpty (if run == "" then other else run)
named run other r = rw r r

-- One event, which is of the source and sound.
abbrev OneSound : (Value → Option String) → String → List Event → Type 0
OneSound marshal source [] = ⊥
OneSound marshal source (e ∷ []) = (e.source ≡ source) × IsSound marshal e
OneSound marshal source (e ∷ f ∷ rest) = ⊥

-- The mapping of a hook: one event, of the hook's source, that is sound.
abbrev pub IsSoundMapping : (Value → Option String) → String → Option Mapping → Type 0
IsSoundMapping marshal source none = ⊥
IsSoundMapping marshal source (some mapping) =
    (mapping.source ≡ source) × OneSound marshal source mapping.events

module _ (tools : HookTools) (now : Instant) (input : HookInput) (encoded : String)
    (raw_marshals : tools.marshal input.raw ≡ some encoded) (short : len encoded ≤ 1048576)
    (time : IsTime now) where
  rule_of-valid : (canonical : String) → HasStatus (rule_of tools canonical)
  unfolding rule_of valid_status
  rule_of-valid canonical =
      chosen-HasStatus (canonical == command_failure) _ _ refl
        (lifecycle-HasStatus canonical _ refl)

  hook-IsSound :
      (e : Event)
      → e.schema_version ≡ 1
      → NotEmpty e.source
      → NotEmpty e.run_id
      → IsTime e.occurred_at
      → is_known_type e.type ≡ true
      → valid_status e.status ≡ true
      → e.capture ≡ some (field "mode" (text "metadata") end)
      → e.raw ≡ input.raw
      → IsSound tools.marshal e
  unfolding validate capture_mode is_capture_mode Maps.lookup
  hook-IsSound e v s r t k st c n = (
    ground (
      arith,
      v,
      s,
      r,
      t,
      known-NotEmpty e.type k,
      st,
      c,
      ap tools.marshal n,
      raw_marshals,
      short,
      ap capture_mode c,
    ),
    k,
  )

  build-IsSound :
      (type status step : String) (attributes : Fields)
      → NotEmpty input.source
      → NotEmpty input.run_id
      → valid_status (or_unknown status) ≡ true
      → IsSound tools.marshal (build tools now input type status step attributes)
  unfolding build is_known_type contains_text valid_status
  build-IsSound type status step attributes s r st =
      let occurred : IsTime (if eqb input.occurred_at 0 then now else input.occurred_at) =
        ground (arith, time) in
      let run : NotEmpty
          (if input.run_id == "" then concat input.source ":unattributed" else input.run_id) =
        named input.run_id _ r in
      elim (Bool-cases (is_known_type type)) [
        | inl known ↦ rw known (hook-IsSound _ refl s run occurred known st refl refl)
        | inr other ↦ rw other (
            hook-IsSound _ refl s run occurred refl (extension-valid (or_unknown status) st) refl
              refl)
      ]

  hook_event-IsSound :
      (adapter : Adapter) (canonical : Option String)
      → NotEmpty input.source
      → NotEmpty input.run_id
      → IsSound tools.marshal (hook_event tools now adapter input canonical).0
  unfolding hook_event valid_status
  hook_event-IsSound adapter none s r =
      build-IsSound input.event_name unknown input.step_id (hook_attributes adapter input) s r refl
  hook_event-IsSound adapter (some canonical) s r =
      build-IsSound (rule_of tools canonical).event_type (rule_of tools canonical).status
        (if (rule_of tools canonical).step_bound then input.step_id else "")
        (hook_attributes adapter input) s r (rule_of-valid canonical)

  build-source :
      (type status step : String) (attributes : Fields)
      → (build tools now input type status step attributes).source ≡ input.source
  unfolding build
  build-source type status step attributes = elim (Bool-cases (is_known_type type)) [
    | inl known ↦ rw known refl
    | inr other ↦ rw other refl
  ]

  hook_event-source :
      (adapter : Adapter) (canonical : Option String)
      → (hook_event tools now adapter input canonical).0.source ≡ input.source
  unfolding hook_event
  hook_event-source adapter none =
      build-source input.event_name unknown input.step_id (hook_attributes adapter input)
  hook_event-source adapter (some canonical) =
      build-source (rule_of tools canonical).event_type (rule_of tools canonical).status
        (if (rule_of tools canonical).step_bound then input.step_id else "")
        (hook_attributes adapter input)

  run_id-NotEmpty :
      tools.trim_space "" ≡ ""
      → (tools.trim_space input.run_id == "") ≡ false
      → NotEmpty input.run_id
  run_id-NotEmpty blank h = elim (Bool-cases (input.run_id == "")) [
    | inl e ↦
        let same : input.run_id ≡ "" = ground (arith, e, eq_iff input.run_id "") in
        absurd (ground (arith, subst (λ r. (tools.trim_space r == "") ≡ false) same h, blank))
    | inr e ↦ e
  ]

  normalize_by-IsSound :
      (adapter : Adapter)
      → adapter.source ≡ input.source
      → NotEmpty input.source
      → tools.trim_space "" ≡ ""
      → (tools.trim_space input.event_name == "") ≡ false
      → (tools.trim_space input.run_id == "") ≡ false
      → IsSoundMapping tools.marshal input.source (normalize_by tools now adapter input)
  unfolding normalize_by
  normalize_by-IsSound adapter same s blank name run = rw name (
      rw run (
        same,
        (
          hook_event-source adapter (resolve tools adapter input.event_name),
          hook_event-IsSound adapter (resolve tools adapter input.event_name) s
              (run_id-NotEmpty blank run),
        ),
      ))

  -- A hook for the source of an adapter, with a name and a run that are not blank, becomes one event of
  -- that source which `validate` accepts and whose type is a known one, whether or not its name has a
  -- mapping. This asks that the raw payload marshals to at most 2^20 bytes, that the clock is not at the
  -- zero instant, and that trimming the empty text gives it back.
  pub normalize_hook-IsSound :
      (adapter : Adapter)
      → adapter_for input.source registry ≡ some adapter
      → tools.trim_space "" ≡ ""
      → (tools.trim_space input.event_name == "") ≡ false
      → (tools.trim_space input.run_id == "") ≡ false
      → IsSoundMapping tools.marshal input.source (normalize_hook tools now input)
  unfolding normalize_hook
  normalize_hook-IsSound adapter found blank name run =
      let (same, s) = adapter_for-source registry registry_named adapter found in
      subst
        (λ o.
          IsSoundMapping tools.marshal input.source
            (elim o [ none ↦ none | some a ↦ normalize_by tools now a input ]))
        (sym found) (normalize_by-IsSound adapter same s blank name run)
