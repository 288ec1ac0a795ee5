-- ===== src/Network/Machine/Apply.antt =====
-- internal/networkpolicy/change_machine.go: the machine that takes a network change through its
-- phases. A method of `*ChangeMachine` runs under its mutex and returns the new machine.
use control_center_developme.Prelude.{
  ℕ, ◌+◌, ◌%◌, String, Bool, true, false, not, ◌&&◌, ◌||◌, Option, none, some, List, [], ◌∷◌,
  length, ltb, ◌==◌, ◌=s◌, if◌then◌else◌, Result, ok, err, ◌>>=◌, ◌>>◌, require, reject, find, put,
}
use control_center_developme.Network.Policy.{
  NetworkError, invalid_change_plan, invalid_change_transition, change_version_conflict,
  event_idempotency_conflict, plain,
}
use control_center_developme.Network.Plan.{ConnectivityProbe, normalize_identifier}
use control_center_developme.Network.Machine.Types.{
  ChangeState, terminal_change, EventType, ChangeEvent, ChangeSnapshot, ChangeMachine,
  MachinePlatform, snapshot_pending, preflight, apply_window, probing, rollback_pending, committed,
  rolled_back, failed_closed, snapshot_captured, snapshot_failed, preflight_passed,
  preflight_failed, temporary_applied, probe_passed, probe_failed, phase_timed_out,
  rollback_succeeded, rollback_failed, unknown_event,
}

unfoldable pub contains : String → List String → Bool
contains id [] = false
contains id (j ∷ ids) = j =s id || contains id ids

-- hasProbe
unfoldable pub has_probe : String → List ConnectivityProbe → Bool
has_probe id [] = false
has_probe id (probe ∷ probes) = probe.id =s id || has_probe id probes

unfoldable pub passed_in_order : List String → List ConnectivityProbe → List String
unfolding contains
passed_in_order passed [] = []
passed_in_order passed (probe ∷ probes) =
    let rest = passed_in_order passed probes in
    if contains probe.id passed then probe.id ∷ rest else rest

-- copySnapshot
unfoldable pub copy_snapshot : ChangeMachine → ChangeSnapshot
unfolding passed_in_order
copy_snapshot m = record m.snapshot { passed_probe_ids = passed_in_order m.passed m.plan.probes }

abbrev pub is_probe_event : EventType → Bool
is_probe_event probe_passed = true
is_probe_event probe_failed = true
is_probe_event _ = false

abbrev pub is_captured : EventType → Bool
is_captured snapshot_captured = true
is_captured _ = false

abbrev pub is_failure : EventType → Bool
is_failure snapshot_failed = true
is_failure preflight_failed = true
is_failure probe_failed = true
is_failure phase_timed_out = true
is_failure rollback_failed = true
is_failure _ = false

abbrev pub is_timeout : EventType → Bool
is_timeout phase_timed_out = true
is_timeout _ = false

abbrev pub is_unknown : EventType → Bool
is_unknown (unknown_event text) = true
is_unknown _ = false

-- validateCanonicalEventIdentifier
unfoldable pub validate_canonical_event_identifier : String → Result NetworkError (Unit {0})
validate_canonical_event_identifier value = do
  normalized ← normalize_identifier value
  require (normalized =s value) invalid_change_plan

-- `if value != "" { validate(value) }`
abbrev pub canonical_if_given : String → Result NetworkError (Unit {0})
canonical_if_given value = if value =s "" then ok tt else validate_canonical_event_identifier value

-- validateAndDigestEvent, before the digest
unfoldable pub validate_event : ChangeEvent → Result NetworkError (Unit {0})
validate_event event = do
  validate_canonical_event_identifier event.id
  reject (event.at == 0) (plain "network change event time is required")
  canonical_if_given event.reason_code
  canonical_if_given event.probe_id
  require
      ((is_probe_event event.type && not (event.probe_id =s ""))
        || (not (is_probe_event event.type) && event.probe_id =s ""))
      (plain "probe events require probe_id and other events forbid it")
  if is_captured event.type
      then validate_canonical_event_identifier event.snapshot_id
      else require (event.snapshot_id =s "")
          (plain "only snapshot_captured events may contain snapshot_id")
  reject (not (event.reason_code =s "") && not (is_failure event.type))
      (plain "successful network change events must not contain reason_code")
  reject (is_unknown event.type) (plain "unknown network change event")

-- eventDetail
abbrev pub event_detail : ChangeEvent → String → String
event_detail event fallback = if event.reason_code =s "" then fallback else event.reason_code

-- enter
unfoldable pub enter : ChangeState → ℕ → ℕ → String → ChangeMachine → ChangeMachine
enter state at timeout reason m = record m {
  snapshot = record m.snapshot {
    state = state;
    reason_code = reason;
    deadline = if timeout == 0 then 0 else at + timeout;
  };
}

abbrev pub invalid_event : Result NetworkError ChangeMachine
invalid_event = err invalid_change_transition

-- A probe has passed: the last one commits the change.
unfoldable pub pass_probe : ChangeEvent → ChangeMachine → Result NetworkError ChangeMachine
unfolding enter has_probe contains
pass_probe event m = do
  require (has_probe event.probe_id m.plan.probes) invalid_change_transition
  reject (contains event.probe_id m.passed) invalid_change_transition
  let m' : ChangeMachine = record m { passed = event.probe_id ∷ m.passed }
  ok (if length m'.passed == length m.plan.probes then enter committed event.at 0 "" m' else m')

-- A probe has failed, or the probing phase has timed out.
unfoldable pub fail_probing : ChangeEvent → ChangeMachine → ChangeMachine
unfolding enter
fail_probing event m =
    enter rollback_pending event.at m.plan.timeouts.rollback
      (event_detail event "connectivity_validation_failed") m

-- The temporary change is applied: the probes end with the apply window at the latest.
unfoldable pub start_probing : ChangeEvent → ChangeMachine → ChangeMachine
start_probing event m =
    let deadline : ℕ = event.at + m.plan.timeouts.probe in
    record m {
      snapshot = record m.snapshot {
        state = probing;
        deadline = if ltb m.snapshot.deadline deadline then m.snapshot.deadline else deadline;
        reason_code = "";
      };
    }

-- transition, by the state and the type of the event
unfoldable pub dispatch :
    ChangeState → EventType → ChangeEvent → ChangeMachine → Result NetworkError ChangeMachine
unfolding enter pass_probe fail_probing start_probing
dispatch snapshot_pending snapshot_captured event m = ok (
    enter preflight event.at m.plan.timeouts.preflight ""
      (record m { snapshot = record m.snapshot { snapshot_id = event.snapshot_id } }))
dispatch snapshot_pending snapshot_failed event m =
    ok (enter failed_closed event.at 0 (event_detail event "snapshot_not_available") m)
dispatch snapshot_pending phase_timed_out event m =
    ok (enter failed_closed event.at 0 (event_detail event "snapshot_not_available") m)
dispatch preflight preflight_passed event m =
    ok (enter apply_window event.at m.plan.timeouts.apply_window "" m)
dispatch preflight preflight_failed event m =
    ok (enter failed_closed event.at 0 (event_detail event "preflight_not_safe") m)
dispatch preflight phase_timed_out event m =
    ok (enter failed_closed event.at 0 (event_detail event "preflight_not_safe") m)
dispatch apply_window temporary_applied event m = ok (start_probing event m)
dispatch apply_window phase_timed_out event m = ok (
    enter rollback_pending event.at m.plan.timeouts.rollback
      (event_detail event "apply_window_timeout") m)
dispatch probing probe_passed event m = pass_probe event m
dispatch probing probe_failed event m =
    if has_probe event.probe_id m.plan.probes then ok (fail_probing event m) else invalid_event
dispatch probing phase_timed_out event m = ok (fail_probing event m)
dispatch rollback_pending rollback_succeeded event m =
    ok (enter rolled_back event.at 0 m.snapshot.reason_code m)
dispatch rollback_pending rollback_failed event m =
    ok (enter failed_closed event.at 0 (event_detail event "rollback_not_confirmed") m)
dispatch rollback_pending phase_timed_out event m =
    ok (enter failed_closed event.at 0 (event_detail event "rollback_not_confirmed") m)
dispatch _ _ event m = invalid_event

unfoldable pub transition : ChangeEvent → ChangeMachine → Result NetworkError ChangeMachine
unfolding dispatch
transition event m = dispatch m.snapshot.state event.type event m

-- The guards of Apply on a new event.
unfoldable pub check_event : ChangeEvent → ℕ → ChangeMachine → Result NetworkError (Unit {0})
unfolding terminal_change
check_event event expected_version m = do
  require (m.snapshot.version == expected_version) change_version_conflict
  reject (terminal_change m.snapshot.state) invalid_change_transition
  reject (ltb event.at m.snapshot.updated_at) invalid_change_transition
  reject (is_timeout event.type && ltb event.at m.snapshot.deadline) invalid_change_transition
  reject (not (is_timeout event.type) && ltb m.snapshot.deadline event.at) invalid_change_transition

module _ (platform : MachinePlatform) where
  open platform use {event_digest}

  -- The event is recorded and the version grows.
  abbrev pub record_event : ChangeEvent → ChangeMachine → ChangeMachine
  record_event event m = record m {
    processed_events = put event.id (event_digest event) m.processed_events;
    snapshot = record m.snapshot {
      version = (m.snapshot.version + 1) % 18446744073709551616;
      updated_at = event.at;
    };
  }

  -- A new event.
  unfoldable pub apply_new : ChangeEvent → ℕ → ChangeMachine → Result NetworkError ChangeMachine
  unfolding check_event transition
  apply_new event expected_version m = do
    check_event event expected_version m
    next ← transition event m
    ok (record_event event next)

  -- `previous, exists := machine.processedEvents[event.ID]`
  unfoldable pub apply_seen :
      ChangeEvent → ℕ → ChangeMachine → Option String → Result NetworkError ChangeMachine
  unfolding apply_new
  apply_seen event expected_version m (some previous) =
      if previous =s event_digest event then ok m else err event_idempotency_conflict
  apply_seen event expected_version m none = apply_new event expected_version m

  -- What Apply makes of the machine, if it does not fail.
  unfoldable pub applied : ChangeEvent → ℕ → ChangeMachine → Result NetworkError ChangeMachine
  unfolding apply_seen
  applied event expected_version m = do
    validate_event event
    apply_seen event expected_version m (find event.id m.processed_events)

abbrev pub or_stay : ChangeMachine → Result NetworkError ChangeMachine → ChangeMachine
or_stay m (ok next) = next
or_stay m (err e) = m

abbrev pub error_of {ℓ} : {A : Type ℓ} → Result NetworkError A → Option NetworkError
error_of (ok a) = none
error_of (err e) = some e

-- Apply: the machine, the snapshot that is returned with or without an error, and the error.
unfoldable pub apply_event :
    MachinePlatform
    → ChangeEvent
    → ℕ
    → ChangeMachine
    → ChangeMachine × ChangeSnapshot × Option NetworkError
unfolding applied copy_snapshot
apply_event platform event expected_version m =
    let result : Result NetworkError ChangeMachine = applied platform event expected_version m in
    (or_stay m result, copy_snapshot (or_stay m result), error_of result)
