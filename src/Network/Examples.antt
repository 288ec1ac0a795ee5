-- ===== src/Network/Examples.antt =====
-- The network change machine on a concrete plan: one interface, one probe.
use control_center_developme.Contracts.Identifiers.{is_word, matches_identifier}
use control_center_developme.Prelude.{
  arith, ◌≡◌, ◌⊎◌, refl, String, true, false, none, some, List, [], ◌∷◌, put, ok, find, any, All, ℕ,
  ◌+◌, ◌<◌, length,
}
use control_center_developme.Network.Policy.{authorize_forwarding, valid_zone}
use control_center_developme.Network.Plan.{
  build_change_plan, canonical_forwarding, canonical_intent, canonical_interfaces, canonical_probes,
  ChangePlan, ChangePlanRequest, ConnectivityProbe, covered, forwarding_loop, interfaces_loop,
  is_management_probe, normalize_identifier, PlanPlatform, plan_steps, probes_loop,
  valid_probe_kind, validate_probe_coverage, validate_timeouts, zone_declared,
}
use control_center_developme.Network.Machine.{
  apply_event, applied, apply_new, apply_seen, ChangeEvent, ChangeMachine, check_event, committed,
  contains, dispatch, snapshot_pending, preflight, apply_window, probing, rollback_pending,
  failed_closed, enter, fail_probing, has_probe, initial_machine, MachinePlatform,
  new_change_machine, pass_probe, phase_timed_out, probe_failed, rollback_succeeded,
  preflight_passed, probe_passed, snapshot_captured, start_probing, temporary_applied,
  terminal_change, transition, validate_canonical_event_identifier, validate_event,
}
use control_center_developme.Network.Planning.{IsReady, build_change_plan-IsReady}
use control_center_developme.Network.Invariant.{IsSafe}
use control_center_developme.Network.Runs.{run_events, run-IsSafe}
use control_center_developme.Network.Ranking.{count_moves, count_moves-bound}
use control_center_developme.Network.Outcomes.{committed_passed_all}
use control_center_developme.Network.Steps.{Accepts, apply_event-cases, apply_event-timeout}
use control_center_developme.Prelude.Sort.{insert_sorted, sort}
use control_center_developme.Prelude.Text.{trim_space}
use control_center_developme.Network.Policy.{NetworkError}

abbrev plan_platform : PlanPlatform
plan_platform = record { to_upper = λ text. text; plan_digest = λ plan. "plan-1" }

abbrev request_1 : ChangePlanRequest
request_1 = record {
  node_id = "node-1";
  revision_id = "revision-1";
  interfaces = record { interface_id = "eth0"; zone = "MANAGEMENT"; changed = true } ∷ [];
  forwarding =
      record {
        source = "MANAGEMENT";
        destination = "MANAGEMENT";
        explicitly_enabled = false;
        edge_gateway_assigned = false;
      }
      ∷ [];
  probes =
      record { id = "probe-1"; kind = "control_plane"; interface_id = "eth0"; zone = "MANAGEMENT" }
      ∷ [];
  timeouts = record { snapshot = 10; preflight = 10; apply_window = 10; probe = 5; rollback = 10 };
}

abbrev plan_1 : ChangePlan
plan_1 = record {
  schema_version = "network.change.plan/v1";
  plan_id = "plan-1";
  node_id = "node-1";
  revision_id = "revision-1";
  interfaces = request_1.interfaces;
  forwarding = request_1.forwarding;
  forwarding_default_deny = true;
  probes = request_1.probes;
  timeouts = request_1.timeouts;
  steps = plan_steps;
}

abbrev platform_1 : MachinePlatform
platform_1 = record {
  plans = plan_platform;
  same_plan = λ a b. true;
  event_digest = λ event. event.reason_code;
}

plan_built : build_change_plan plan_platform request_1 ≡ ok plan_1
unfolding build_change_plan normalize_identifier validate_timeouts canonical_interfaces
    interfaces_loop canonical_forwarding forwarding_loop canonical_probes probes_loop
    validate_probe_coverage authorize_forwarding valid_zone valid_probe_kind zone_declared covered
    is_management_probe any sort insert_sorted find matches_identifier trim_space is_word put
plan_built = refl

abbrev machine_1 : ChangeMachine
machine_1 = initial_machine plan_1 1

machine_started : new_change_machine platform_1 plan_1 1 ≡ ok machine_1
unfolding new_change_machine build_change_plan normalize_identifier validate_timeouts
    canonical_interfaces interfaces_loop canonical_forwarding forwarding_loop canonical_probes
    probes_loop validate_probe_coverage authorize_forwarding valid_zone valid_probe_kind
    zone_declared covered is_management_probe any sort insert_sorted find matches_identifier
    trim_space is_word put
machine_started = refl

abbrev captured : ChangeEvent
captured = record {
  id = "event-1";
  type = snapshot_captured;
  snapshot_id = "snapshot-1";
  probe_id = "";
  reason_code = "";
  at = 2;
}

abbrev plain_event : String → ChangeEvent
plain_event id = record captured { id = id; type = preflight_passed; snapshot_id = "" }

-- The change is applied, and its probe passes.
abbrev events_1 : List (ChangeEvent × ℕ)
events_1 =
    (captured, 1)
    ∷ (plain_event "event-2", 2)
    ∷ (record (plain_event "event-3") { type = temporary_applied }, 3)
    ∷ (record (plain_event "event-4") { type = probe_passed; probe_id = "probe-1" }, 4)
    ∷ []

change_committed : (run_events platform_1 events_1 machine_1).snapshot.state ≡ committed
unfolding run_events apply_event applied apply_seen apply_new check_event transition dispatch enter
    pass_probe start_probing has_probe contains validate_event validate_canonical_event_identifier
    normalize_identifier matches_identifier find terminal_change trim_space is_word put
change_committed = refl

build_change_plan-IsReady_example : IsReady (canonical_intent plan_platform) request_1 plan_1
build_change_plan-IsReady_example =
    build_change_plan-IsReady plan_platform request_1 plan_1 plan_built

run-IsSafe_example :
    IsSafe (run_events platform_1 events_1 machine_1)
    × ((run_events platform_1 events_1 machine_1).plan ≡ plan_1)
run-IsSafe_example = run-IsSafe platform_1 plan_1 1 machine_1 events_1 machine_started

committed_passed_all_example :
    All
      (λ (p : ConnectivityProbe).
        contains p.id (run_events platform_1 events_1 machine_1).passed ≡ true)
      plan_1.probes
committed_passed_all_example =
    committed_passed_all platform_1 plan_1 1 machine_1 events_1 machine_started change_committed

apply_event-cases_example :
    ((e : NetworkError) × ((apply_event platform_1 captured 1 machine_1).2 ≡ some e)
      × ((apply_event platform_1 captured 1 machine_1).0 ≡ machine_1))
    ⊎ (((apply_event platform_1 captured 1 machine_1).2 ≡ none)
        × Accepts platform_1 captured 1 machine_1 (apply_event platform_1 captured 1 machine_1).0)
apply_event-cases_example = apply_event-cases platform_1 captured 1 machine_1

-- A timeout at the deadline.
abbrev overdue_event : ChangeEvent
overdue_event = record (plain_event "event-9") { type = phase_timed_out; at = 11 }

overdue_valid : validate_event overdue_event ≡ ok tt
unfolding validate_event validate_canonical_event_identifier normalize_identifier matches_identifier
    trim_space is_word
overdue_valid = refl

overdue_new : find "event-9" machine_1.processed_events ≡ none
unfolding find
overdue_new = refl

still_open : terminal_change machine_1.snapshot.state ≡ false
unfolding terminal_change
still_open = refl

apply_event-timeout_example :
    ((apply_event platform_1 overdue_event 1 machine_1).2 ≡ none)
    × (((machine_1.snapshot.state ≡ apply_window ⊎ machine_1.snapshot.state ≡ probing)
          × ((apply_event platform_1 overdue_event 1 machine_1).0.snapshot.state
              ≡ rollback_pending))
        ⊎ ((machine_1.snapshot.state ≡ snapshot_pending
              ⊎ machine_1.snapshot.state ≡ preflight
              ⊎ machine_1.snapshot.state ≡ rollback_pending)
            × ((apply_event platform_1 overdue_event 1 machine_1).0.snapshot.state
                ≡ failed_closed)))
apply_event-timeout_example =
    apply_event-timeout platform_1 overdue_event machine_1 refl overdue_valid overdue_new still_open
      (omega arith) (omega arith)

-- A machine that has seen the id of the capture with other contents.
abbrev seen_machine : ChangeMachine
seen_machine = record machine_1 { processed_events = ("event-1", "other") ∷ [] }

-- The longest run: the change is applied, its probe fails, and it is rolled back.
abbrev rolled_back_events : List (ChangeEvent × ℕ)
rolled_back_events =
    (captured, 1)
    ∷ (captured, 1)
    ∷ (plain_event "event-2", 2)
    ∷ (record (plain_event "event-3") { type = temporary_applied }, 3)
    ∷ (record (plain_event "event-4") { type = probe_failed; probe_id = "probe-1" }, 4)
    ∷ (record (plain_event "event-5") { type = rollback_succeeded }, 5)
    ∷ []

moved_to_end : count_moves platform_1 rolled_back_events machine_1 ≡ 5
unfolding count_moves apply_event applied apply_seen apply_new check_event transition dispatch enter
    pass_probe start_probing fail_probing has_probe contains validate_event
    validate_canonical_event_identifier normalize_identifier matches_identifier find terminal_change
    trim_space is_word put
moved_to_end = refl

count_moves-bound_example :
    (count_moves platform_1 rolled_back_events machine_1 < length plan_1.probes + 4)
    ⊎ ((count_moves platform_1 rolled_back_events machine_1 ≡ length plan_1.probes + 4)
        × (terminal_change (run_events platform_1 rolled_back_events machine_1).snapshot.state
            ≡ true))
count_moves-bound_example =
    count_moves-bound platform_1 plan_1 1 machine_1 rolled_back_events (omega arith) machine_started
