-- ===== src/Network/Machine/Types.antt =====
-- internal/networkpolicy/change_machine.go: the states, events and snapshots of a change machine,
-- and its start.
use control_center_developme.Prelude.{
  ℕ, ◌+◌, String, Bool, true, false, List, [], ◌==◌, Result, ok, err, ◌>>◌, require, reject, Store,
}
use control_center_developme.Network.Policy.{NetworkError, invalid_change_plan, plain}
use control_center_developme.Network.Plan.{
  ChangePlan, ChangePlanRequest, PlanPlatform, build_change_plan,
}

pub data ChangeState : Type 0 where
  snapshot_pending preflight apply_window probing rollback_pending committed rolled_back
        failed_closed :
      ChangeState

-- ChangeState.Terminal
unfoldable pub terminal_change : ChangeState → Bool
terminal_change committed = true
terminal_change rolled_back = true
terminal_change failed_closed = true
terminal_change _ = false

-- `unknown_event` is a text that is no constant.
pub data EventType : Type 0 where
  snapshot_captured snapshot_failed preflight_passed preflight_failed temporary_applied probe_passed
        probe_failed phase_timed_out rollback_succeeded rollback_failed :
      EventType
  unknown_event : String → EventType

pub record ChangeEvent : Type 0 where
  pub id : String
  pub type : EventType
  pub snapshot_id : String
  pub probe_id : String
  pub reason_code : String
  pub at : ℕ

pub record ChangeSnapshot : Type 0 where
  pub plan_id : String
  pub snapshot_id : String
  pub state : ChangeState
  pub version : ℕ  -- uint64
  pub deadline : ℕ
  pub passed_probe_ids : List String
  pub reason_code : String
  pub updated_at : ℕ

-- `passed` is a set of probe ids.
pub record ChangeMachine : Type 0 where
  pub plan : ChangePlan
  pub snapshot : ChangeSnapshot
  pub passed : List String
  pub processed_events : Store String

-- What the code takes from `reflect.DeepEqual` on plans, and from `encoding/json` with
-- `crypto/sha256` on events. An event is taken to have an encoding: its year has four digits.
pub record MachinePlatform : Type 0 where
  pub plans : PlanPlatform
  pub same_plan : ChangePlan → ChangePlan → Bool
  pub event_digest : ChangeEvent → String

abbrev pub plan_matches : (ChangePlan → Bool) → Result NetworkError ChangePlan → Bool
plan_matches same (ok validated) = same validated
plan_matches same (err e) = false

-- The request that the plan answers.
abbrev pub request_of : ChangePlan → ChangePlanRequest
request_of plan = record {
  node_id = plan.node_id;
  revision_id = plan.revision_id;
  interfaces = plan.interfaces;
  forwarding = plan.forwarding;
  probes = plan.probes;
  timeouts = plan.timeouts;
}

abbrev pub initial_machine : ChangePlan → ℕ → ChangeMachine
initial_machine plan now = record {
  plan = plan;
  snapshot = record {
    plan_id = plan.plan_id;
    snapshot_id = "";
    state = snapshot_pending;
    version = 1;
    deadline = now + plan.timeouts.snapshot;
    passed_probe_ids = [];
    reason_code = "";
    updated_at = now;
  };
  passed = [];
  processed_events = [];
}

module _ (platform : MachinePlatform) where
  open platform use {plans, same_plan}

  -- NewChangeMachine
  unfoldable pub new_change_machine : ChangePlan → ℕ → Result NetworkError ChangeMachine
  new_change_machine plan now = do
    reject (now == 0) (plain "network change start time is required")
    require
        (plan_matches (λ validated. same_plan validated plan)
          (build_change_plan plans (request_of plan)))
        invalid_change_plan
    ok (initial_machine plan now)
