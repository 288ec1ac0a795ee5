-- ===== src/Approval/Preflight.antt =====
-- internal/orchestration/executionguard/preflight.go: the last check of a change before a job is
-- admitted for it. Texts of errors are left out: all of them wrap `ErrInvalidInput`.
use control_center_developme.Prelude.Text.{trim_space}
use control_center_developme.Prelude.{
  Bool, false, if◌then◌else◌, is_ok, length, List, none, not, ok, Option, reject, require, Result,
  some, String, true, ℕ, [], ◌++◌, ◌-◌, ◌==◌, ◌=s◌, ◌>>=◌, ◌>>◌, ◌||◌, ◌∷◌, ltb,
}
use control_center_developme.Approval.Policy.{
  allow, check_approvals, critical, Effect, high, low, medium, Risk, unknown_risk, valid_risk,
  validate_decision,
}
use control_center_developme.Approval.Change.{approved, Snapshot, State}

pub data GuardError : Type 0 where
  invalid_input : GuardError

pub record MaintenanceWindow : Type 0 where
  pub starts_at : ℕ
  pub ends_at : ℕ

-- What the code reads of a `config.Revision`.
pub record Revision : Type 0 where
  pub id : String
  pub digest : String

pub record Input : Type 0 where
  pub change : Snapshot
  pub revision : Revision
  pub current_revision_id : String
  pub require_maintenance_window : Bool
  pub maintenance_window : Option MaintenanceWindow
  pub now : ℕ

pub record Admission : Type 0 where
  pub contract_version : String
  pub eligible : Bool
  pub execution_authorized : Bool
  pub change_id : String
  pub change_version : ℕ
  pub revision_id : String
  pub revision_digest : String
  pub evaluated_at : ℕ
  pub maintenance_window : Option MaintenanceWindow
  pub blockers : List String

abbrev pub is_canonical : String → Bool
is_canonical value = value =s trim_space value

abbrev pub is_blank : String → Bool
is_blank value = trim_space value =s ""

-- validateChange
unfoldable pub validate_change : Snapshot → Result GuardError (Unit {0})
validate_change m = do
  reject (is_blank m.id || is_blank m.action || is_blank m.requester || is_blank m.revision_id)
      invalid_input
  reject
      (not (is_canonical m.id)
        || not (is_canonical m.action)
        || not (is_canonical m.requester)
        || not (is_canonical m.revision_id))
      invalid_input
  reject (m.version == 0 || m.updated_at == 0) invalid_input
  require (valid_risk m.risk) invalid_input

-- normalizeWindow; the window is its own result.
unfoldable pub normalize_window : MaintenanceWindow → Result GuardError (Unit {0})
normalize_window window = do
  reject (window.starts_at == 0 || window.ends_at == 0 || not (ltb window.starts_at window.ends_at))
      invalid_input
  reject
      (ltb (window.ends_at - window.starts_at) 60000000000
        || ltb 604800000000000 (window.ends_at - window.starts_at))
      invalid_input

-- `if test { result.Blockers = append(result.Blockers, blocker) }`
unfoldable pub add_if : Bool → String → List String → List String
add_if test blocker blockers = if test then blockers ++ (blocker ∷ []) else blockers

abbrev pub is_approved : State → Bool
is_approved approved = true
is_approved _ = false

abbrev pub is_allow : Effect → Bool
is_allow allow = true
is_allow _ = false

abbrev pub same_risk : Risk → Risk → Bool
same_risk low low = true
same_risk medium medium = true
same_risk high high = true
same_risk critical critical = true
same_risk (unknown_risk r) (unknown_risk s) = r =s s
same_risk _ _ = false

-- The blockers of the change itself.
unfoldable pub change_blockers : Input → List String
unfolding add_if
change_blockers input =
    add_if
      (not (
        is_ok (
          check_approvals input.change.requester input.change.decision.requirement
            input.change.approvals)))
      "approval_requirement_not_satisfied"
      (add_if (not (input.current_revision_id =s input.change.revision_id))
        "revision_is_no_longer_current"
        (add_if (not (input.change.revision_id =s input.revision.id)) "revision_binding_mismatch" (
          add_if (not (is_allow input.change.decision.effect)) "policy_denied"
            (add_if (not (is_approved input.change.state)) "change_not_approved" []))))

-- The blockers of the maintenance window, behind those of the change.
unfoldable pub window_blockers :
    Option MaintenanceWindow → Bool → ℕ → List String → Result GuardError (List String)
unfolding add_if
window_blockers (some window) required now blockers = do
  normalize_window window
  ok (
      add_if (not (ltb now window.ends_at)) "maintenance_window_closed"
        (add_if (ltb now window.starts_at) "maintenance_window_not_started" blockers))
window_blockers none required now blockers =
    ok (add_if required "maintenance_window_required" blockers)

abbrev pub admission : Input → List String → Admission
admission input blockers = record {
  contract_version = "orchestration.execution-preflight/v1";
  eligible = length blockers == 0;
  execution_authorized = false;
  change_id = input.change.id;
  change_version = input.change.version;
  revision_id = input.revision.id;
  revision_digest = input.revision.digest;
  evaluated_at = input.now;
  maintenance_window = input.maintenance_window;
  blockers = blockers;
}

-- Evaluate
unfoldable pub evaluate_preflight : Input → Result GuardError Admission
unfolding change_blockers window_blockers
evaluate_preflight input = do
  reject (input.now == 0) invalid_input
  reject (is_blank input.current_revision_id || not (is_canonical input.current_revision_id))
      invalid_input
  validate_change input.change
  reject (input.revision.id =s "" || input.revision.digest =s "") invalid_input
  reject (ltb input.now input.change.updated_at) invalid_input
  require (is_ok (validate_decision input.change.decision)) invalid_input
  require (same_risk input.change.risk input.change.decision.risk) invalid_input
  blockers ←
      window_blockers input.maintenance_window input.require_maintenance_window input.now
        (change_blockers input)
  ok (admission input blockers)
