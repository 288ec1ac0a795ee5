-- ===== src/Network/Plan/Types.antt =====
-- internal/networkpolicy/change_plan.go: the types of change plans, their limits and timeouts.
-- A non-positive `time.Duration` is 0. Every error wraps `ErrInvalidChangePlan`.
use control_center_developme.Contracts.Identifiers.{is_word, matches_identifier}
use control_center_developme.Prelude.Text.{trim_space}
use control_center_developme.Prelude.{
  ℕ, String, Bool, not, ◌||◌, List, ltb, ◌==◌, ◌=s◌, if◌then◌else◌, Result, ok, err, ◌>>◌, require,
  reject,
}
use control_center_developme.Network.Policy.{NetworkError, invalid_change_plan, ForwardingIntent}

abbrev pub max_interfaces_per_plan : ℕ
max_interfaces_per_plan = 64

abbrev pub max_forwarding_intents : ℕ
max_forwarding_intents = 128

abbrev pub max_probes_per_plan : ℕ
max_probes_per_plan = 128

-- Fifteen minutes, in nanoseconds.
abbrev pub max_phase_timeout : ℕ
max_phase_timeout = 900000000000

pub data ChangeStage : Type 0 where
  snapshot_stage preflight_stage apply_window_stage probes_stage decision_stage : ChangeStage

pub data ChangeAction : Type 0 where
  capture_recovery_snapshot validate_network_contract validate_management_path
        authorize_forwarding_action open_temporary_window run_connectivity_probes
        commit_or_rollback :
      ChangeAction

-- ProbeKind.valid
unfoldable pub valid_probe_kind : String → Bool
valid_probe_kind k = k =s "link_state" || k =s "zone_reachability" || k =s "control_plane"

pub record InterfaceIntent : Type 0 where
  pub interface_id : String
  pub zone : String
  pub changed : Bool

pub record ConnectivityProbe : Type 0 where
  pub id : String
  pub kind : String
  pub interface_id : String
  pub zone : String

pub record TimeoutPolicy : Type 0 where
  pub snapshot : ℕ
  pub preflight : ℕ
  pub apply_window : ℕ
  pub probe : ℕ
  pub rollback : ℕ

pub record ChangePlanRequest : Type 0 where
  pub node_id : String
  pub revision_id : String
  pub interfaces : List InterfaceIntent
  pub forwarding : List ForwardingIntent
  pub probes : List ConnectivityProbe
  pub timeouts : TimeoutPolicy

pub record ChangeStep : Type 0 where
  pub order : ℕ
  pub stage : ChangeStage
  pub action : ChangeAction

pub record ChangePlan : Type 0 where
  pub schema_version : String
  pub plan_id : String
  pub node_id : String
  pub revision_id : String
  pub interfaces : List InterfaceIntent
  pub forwarding : List ForwardingIntent
  pub forwarding_default_deny : Bool
  pub probes : List ConnectivityProbe
  pub timeouts : TimeoutPolicy
  pub steps : List ChangeStep

-- What the code takes from `strings.ToUpper`, and from `encoding/json` with `crypto/sha256`.
pub record PlanPlatform : Type 0 where
  pub to_upper : String → String
  pub plan_digest : ChangePlan → String

-- normalizeIdentifier
unfoldable pub normalize_identifier : String → Result NetworkError String
normalize_identifier value =
    if matches_identifier is_word 126 (trim_space value)
    then ok (trim_space value)
    else err invalid_change_plan

abbrev pub within_phase : ℕ → Bool
within_phase value = not (value == 0 || ltb max_phase_timeout value)

-- validateTimeouts
unfoldable pub validate_timeouts : TimeoutPolicy → Result NetworkError (Unit {0})
validate_timeouts t = do
  require (within_phase t.snapshot) invalid_change_plan
  require (within_phase t.preflight) invalid_change_plan
  require (within_phase t.apply_window) invalid_change_plan
  require (within_phase t.probe) invalid_change_plan
  require (within_phase t.rollback) invalid_change_plan
  reject (ltb t.apply_window t.probe) invalid_change_plan
