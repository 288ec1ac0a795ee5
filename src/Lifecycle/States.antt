-- ===== src/Lifecycle/States.antt =====
-- internal/nodelifecycle/lifecycle.go: states, evidence checks and the table of transitions.
-- Both are strings in the source; `unsupported` stands for a text that is no constant of the
-- contract.
use control_center_developme.Prelude.{
  ℕ, String, ◌≡◌, Bool, true, false, ◌&&◌, Option, none, some, List, [], ◌∷◌, ◌++◌, arith, ◌==◌,
  ◌=s◌, =s_iff,
}

pub data State : Type 0 where
  discovered enrolling ready degraded draining maintenance updating replacing removing offline
        recovering retired :
      State
  unsupported : String → State

-- State.Valid
unfoldable pub valid_state : State → Bool
valid_state (unsupported text) = false
valid_state _ = true

-- State.Terminal
unfoldable pub terminal_state : State → Bool
terminal_state retired = true
terminal_state _ = false

abbrev pub state_index : State → ℕ
state_index discovered = 0
state_index enrolling = 1
state_index ready = 2
state_index degraded = 3
state_index draining = 4
state_index maintenance = 5
state_index updating = 6
state_index replacing = 7
state_index removing = 8
state_index offline = 9
state_index recovering = 10
state_index retired = 11
state_index (unsupported text) = 12

abbrev pub state_text : State → String
state_text (unsupported text) = text
state_text _ = ""

-- `==` on states.
unfoldable pub same_state : State → State → Bool
same_state a b = state_index a == state_index b && state_text a =s state_text b

pub same_state-eq : (a b : State) → same_state a b ≡ true → a ≡ b
unfolding same_state
same_state-eq a b h = ground (arith, =s_iff (state_text a) (state_text b))

pub data TransitionType : Type 0 where
  desired observation : TransitionType
  unsupported_type : String → TransitionType

-- TransitionType.valid
unfoldable pub valid_type : TransitionType → Bool
valid_type (unsupported_type text) = false
valid_type _ = true

pub data RuleType : Type 0 where
  desired_rule observation_rule : RuleType

-- `request.Type == rule.typeOf`
unfoldable pub type_fits : TransitionType → RuleType → Bool
type_fits desired desired_rule = true
type_fits observation observation_rule = true
type_fits _ _ = false

-- `t == TransitionDesired`
unfoldable pub is_desired : TransitionType → Bool
is_desired desired = true
is_desired _ = false

pub data EvidenceCheck : Type 0 where
  enrollment_authorized identity_verified readiness_passed maintenance_preflight_passed
        scheduling_disabled scheduling_enabled drain_complete no_active_jobs no_active_placements
        stateful_workloads_safe operation_approved operation_cancelled rollback_verified
        update_verified replacement_node_ready state_synchronized switchover_verified
        replacement_health_verified removal_approved removal_verified recovery_started
        recovery_verified retirement_approved no_managed_state :
      EvidenceCheck
  unsupported_check : String → EvidenceCheck

-- EvidenceCheck.valid
unfoldable pub valid_check : EvidenceCheck → Bool
valid_check (unsupported_check text) = false
valid_check _ = true

abbrev pub check_index : EvidenceCheck → ℕ
check_index enrollment_authorized = 0
check_index identity_verified = 1
check_index readiness_passed = 2
check_index maintenance_preflight_passed = 3
check_index scheduling_disabled = 4
check_index scheduling_enabled = 5
check_index drain_complete = 6
check_index no_active_jobs = 7
check_index no_active_placements = 8
check_index stateful_workloads_safe = 9
check_index operation_approved = 10
check_index operation_cancelled = 11
check_index rollback_verified = 12
check_index update_verified = 13
check_index replacement_node_ready = 14
check_index state_synchronized = 15
check_index switchover_verified = 16
check_index replacement_health_verified = 17
check_index removal_approved = 18
check_index removal_verified = 19
check_index recovery_started = 20
check_index recovery_verified = 21
check_index retirement_approved = 22
check_index no_managed_state = 23
check_index (unsupported_check text) = 24

abbrev pub check_text : EvidenceCheck → String
check_text (unsupported_check text) = text
check_text _ = ""

-- `==` on checks.
unfoldable pub same_check : EvidenceCheck → EvidenceCheck → Bool
same_check a b = check_index a == check_index b && check_text a =s check_text b

pub record Rule : Type 0 where
  pub type_of : RuleType
  pub required_checks : List EvidenceCheck

abbrev pub drain_checks : List EvidenceCheck
drain_checks =
    maintenance_preflight_passed ∷ scheduling_disabled ∷ drain_complete ∷ no_active_jobs
    ∷ no_active_placements ∷ stateful_workloads_safe ∷ []

abbrev pub wants : List EvidenceCheck → Option Rule
wants checks = some (record { type_of = desired_rule; required_checks = checks })

abbrev pub observes : List EvidenceCheck → Option Rule
observes checks = some (record { type_of = observation_rule; required_checks = checks })

-- The table `transitionRules`, read by transitionRuleFor.
unfoldable pub transition_rule_for : State → State → Option Rule
transition_rule_for discovered enrolling = wants (enrollment_authorized ∷ [])
transition_rule_for discovered retired = wants (retirement_approved ∷ no_managed_state ∷ [])
transition_rule_for enrolling ready = observes (identity_verified ∷ readiness_passed ∷ [])
transition_rule_for enrolling degraded = observes []
transition_rule_for enrolling offline = observes []
transition_rule_for enrolling retired = wants (retirement_approved ∷ no_managed_state ∷ [])
transition_rule_for ready degraded = observes []
transition_rule_for ready draining = wants (maintenance_preflight_passed ∷ scheduling_disabled ∷ [])
transition_rule_for ready offline = observes []
transition_rule_for degraded ready = observes (readiness_passed ∷ [])
transition_rule_for degraded draining =
    wants (maintenance_preflight_passed ∷ scheduling_disabled ∷ [])
transition_rule_for degraded offline = observes []
transition_rule_for degraded recovering = observes (recovery_started ∷ [])
transition_rule_for draining maintenance = observes drain_checks
transition_rule_for draining ready =
    wants (operation_cancelled ∷ scheduling_enabled ∷ readiness_passed ∷ [])
transition_rule_for draining degraded = observes []
transition_rule_for draining offline = observes []
transition_rule_for maintenance ready = wants (scheduling_enabled ∷ readiness_passed ∷ [])
transition_rule_for maintenance updating =
    wants (operation_approved ∷ maintenance_preflight_passed ∷ [])
transition_rule_for maintenance replacing =
    wants (operation_approved ∷ replacement_node_ready ∷ state_synchronized ∷ [])
transition_rule_for maintenance removing =
    wants ((operation_approved ∷ removal_approved ∷ []) ++ drain_checks)
transition_rule_for maintenance degraded = observes []
transition_rule_for maintenance offline = observes []
transition_rule_for updating ready =
    observes (update_verified ∷ scheduling_enabled ∷ readiness_passed ∷ [])
transition_rule_for updating maintenance = observes (update_verified ∷ [])
transition_rule_for updating degraded = observes []
transition_rule_for updating offline = observes []
transition_rule_for replacing retired = observes (
    replacement_node_ready ∷ state_synchronized ∷ switchover_verified ∷ replacement_health_verified
    ∷ [])
transition_rule_for replacing maintenance = wants (operation_cancelled ∷ rollback_verified ∷ [])
transition_rule_for replacing degraded = observes []
transition_rule_for replacing offline = observes []
transition_rule_for removing retired = observes (removal_verified ∷ retirement_approved ∷ [])
transition_rule_for removing maintenance = wants (operation_cancelled ∷ rollback_verified ∷ [])
transition_rule_for removing degraded = observes []
transition_rule_for removing offline = observes []
transition_rule_for offline recovering = observes (identity_verified ∷ recovery_started ∷ [])
transition_rule_for offline retired =
    wants (retirement_approved ∷ no_managed_state ∷ stateful_workloads_safe ∷ [])
transition_rule_for recovering ready = observes (recovery_verified ∷ readiness_passed ∷ [])
transition_rule_for recovering degraded = observes []
transition_rule_for recovering offline = observes []
transition_rule_for recovering draining =
    wants (maintenance_preflight_passed ∷ scheduling_disabled ∷ [])
transition_rule_for _ _ = none
