-- ===== src/Offline/Examples.antt =====
-- A site that is cut off admits a job and returns.
use control_center_developme.Contracts.Identifiers.{is_alnum}
use control_center_developme.Prelude.Text.{any_rune, text_append, trim_space}
use control_center_developme.Prelude.{any, ok, refl, some, true, [], ◌∷◌, ◌≡◌}
use control_center_developme.Offline.Checks.{
  is_identifier_rune, job_operation, valid_action, valid_digest, valid_opaque,
  valid_site_identifier,
}
use control_center_developme.Offline.Admission.{
  admission_reason, AdmissionDecision, AdmissionPlatform, AdmissionRequest, allow_offline,
  build_admission_decision, build_queue_entry, decide_admission, delegation_matched,
  delegations_loop, has_exact_delegation, PolicySnapshot, QueueEntry, validate_admission_request,
  validate_offline_policy, wan_unavailable,
}
use control_center_developme.Offline.Reconnect.{
  classify, classify_reconnect, reconnect_decision, ReconciliationDecision, ReconnectPlatform,
  ReconnectState, validate_queue_entry, validate_reconnect_state,
}
use control_center_developme.Offline.Delegated.{build_admission_decision-IsDecided, IsDecided}
use control_center_developme.Offline.Returning.{
  admitted_returns, classify_reconnect-IsClassified, IsClassified,
}

abbrev admission_platform : AdmissionPlatform
admission_platform = record {
  queue_digest = λ r id generation version. "0123456789abcdef01234567";
  admission_digest = λ r p reason. "0123456789abcdef01234567";
}

abbrev reconnect_platform : ReconnectPlatform
reconnect_platform = record {
  decision_digest = λ id s status reason. "0123456789abcdef01234567";
  conflict_digest = λ id s status reason. "89abcdef0123456789abcdef";
}

abbrev request_1 : AdmissionRequest
request_1 = record {
  request_id = "request-1";
  actor_id = "alice";
  site_id = "site-1";
  target_scope_id = "root/site-1";
  connectivity = wan_unavailable;
  class = job_operation;
  action = "node.restart";
  object_id = "node-1";
  intent_digest = "aaaaaaaaaaaaaaaaaaaaaaaaaaaaaaaaaaaaaaaaaaaaaaaaaaaaaaaaaaaaaaaa";
  base_generation = 3;
  base_resource_version = "v3";
  queue_sequence = 1;
  requested_at = 10;
  expected_policy_generation = 2;
  expected_policy_resource_version = "p2";
}

abbrev policy_1 : PolicySnapshot
policy_1 = record {
  policy_id = "policy-1";
  site_id = "site-1";
  site_scope_id = "root/site-1";
  generation = 2;
  resource_version = "p2";
  valid_from = 5;
  valid_until = 20;
  delegations =
      record { scope_id = "root/site-1"; class = job_operation; action = "node.restart" } ∷ [];
}

abbrev decision_1 : AdmissionDecision
decision_1 = decide_admission admission_platform request_1 policy_1 delegation_matched

decided : build_admission_decision admission_platform request_1 policy_1 ≡ ok decision_1
unfolding build_admission_decision validate_admission_request validate_offline_policy
    delegations_loop admission_reason has_exact_delegation valid_action valid_digest valid_opaque
    valid_site_identifier is_identifier_rune is_alnum any any_rune trim_space
decided = refl

digits_valid : valid_site_identifier (text_append "oq-" "0123456789abcdef01234567") ≡ true
unfolding valid_site_identifier is_identifier_rune is_alnum any_rune trim_space
digits_valid = refl

request_valid : validate_admission_request request_1 ≡ ok tt
unfolding validate_admission_request valid_action valid_digest valid_opaque valid_site_identifier
    is_identifier_rune is_alnum any_rune trim_space
request_valid = refl

policy_valid : validate_offline_policy policy_1 ≡ ok tt
unfolding validate_offline_policy delegations_loop valid_action valid_opaque valid_site_identifier
    is_identifier_rune is_alnum any any_rune trim_space
policy_valid = refl

was_allowed : decision_1.effect ≡ allow_offline
unfolding decide_admission
was_allowed = refl

-- The state of the object when the site returns: as the request left it.
abbrev state_1 : ReconnectState
state_1 = record {
  site_id = "site-1";
  scope_id = "root/site-1";
  object_id = "node-1";
  generation = 3;
  resource_version = "v3";
  applied_intent_digest = "";
}

state_valid : validate_reconnect_state state_1 ≡ ok tt
unfolding validate_reconnect_state valid_digest valid_opaque valid_site_identifier
    is_identifier_rune is_alnum any_rune trim_space
state_valid = refl

abbrev entry_1 : QueueEntry
entry_1 = build_queue_entry admission_platform request_1 policy_1

abbrev outcome_1 : ReconciliationDecision
outcome_1 = reconnect_decision reconnect_platform entry_1 state_1 (classify entry_1 state_1)

classified : classify_reconnect reconnect_platform entry_1 state_1 ≡ ok outcome_1
unfolding classify_reconnect validate_queue_entry validate_reconnect_state build_queue_entry
    valid_action valid_digest valid_opaque valid_site_identifier is_identifier_rune is_alnum
    any_rune trim_space
classified = refl

build_admission_decision-IsDecided_example :
    IsDecided admission_platform request_1 policy_1 decision_1
build_admission_decision-IsDecided_example =
    build_admission_decision-IsDecided admission_platform request_1 policy_1 decision_1 decided

classify_reconnect-IsClassified_example : IsClassified entry_1 state_1 outcome_1
classify_reconnect-IsClassified_example =
    classify_reconnect-IsClassified reconnect_platform entry_1 state_1 outcome_1 classified

admitted_returns_example :
    (entry : QueueEntry) × (decision_1.queue_entry ≡ some entry)
    × ((decision : ReconciliationDecision) × (classify_reconnect reconnect_platform entry state_1
          ≡ ok decision))
admitted_returns_example =
    admitted_returns admission_platform reconnect_platform request_1 policy_1 decision_1 state_1
      digits_valid decided was_allowed state_valid refl refl refl
