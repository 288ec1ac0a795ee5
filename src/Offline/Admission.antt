-- ===== src/Offline/Admission.antt =====
-- internal/siteoffline/admission.go: the decision on a request that a site gets while it is cut off.
use Prim.Native.String.{compare}
use text.Mathlib.Text.{is_lt}
use control_center_developme.Prelude.Sort.{sort}
use control_center_developme.Prelude.Text.{text_append}
use control_center_developme.Prelude.{
  any, Bool, false, if◌then◌else◌, length, List, ltb, none, not, ok, Option, reject, require,
  Result, some, String, true, ℕ, [], ◌&&◌, ◌==◌, ◌=s◌, ◌>>◌, ◌||◌, ◌∷◌,
}
use control_center_developme.Offline.Checks.{
  invalid_admission_request, invalid_offline_policy, job_operation, market_operation, OfflineError,
  OperationClass, same_class, ui_operation, unknown_class, valid_action, valid_digest, valid_opaque,
  valid_operation_class, valid_site_identifier,
}

pub data ConnectivityState : Type 0 where
  wan_available wan_unavailable : ConnectivityState
  unknown_connectivity : String → ConnectivityState

-- validConnectivity
abbrev pub valid_connectivity : ConnectivityState → Bool
valid_connectivity (unknown_connectivity text) = false
valid_connectivity _ = true

pub data OfflineEffect : Type 0 where
  allow_offline deny_offline : OfflineEffect

pub data ReasonCode : Type 0 where
  delegation_matched admission_not_applicable site_mismatch cross_scope policy_not_yet_valid
        policy_expired policy_generation_mismatch policy_version_mismatch operation_not_delegated :
      ReasonCode

pub record Delegation : Type 0 where
  pub scope_id : String
  pub class : OperationClass
  pub action : String

pub record PolicySnapshot : Type 0 where
  pub policy_id : String
  pub site_id : String
  pub site_scope_id : String
  pub generation : ℕ
  pub resource_version : String
  pub valid_from : ℕ
  pub valid_until : ℕ
  pub delegations : List Delegation

pub record AdmissionRequest : Type 0 where
  pub request_id : String
  pub actor_id : String
  pub site_id : String
  pub target_scope_id : String
  pub connectivity : ConnectivityState
  pub class : OperationClass
  pub action : String
  pub object_id : String
  pub intent_digest : String
  pub base_generation : ℕ
  pub base_resource_version : String
  pub queue_sequence : ℕ
  pub requested_at : ℕ
  pub expected_policy_generation : ℕ
  pub expected_policy_resource_version : String

pub record QueueEntry : Type 0 where
  pub contract_version : String
  pub queue_id : String
  pub sequence : ℕ
  pub request_id : String
  pub actor_id : String
  pub site_id : String
  pub scope_id : String
  pub class : OperationClass
  pub action : String
  pub object_id : String
  pub intent_digest : String
  pub base_generation : ℕ
  pub base_resource_version : String
  pub policy_id : String
  pub policy_generation : ℕ
  pub policy_version : String
  pub queued_at : ℕ
  pub conflict_key : String
  pub conflict_mode : String

pub record AdmissionDecision : Type 0 where
  pub contract_version : String
  pub decision_id : String
  pub effect : OfflineEffect
  pub reason : ReasonCode
  pub policy_id : String
  pub policy_generation : ℕ
  pub policy_resource_version : String
  pub requires_audit : Bool
  pub requires_reconnect_review : Bool
  pub production_mutation_enabled : Bool
  pub queue_entry : Option QueueEntry

-- What the code takes from `encoding/json` with `crypto/sha256`: the first 24 digits of the digest
-- of a queue entry (a request and the id, generation and version of a policy) and of an admission
-- (a request, a policy with its delegations in order, and a reason).
pub record AdmissionPlatform : Type 0 where
  pub queue_digest : AdmissionRequest → String → ℕ → String → String
  pub admission_digest : AdmissionRequest → PolicySnapshot → ReasonCode → String

-- validateAdmissionRequest
unfoldable pub validate_admission_request : AdmissionRequest → Result OfflineError (Unit {0})
validate_admission_request r = do
  require (valid_site_identifier r.request_id) invalid_admission_request
  require (valid_site_identifier r.actor_id) invalid_admission_request
  require (valid_site_identifier r.site_id) invalid_admission_request
  require (valid_site_identifier r.target_scope_id) invalid_admission_request
  require (valid_site_identifier r.object_id) invalid_admission_request
  require (valid_connectivity r.connectivity) invalid_admission_request
  require (valid_operation_class r.class) invalid_admission_request
  require (valid_action r.action) invalid_admission_request
  require (valid_digest r.intent_digest) invalid_admission_request
  reject (r.base_generation == 0 || r.queue_sequence == 0 || r.expected_policy_generation == 0)
      invalid_admission_request
  require (valid_opaque r.base_resource_version) invalid_admission_request
  require (valid_opaque r.expected_policy_resource_version) invalid_admission_request
  reject (r.requested_at == 0) invalid_admission_request

abbrev pub same_delegation : String → OperationClass → String → Delegation → Bool
same_delegation scope_id class action d =
    d.scope_id =s scope_id && (same_class d.class class && d.action =s action)

-- The loop of validatePolicy, with the delegations that it has seen. Two delegations with the same
-- key are the same, since valid scopes and the classes hold no NUL.
unfoldable pub delegations_loop :
    String → List Delegation → List Delegation → Result OfflineError (Unit {0})
delegations_loop site_scope_id seen [] = ok tt
delegations_loop site_scope_id seen (d ∷ delegations) = do
  require (valid_site_identifier d.scope_id) invalid_offline_policy
  require (d.scope_id =s site_scope_id) invalid_offline_policy
  require (valid_operation_class d.class) invalid_offline_policy
  require (valid_action d.action) invalid_offline_policy
  reject (any (same_delegation d.scope_id d.class d.action) seen) invalid_offline_policy
  delegations_loop site_scope_id (d ∷ seen) delegations

-- validatePolicy
unfoldable pub validate_offline_policy : PolicySnapshot → Result OfflineError (Unit {0})
unfolding delegations_loop
validate_offline_policy p = do
  require (valid_site_identifier p.policy_id) invalid_offline_policy
  require (valid_site_identifier p.site_id) invalid_offline_policy
  require (valid_site_identifier p.site_scope_id) invalid_offline_policy
  reject (p.generation == 0) invalid_offline_policy
  require (valid_opaque p.resource_version) invalid_offline_policy
  reject (p.valid_from == 0 || p.valid_until == 0 || not (ltb p.valid_from p.valid_until))
      invalid_offline_policy
  reject (ltb 1024 (length p.delegations)) invalid_offline_policy
  delegations_loop p.site_scope_id [] p.delegations

-- hasExactDelegation
unfoldable pub has_exact_delegation : List Delegation → String → OperationClass → String → Bool
has_exact_delegation delegations scope_id class action =
    any (same_delegation scope_id class action) delegations

abbrev pub is_offline : ConnectivityState → Bool
is_offline wan_unavailable = true
is_offline _ = false

-- BuildAdmissionDecision, the chain of reasons
unfoldable pub admission_reason : AdmissionRequest → PolicySnapshot → ReasonCode
admission_reason r p =
    if not (is_offline r.connectivity)
    then admission_not_applicable
    else if not (r.site_id =s p.site_id)
    then site_mismatch
    else if not (r.target_scope_id =s p.site_scope_id)
    then cross_scope
    else if ltb r.requested_at p.valid_from
    then policy_not_yet_valid
    else if not (ltb r.requested_at p.valid_until)
    then policy_expired
    else if not (r.expected_policy_generation == p.generation)
    then policy_generation_mismatch
    else if not (r.expected_policy_resource_version =s p.resource_version)
    then policy_version_mismatch
    else if not (has_exact_delegation p.delegations r.target_scope_id r.class r.action)
    then operation_not_delegated
    else delegation_matched

abbrev pub is_matched : ReasonCode → Bool
is_matched delegation_matched = true
is_matched _ = false

abbrev pub class_text : OperationClass → String
class_text ui_operation = "ui"
class_text job_operation = "job"
class_text market_operation = "market"
class_text (unknown_class text) = text

-- The order of the delegations in a digest. Where the source compares keys that are joined by NUL,
-- the parts one after the other: a NUL is below every character of a valid part.
unfoldable pub delegation_less : Delegation → Delegation → Bool
delegation_less a b =
    if a.scope_id =s b.scope_id
    then (if class_text a.class =s class_text b.class
        then is_lt (compare a.action b.action)
        else is_lt (compare (class_text a.class) (class_text b.class)))
    else is_lt (compare a.scope_id b.scope_id)

-- The key of the object that an entry is about.
abbrev pub conflict_key_of : String → String → String
conflict_key_of scope_id object_id = text_append scope_id (text_append "/" object_id)

module _ (platform : AdmissionPlatform) where
  open platform use {admission_digest, queue_digest}

  -- buildQueueEntry
  unfoldable pub build_queue_entry : AdmissionRequest → PolicySnapshot → QueueEntry
  build_queue_entry r p = record {
    contract_version = "site.offline-reconciliation-entry/v1";
    queue_id = text_append "oq-" (queue_digest r p.policy_id p.generation p.resource_version);
    sequence = r.queue_sequence;
    request_id = r.request_id;
    actor_id = r.actor_id;
    site_id = r.site_id;
    scope_id = r.target_scope_id;
    class = r.class;
    action = r.action;
    object_id = r.object_id;
    intent_digest = r.intent_digest;
    base_generation = r.base_generation;
    base_resource_version = r.base_resource_version;
    policy_id = p.policy_id;
    policy_generation = p.generation;
    policy_version = p.resource_version;
    queued_at = r.requested_at;
    conflict_key = conflict_key_of r.target_scope_id r.object_id;
    conflict_mode = "reject_on_divergence";
  }

  -- admissionDecisionID
  abbrev pub admission_decision_id : AdmissionRequest → PolicySnapshot → ReasonCode → String
  admission_decision_id r p reason =
      text_append "oad-"
        (admission_digest r (record p { delegations = sort delegation_less p.delegations }) reason)

  -- BuildAdmissionDecision, behind the reason
  unfoldable pub decide_admission :
      AdmissionRequest → PolicySnapshot → ReasonCode → AdmissionDecision
  unfolding build_queue_entry
  decide_admission r p reason = record {
    contract_version = "site.offline-admission/v1";
    decision_id = admission_decision_id r p reason;
    effect = if is_matched reason then allow_offline else deny_offline;
    reason = reason;
    policy_id = p.policy_id;
    policy_generation = p.generation;
    policy_resource_version = p.resource_version;
    requires_audit = true;
    requires_reconnect_review = is_matched reason;
    production_mutation_enabled = false;
    queue_entry = if is_matched reason then some (build_queue_entry r p) else none;
  }

  -- BuildAdmissionDecision
  unfoldable pub build_admission_decision :
      AdmissionRequest → PolicySnapshot → Result OfflineError AdmissionDecision
  unfolding decide_admission
  build_admission_decision r p = do
    validate_admission_request r
    validate_offline_policy p
    ok (decide_admission r p (admission_reason r p))
