-- ===== src/Offline/Reconnect.antt =====
-- internal/siteoffline/reconnect.go: what becomes of a queued intent when the site is connected
-- again.
use control_center_developme.Prelude.Text.{text_append}
use control_center_developme.Prelude.{
  Bool, false, if◌then◌else◌, ltb, not, ok, reject, require, Result, String, true, ℕ, ◌&&◌, ◌==◌,
  ◌=s◌, ◌>>◌, ◌||◌,
}
use control_center_developme.Offline.Checks.{
  invalid_queue_entry, invalid_reconnect_state, OfflineError, valid_action, valid_digest,
  valid_opaque, valid_operation_class, valid_site_identifier,
}
use control_center_developme.Offline.Admission.{conflict_key_of, QueueEntry}

pub data ReconciliationStatus : Type 0 where
  ready_for_change already_reflected conflict : ReconciliationStatus

pub data ReconciliationReason : Type 0 where
  base_matches intent_exists generation_advanced generation_behind version_diverged :
      ReconciliationReason

pub record ReconnectState : Type 0 where
  pub site_id : String
  pub scope_id : String
  pub object_id : String
  pub generation : ℕ
  pub resource_version : String
  pub applied_intent_digest : String

pub record RevisionMetadata : Type 0 where
  pub generation : ℕ
  pub resource_version : String

pub record ReconciliationDecision : Type 0 where
  pub contract_version : String
  pub decision_id : String
  pub queue_id : String
  pub status : ReconciliationStatus
  pub reason : ReconciliationReason
  pub conflict_id : String
  pub conflict_key : String
  pub expected : RevisionMetadata
  pub observed : RevisionMetadata
  pub requires_approved_change : Bool
  pub requires_operator_review : Bool
  pub production_mutation_enabled : Bool

-- What the code takes from `encoding/json` with `crypto/sha256`: the first 24 digits of the digest
-- of a decision, and the 24 digits behind them.
pub record ReconnectPlatform : Type 0 where
  pub decision_digest :
      String → ReconnectState → ReconciliationStatus → ReconciliationReason → String
  pub conflict_digest :
      String → ReconnectState → ReconciliationStatus → ReconciliationReason → String

-- validateQueueEntry
unfoldable pub validate_queue_entry : QueueEntry → Result OfflineError (Unit {0})
validate_queue_entry e = do
  require (e.contract_version =s "site.offline-reconciliation-entry/v1") invalid_queue_entry
  require (valid_site_identifier e.queue_id) invalid_queue_entry
  require (valid_site_identifier e.request_id) invalid_queue_entry
  require (valid_site_identifier e.actor_id) invalid_queue_entry
  require (valid_site_identifier e.site_id) invalid_queue_entry
  require (valid_site_identifier e.scope_id) invalid_queue_entry
  require (valid_site_identifier e.object_id) invalid_queue_entry
  require (valid_site_identifier e.policy_id) invalid_queue_entry
  reject (e.sequence == 0 || e.base_generation == 0 || e.policy_generation == 0 || e.queued_at == 0)
      invalid_queue_entry
  require (valid_operation_class e.class) invalid_queue_entry
  require (valid_action e.action) invalid_queue_entry
  require (valid_digest e.intent_digest) invalid_queue_entry
  require (valid_opaque e.base_resource_version) invalid_queue_entry
  require (valid_opaque e.policy_version) invalid_queue_entry
  reject
      (not (e.conflict_key =s conflict_key_of e.scope_id e.object_id)
        || not (e.conflict_mode =s "reject_on_divergence"))
      invalid_queue_entry

-- validateReconnectState
unfoldable pub validate_reconnect_state : ReconnectState → Result OfflineError (Unit {0})
validate_reconnect_state s = do
  require (valid_site_identifier s.site_id) invalid_reconnect_state
  require (valid_site_identifier s.scope_id) invalid_reconnect_state
  require (valid_site_identifier s.object_id) invalid_reconnect_state
  reject (s.generation == 0) invalid_reconnect_state
  require (valid_opaque s.resource_version) invalid_reconnect_state
  reject (not (s.applied_intent_digest =s "") && not (valid_digest s.applied_intent_digest))
      invalid_reconnect_state

-- ClassifyReconnect, the status and its reason
unfoldable pub classify : QueueEntry → ReconnectState → ReconciliationStatus × ReconciliationReason
classify entry s =
    if s.applied_intent_digest =s entry.intent_digest
    then (already_reflected, intent_exists)
    else if s.generation == entry.base_generation
        && s.resource_version =s entry.base_resource_version
    then (ready_for_change, base_matches)
    else if ltb entry.base_generation s.generation
    then (conflict, generation_advanced)
    else if ltb s.generation entry.base_generation
    then (conflict, generation_behind)
    else (conflict, version_diverged)

abbrev pub is_ready_status : ReconciliationStatus → Bool
is_ready_status ready_for_change = true
is_ready_status _ = false

abbrev pub is_conflict : ReconciliationStatus → Bool
is_conflict conflict = true
is_conflict _ = false

module _ (platform : ReconnectPlatform) where
  open platform use {conflict_digest, decision_digest}

  -- ClassifyReconnect, behind the status
  unfoldable pub reconnect_decision :
      QueueEntry
      → ReconnectState
      → ReconciliationStatus × ReconciliationReason
      → ReconciliationDecision
  reconnect_decision entry s (status, reason) = record {
    contract_version = "site.offline-reconciliation-decision/v1";
    decision_id = text_append "ord-" (decision_digest entry.queue_id s status reason);
    queue_id = entry.queue_id;
    status = status;
    reason = reason;
    conflict_id =
        if is_conflict status
        then text_append "ocf-" (conflict_digest entry.queue_id s status reason)
        else "";
    conflict_key = entry.conflict_key;
    expected = record {
      generation = entry.base_generation;
      resource_version = entry.base_resource_version;
    };
    observed = record { generation = s.generation; resource_version = s.resource_version };
    requires_approved_change = is_ready_status status;
    requires_operator_review = is_conflict status;
    production_mutation_enabled = false;
  }

  -- ClassifyReconnect
  unfoldable pub classify_reconnect :
      QueueEntry → ReconnectState → Result OfflineError ReconciliationDecision
  unfolding reconnect_decision classify
  classify_reconnect entry s = do
    validate_queue_entry entry
    validate_reconnect_state s
    reject
        (not (s.site_id =s entry.site_id)
          || not (s.scope_id =s entry.scope_id)
          || not (s.object_id =s entry.object_id))
        invalid_reconnect_state
    ok (reconnect_decision entry s (classify entry s))
