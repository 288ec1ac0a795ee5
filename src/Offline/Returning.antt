-- ===== src/Offline/Returning.antt =====
-- For internal/siteoffline: admitted requests when the site is connected again.
use control_center_developme.Prelude.Text.{text_append}
use control_center_developme.Prelude.{
  arith, false, ok, refl, some, sym, true, ◌=s◌, =s_iff, ◌≡◌, ◌≢◌, ◌↔◌,
}
use control_center_developme.Offline.Checks.{valid_site_identifier}
use control_center_developme.Offline.Admission.{
  AdmissionDecision, AdmissionPlatform, AdmissionRequest, allow_offline, build_admission_decision,
  build_queue_entry, PolicySnapshot, QueueEntry,
}
use control_center_developme.Offline.Delegated.{
  build_admission_decision-IsDecided, build_admission_decision-parts, build_queue_entry-valid,
}
use control_center_developme.Offline.Reconnect.{
  already_reflected, classify, classify_reconnect, conflict, ready_for_change, reconnect_decision,
  ReconciliationDecision, ReconnectPlatform, ReconnectState, validate_queue_entry,
  validate_reconnect_state,
}

-- The observed revision is the one that the intent was based on.
abbrev pub AtBase : QueueEntry → ReconnectState → Type 0
AtBase entry s =
    (s.generation ≡ entry.base_generation) × (s.resource_version ≡ entry.base_resource_version)

-- The classification of a queued intent against a reconnected state.
pub record IsClassified (entry : QueueEntry) (s : ReconnectState) (d : ReconciliationDecision)
    : Type 0 where
  pub reflected : (d.status ≡ already_reflected) ↔ (s.applied_intent_digest ≡ entry.intent_digest)
  pub ready :
      (d.status ≡ ready_for_change)
      ↔ ((s.applied_intent_digest ≢ entry.intent_digest) × AtBase entry s)
  pub submitted : (d.requires_approved_change ≡ true) ↔ (d.status ≡ ready_for_change)
  pub reviewed : (d.requires_operator_review ≡ true) ↔ (d.status ≡ conflict)
  pub unmutated : d.production_mutation_enabled ≡ false

module _ (platform : ReconnectPlatform) where
  classify_reconnect-parts :
      (entry : QueueEntry) (s : ReconnectState) (d : ReconciliationDecision)
      → classify_reconnect platform entry s ≡ ok d
      → reconnect_decision platform entry s (classify entry s) ≡ d
  unfolding classify_reconnect
  classify_reconnect-parts entry s d h = ground arith

  reconnect_decision-IsClassified :
      (entry : QueueEntry) (s : ReconnectState)
      → IsClassified entry s (reconnect_decision platform entry s (classify entry s))
  unfolding reconnect_decision classify
  reconnect_decision-IsClassified entry s =
      let digest = =s_iff s.applied_intent_digest entry.intent_digest in
      let version = =s_iff s.resource_version entry.base_resource_version in
      record {
        reflected = (λ h. ground (arith, digest), λ h. ground (arith, digest));
        ready = (
          λ h. (λ e. ground (arith, digest), (ground (arith, version), ground (arith, version))),
          λ h. ground (arith, h.0, h.1, digest, version),
        );
        submitted = (λ h. ground arith, λ h. ground arith);
        reviewed = (λ h. ground arith, λ h. ground arith);
        unmutated = refl;
      }

  -- A classified intent is reflected already exactly if its digest is the one that was applied, is
  -- ready for a change exactly if it is not and the state is still its base, and then needs an
  -- approved change; in any other case it is a conflict and needs a review; production is never
  -- mutated.
  pub classify_reconnect-IsClassified :
      (entry : QueueEntry) (s : ReconnectState) (d : ReconciliationDecision)
      → classify_reconnect platform entry s ≡ ok d
      → IsClassified entry s d
  classify_reconnect-IsClassified entry s d h =
      rw (sym (classify_reconnect-parts entry s d h)) (reconnect_decision-IsClassified entry s)

  classified_lem :
      (entry : QueueEntry) (s : ReconnectState)
      → validate_queue_entry entry ≡ ok tt
      → validate_reconnect_state s ≡ ok tt
      → (s.site_id =s entry.site_id) ≡ true
      → (s.scope_id =s entry.scope_id) ≡ true
      → (s.object_id =s entry.object_id) ≡ true
      → classify_reconnect platform entry s
        ≡ ok (reconnect_decision platform entry s (classify entry s))
  unfolding classify_reconnect
  classified_lem entry s queued valid site scope object =
      rw (queued, valid, site, scope, object) refl

-- An entry that is queued for an allowed request is classified when the site reconnects, without an
-- error, against any valid state of the same object, if the digits of its digest make a valid
-- identifier.
pub admitted_returns :
    (admission : AdmissionPlatform) (platform : ReconnectPlatform) (r : AdmissionRequest)
    (p : PolicySnapshot) (d : AdmissionDecision) (s : ReconnectState)
    → valid_site_identifier
        (text_append "oq-" (admission.queue_digest r p.policy_id p.generation p.resource_version))
      ≡ true
    → build_admission_decision admission r p ≡ ok d
    → d.effect ≡ allow_offline
    → validate_reconnect_state s ≡ ok tt
    → s.site_id ≡ r.site_id
    → s.scope_id ≡ r.target_scope_id
    → s.object_id ≡ r.object_id
    → (entry : QueueEntry) × (d.queue_entry ≡ some entry)
      × ((decision : ReconciliationDecision) × (classify_reconnect platform entry s ≡ ok decision))
admitted_returns admission platform r p d s digits built allowed valid site scope object =
    let (request, policy, e) = build_admission_decision-parts admission r p d built in
    let decided = build_admission_decision-IsDecided admission r p d built in
    let entry = build_queue_entry admission r p in
    (
      entry,
      decided.queued allowed,
      (
        reconnect_decision platform entry s (classify entry s),
        classified_lem platform entry s
            (build_queue_entry-valid admission r p digits request policy) valid
            (unfold build_queue_entry in (=s_iff s.site_id r.site_id).1 site)
            (unfold build_queue_entry in (=s_iff s.scope_id r.target_scope_id).1 scope)
            (unfold build_queue_entry in (=s_iff s.object_id r.object_id).1 object),
      ),
    )
