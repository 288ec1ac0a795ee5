-- ===== src/Offline/Delegated.antt =====
-- For internal/siteoffline/admission.go: the requests that a site decides while it is cut off.
use control_center_developme.Prelude.Text.{text_append}
use mathlib.Core.Path.{subst}
use control_center_developme.Prelude.Lists.{OneOf}
use control_center_developme.Prelude.{
  String, Bool-cases, List, [], ◌∷◌, any, inl, inr, ap, arith, false, none, ok, refl, some, sym,
  true, ◌<◌, ◌==◌, =s_iff, =s_refl, ◌≡◌, ◌≢◌, ◌≤◌, ◌↔◌,
}
use control_center_developme.Offline.Checks.{
  OperationClass, ui_operation, job_operation, market_operation, unknown_class, same_class,
  valid_opaque, valid_site_identifier,
}
use control_center_developme.Offline.Admission.{
  admission_reason, AdmissionDecision, AdmissionPlatform, AdmissionRequest, allow_offline,
  build_admission_decision, build_queue_entry, conflict_key_of, decide_admission, Delegation,
  same_delegation, has_exact_delegation, is_matched, PolicySnapshot, validate_admission_request,
  validate_offline_policy, wan_unavailable,
}
use control_center_developme.Offline.Reconnect.{validate_queue_entry}

-- A delegation of this scope, class and action.
abbrev pub DelegatesExactly : String → OperationClass → String → Delegation → Type 0
DelegatesExactly scope_id class action d =
    (d.scope_id ≡ scope_id) × (d.class ≡ class) × (d.action ≡ action)

same_class_refl : (a : OperationClass) → same_class a a ≡ true
same_class_refl ui_operation = refl
same_class_refl job_operation = refl
same_class_refl market_operation = refl
same_class_refl (unknown_class text) = =s_refl text

same_class_eq : (a b : OperationClass) → same_class a b ≡ true → a ≡ b
same_class_eq (unknown_class a) (unknown_class b) h = ap unknown_class ((=s_iff a b).0 h)
same_class_eq a b h = ground arith

same_class_iff : (a b : OperationClass) → (same_class a b ≡ true) ↔ (a ≡ b)
same_class_iff a b =
    (same_class_eq a b, λ p. subst (λ c. same_class a c ≡ true) p (same_class_refl a))

same_delegation_iff :
    (scope_id : String) (class : OperationClass) (action : String) (d : Delegation)
    → (same_delegation scope_id class action d ≡ true) ↔ DelegatesExactly scope_id class action d
same_delegation_iff scope_id class action d =
    let scope = =s_iff d.scope_id scope_id in
    let kind = same_class_iff d.class class in
    let act = =s_iff d.action action in
    (
      λ h. (scope.0 (ground arith), kind.0 (ground arith), act.0 (ground arith)),
      λ (s, k, a). rw (scope.1 s, kind.1 k, act.1 a) refl,
    )

has_exact_delegation_iff :
    (delegations : List Delegation) (scope_id : String) (class : OperationClass) (action : String)
    → (has_exact_delegation delegations scope_id class action ≡ true)
      ↔ OneOf (DelegatesExactly scope_id class action) delegations
unfolding has_exact_delegation any
has_exact_delegation_iff [] scope_id class action = (λ h. absurd (cc h), λ o. absurd o)
has_exact_delegation_iff (d ∷ ds) scope_id class action =
    let (to, back) = has_exact_delegation_iff ds scope_id class action in
    let (here, there) = same_delegation_iff scope_id class action d in
    (
      λ h. elim (Bool-cases (same_delegation scope_id class action d)) [
        | inl e ↦ inl (here e)
        | inr e ↦ inr (to (ground arith))
      ],
      λ o. elim o [ inl p ↦ rw (there p) refl | inr later ↦ let rest = back later in ground arith ],
    )

-- The site is cut off, the policy is its own, in force and the expected one, and it delegates
-- exactly this operation in exactly this scope, which is the site's own.
pub record IsDelegated (r : AdmissionRequest) (p : PolicySnapshot) : Type 0 where
  pub cut_off : r.connectivity ≡ wan_unavailable
  pub same_site : r.site_id ≡ p.site_id
  pub same_scope : r.target_scope_id ≡ p.site_scope_id
  pub begun : p.valid_from ≤ r.requested_at
  pub not_ended : r.requested_at < p.valid_until
  pub same_generation : r.expected_policy_generation ≡ p.generation
  pub same_version : r.expected_policy_resource_version ≡ p.resource_version
  pub delegated : OneOf (DelegatesExactly r.target_scope_id r.class r.action) p.delegations

-- The parts of IsDelegated, as a product, the last one as the code finds it.
abbrev Delegates : AdmissionRequest → PolicySnapshot → Type 0
Delegates r p =
    (r.connectivity ≡ wan_unavailable)
    × (r.site_id ≡ p.site_id)
    × (r.target_scope_id ≡ p.site_scope_id)
    × (p.valid_from ≤ r.requested_at)
    × (r.requested_at < p.valid_until)
    × (r.expected_policy_generation ≡ p.generation)
    × (r.expected_policy_resource_version ≡ p.resource_version)
    × (has_exact_delegation p.delegations r.target_scope_id r.class r.action ≡ true)

admission_reason-Delegates :
    (r : AdmissionRequest) (p : PolicySnapshot)
    → (is_matched (admission_reason r p) ≡ true) ↔ Delegates r p
unfolding admission_reason
admission_reason-Delegates r p =
    let site = =s_iff r.site_id p.site_id in
    let scope = =s_iff r.target_scope_id p.site_scope_id in
    let version = =s_iff r.expected_policy_resource_version p.resource_version in
    (λ h. ground (arith, site, scope, version), λ h. ground (arith, site, scope, version))

module _ (platform : AdmissionPlatform) where
  open platform use {queue_digest}

  pub build_admission_decision-parts :
      (r : AdmissionRequest) (p : PolicySnapshot) (d : AdmissionDecision)
      → build_admission_decision platform r p ≡ ok d
      → (validate_admission_request r ≡ ok tt)
        × (validate_offline_policy p ≡ ok tt)
        × (decide_admission platform r p (admission_reason r p) ≡ d)
  unfolding build_admission_decision
  build_admission_decision-parts r p d h = ground arith

  -- The decision on a request, and what it never does.
  pub record IsDecided (r : AdmissionRequest) (p : PolicySnapshot) (d : AdmissionDecision)
      : Type 0 where
    pub allowed : (d.effect ≡ allow_offline) ↔ IsDelegated r p
    pub queued : d.effect ≡ allow_offline → d.queue_entry ≡ some (build_queue_entry platform r p)
    pub unqueued : d.effect ≢ allow_offline → d.queue_entry ≡ none
    pub reviewed : d.effect ≡ allow_offline → d.requires_reconnect_review ≡ true
    pub audited : d.requires_audit ≡ true
    pub unmutated : d.production_mutation_enabled ≡ false

  decide_admission-IsDecided :
      (r : AdmissionRequest) (p : PolicySnapshot)
      → IsDecided r p (decide_admission platform r p (admission_reason r p))
  unfolding decide_admission
  decide_admission-IsDecided r p =
      let (to, fro) = admission_reason-Delegates r p in
      let exact = has_exact_delegation_iff p.delegations r.target_scope_id r.class r.action in
      record {
        allowed = (
          λ h.
              let (off, site, scope, begun, ends, generation, version, delegated) =
                to (ground arith) in
              record {
                cut_off = off;
                same_site = site;
                same_scope = scope;
                begun = begun;
                not_ended = ends;
                same_generation = generation;
                same_version = version;
                delegated = exact.0 delegated;
              },
          λ g.
              let matched = fro (
                g.cut_off,
                g.same_site,
                g.same_scope,
                g.begun,
                g.not_ended,
                g.same_generation,
                g.same_version,
                exact.1 g.delegated,
              ) in
              rw matched refl,
        );
        queued = λ h. ground arith;
        unqueued = λ h. ground (arith, h);
        reviewed = λ h. ground arith;
        audited = refl;
        unmutated = refl;
      }

  -- A request that is decided is allowed exactly if it is delegated, and then it is queued for a
  -- review after the reconnection; a request that is denied is not queued; the decision is audited
  -- and never enables a mutation of production.
  pub build_admission_decision-IsDecided :
      (r : AdmissionRequest) (p : PolicySnapshot) (d : AdmissionDecision)
      → build_admission_decision platform r p ≡ ok d
      → IsDecided r p d
  build_admission_decision-IsDecided r p d h =
      let (request, policy, e) = build_admission_decision-parts r p d h in
      rw (sym e) (decide_admission-IsDecided r p)

  policy_parts :
      (p : PolicySnapshot) {u : Unit {0}}
      → validate_offline_policy p ≡ ok u
      → (valid_site_identifier p.policy_id ≡ true)
        × ((p.generation == 0) ≡ false)
        × (valid_opaque p.resource_version ≡ true)
  unfolding validate_offline_policy
  policy_parts p h = ground arith

  -- The entry that is queued for a valid request under a valid policy is valid, if the digits of
  -- its digest make a valid identifier.
  pub build_queue_entry-valid :
      (r : AdmissionRequest) (p : PolicySnapshot)
      → valid_site_identifier
          (text_append "oq-" (queue_digest r p.policy_id p.generation p.resource_version))
        ≡ true
      → validate_admission_request r ≡ ok tt
      → validate_offline_policy p ≡ ok tt
      → validate_queue_entry (build_queue_entry platform r p) ≡ ok tt
  unfolding validate_queue_entry build_queue_entry validate_admission_request
  build_queue_entry-valid r p digits request policy =
      let parts = policy_parts p policy in
      let same_key = =s_refl (conflict_key_of r.target_scope_id r.object_id) in
      ground (arith, parts, digits, same_key)
