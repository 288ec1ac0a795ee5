-- ===== src/Lifecycle/Examples.antt =====
-- The lifecycle contract on concrete objects: a node that is discovered and enrolled.
use control_center_developme.Contracts.Identifiers.{valid_identifier, valid_opaque_version}
use control_center_developme.Contracts.Metadata.{
  ObjectMetadata, validate_metadata, validate_against, validate_successor,
}
use control_center_developme.Prelude.{◌≡◌, ◌↔◌, refl, true, false, some, [], ◌∷◌, ok, any}
use control_center_developme.Lifecycle.States.{
  discovered, enrolling, retired, desired, enrollment_authorized, valid_state, same_state,
  valid_type, type_fits, is_desired, valid_check, same_check, transition_rule_for,
}
use control_center_developme.Lifecycle.Validation.{
  NodeLifecycle, TransitionRequest, validate_reason, validate, validate_evidence,
  validate_transition,
}
use control_center_developme.Lifecycle.Evidence.{Covers, validate_evidence-Covers}
use control_center_developme.Lifecycle.Transitions.{IsTransition, validate_transition-IsTransition}
use control_center_developme.Lifecycle.Histories.{
  History, begins, follows, IsDescendant, History-IsDescendant, Undrained, still, moves,
  is_serviced, Undrained-serviced,
}

abbrev envelope_1 : ObjectMetadata
envelope_1 = record {
  object_id = "node-1";
  scope_id = "site-1";
  owner_scope = "root";
  generation = 1;
  resource_version = "v1";
  created_at = 10;
  updated_at = 10;
}

abbrev node_1 : NodeLifecycle
node_1 = record { envelope = envelope_1; state = discovered; state_changed_at = 10; reason = "" }

abbrev envelope_2 : ObjectMetadata
envelope_2 = record envelope_1 { generation = 2; resource_version = "v2"; updated_at = 20 }

abbrev node_2 : NodeLifecycle
node_2 = record { envelope = envelope_2; state = enrolling; state_changed_at = 20; reason = "" }

abbrev enrollment : TransitionRequest
enrollment = record {
  to_state = enrolling;
  type = desired;
  reason = "";
  precondition = record { object_id = "node-1"; resource_version = "v1"; generation = some 1 };
  evidence = enrollment_authorized ∷ [];
}

successor_accepted : validate_successor envelope_1 envelope_2 true ≡ ok tt
unfolding validate_successor validate_metadata valid_identifier valid_opaque_version
successor_accepted = refl

enrollment_accepted : validate_transition node_1 node_2 enrollment ≡ ok tt
unfolding validate_transition validate validate_reason validate_evidence validate_against
    validate_successor validate_metadata valid_identifier valid_opaque_version valid_state
    same_state valid_type type_fits is_desired valid_check same_check transition_rule_for any
enrollment_accepted = refl

validate_evidence-Covers_example :
    (validate_evidence (enrollment_authorized ∷ []) (enrollment_authorized ∷ []) ≡ ok tt)
    ↔ Covers (enrollment_authorized ∷ []) (enrollment_authorized ∷ [])
validate_evidence-Covers_example =
    validate_evidence-Covers (enrollment_authorized ∷ []) (enrollment_authorized ∷ [])

validate_transition-IsTransition_example : IsTransition node_1 node_2 enrollment
validate_transition-IsTransition_example =
    validate_transition-IsTransition node_1 node_2 enrollment enrollment_accepted

abbrev retired_node : NodeLifecycle
retired_node = record node_2 { state = retired; reason = "replaced" }

enrolled : History node_1 node_2 1
unfolding is_desired
enrolled = follows enrollment begins enrollment_accepted

History-IsDescendant_example : IsDescendant node_1 node_2 1
History-IsDescendant_example = History-IsDescendant node_1 node_2 1 enrolled

undrained : Undrained node_1 node_2
undrained = moves enrollment still enrollment_accepted (λ e. cc)

Undrained-serviced_example : is_serviced enrolling ≡ false
Undrained-serviced_example = Undrained-serviced node_1 node_2 refl undrained
