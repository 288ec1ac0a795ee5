-- ===== src/Lifecycle/Transitions.antt =====
-- For internal/nodelifecycle/lifecycle.go: single accepted transitions of a node.
use control_center_developme.Contracts.Metadata.{
  ObjectMetadata, validate_against, validate_successor, max_uint64,
}
use control_center_developme.Prelude.{
  ◌+◌, ◌≤◌, ◌<◌, ◌≡◌, refl, sym, ◌≢◌, Bool, true, false, Option, none, some, arith, ◌=s◌, =s_iff,
  Result, ok, ◌>>=◌,
}
use control_center_developme.Lifecycle.States.{
  State, terminal_state, same_state, same_state-eq, type_fits, is_desired, Rule,
  transition_rule_for,
}
use control_center_developme.Lifecycle.Validation.{
  LifecycleError, NodeLifecycle, TransitionRequest, validate, validate_transition, check_rule,
  validate_evidence, lift, allowed,
}
use control_center_developme.Lifecycle.Evidence.{Covers, validate_evidence-Covers}

-- What ValidateSuccessor promises.
pub record IsSuccessor (current next : ObjectMetadata) (desired_changed : Bool) : Type 0 where
  pub same_object : next.object_id ≡ current.object_id
  pub same_creation : next.created_at ≡ current.created_at
  pub not_earlier : current.updated_at ≤ next.updated_at
  pub new_version : next.resource_version ≢ current.resource_version
  pub same_generation : desired_changed ≡ false → next.generation ≡ current.generation
  pub next_generation : desired_changed ≡ true → next.generation ≡ current.generation + 1
  pub no_overflow : desired_changed ≡ true → current.generation ≢ max_uint64
  pub same_scope :
      desired_changed ≡ false
      → (next.scope_id ≡ current.scope_id) × (next.owner_scope ≡ current.owner_scope)

-- An accepted successor has the object id and the creation time of its predecessor, is not older,
-- has another resource version, and has the same generation and scopes, or, exactly where desired
-- content changes, the next generation, which does not overflow.
pub validate_successor-IsSuccessor :
    (current next : ObjectMetadata) (desired_changed : Bool)
    → validate_successor current next desired_changed ≡ ok tt
    → IsSuccessor current next desired_changed
unfolding validate_successor
validate_successor-IsSuccessor current next d h = record {
  same_object = ground (arith, =s_iff next.object_id current.object_id);
  same_creation = ground arith;
  not_earlier = ground arith;
  new_version = ground (arith, =s_iff next.resource_version current.resource_version);
  same_generation = ground arith;
  next_generation = ground arith;
  no_overflow = ground arith;
  same_scope =
      ground
        (arith, =s_iff next.scope_id current.scope_id, =s_iff next.owner_scope current.owner_scope);
}

-- What an accepted transition guarantees: the edge and its evidence, the guard, the times, and the
-- envelope of the successor.
pub record IsTransition (current next : NodeLifecycle) (request : TransitionRequest) : Type 0 where
  pub edge :
      (rule : Rule) × (transition_rule_for current.state next.state ≡ some rule)
      × (type_fits request.type rule.type_of ≡ true)
      × Covers request.evidence rule.required_checks
  pub target : request.to_state ≡ next.state
  pub guarded :
      (request.precondition.object_id ≡ current.object_id)
      × (request.precondition.resource_version ≡ current.resource_version)
  pub entered : next.state_changed_at ≡ next.updated_at
  pub later : current.state_changed_at < next.state_changed_at
  pub same_scope : (next.scope_id ≡ current.scope_id) × (next.owner_scope ≡ current.owner_scope)
  pub successor : IsSuccessor current.envelope next.envelope (is_desired request.type)

validate_against-match :
    (request : TransitionRequest) (current : ObjectMetadata)
    → lift (validate_against request.precondition current) ≡ ok tt
    → (request.precondition.object_id ≡ current.object_id)
      × (request.precondition.resource_version ≡ current.resource_version)
unfolding validate_against
validate_against-match request current h = (
  ground (arith, =s_iff request.precondition.object_id current.object_id),
  ground (arith, =s_iff request.precondition.resource_version current.resource_version),
)

-- The checks behind the rule of the edge, taken apart.
record RuleHolds (current next : NodeLifecycle) (request : TransitionRequest) (rule : Rule)
    : Type 0 where
  type : type_fits request.type rule.type_of ≡ true
  scope : (current.scope_id =s next.scope_id) ≡ true
  owner : (current.owner_scope =s next.owner_scope) ≡ true
  entered : next.state_changed_at ≡ next.updated_at
  later : current.state_changed_at < next.state_changed_at
  evidence : validate_evidence request.evidence rule.required_checks ≡ ok tt
  successor : validate_successor current.envelope next.envelope (is_desired request.type) ≡ ok tt

check_rule-RuleHolds :
    (current next : NodeLifecycle) (request : TransitionRequest) (rule : Rule)
    → check_rule current next request rule ≡ ok tt
    → RuleHolds current next request rule
unfolding check_rule
check_rule-RuleHolds current next request rule h = ground arith

-- The chain of ValidateTransition, taken apart.
record ChainHolds (current next : NodeLifecycle) (request : TransitionRequest) : Type 0 where
  valid : (validate current ≡ ok tt) × (validate next ≡ ok tt)
  target : same_state request.to_state next.state ≡ true
  guard : lift (validate_against request.precondition current.envelope) ≡ ok tt
  edge :
      (rule : Rule) × (transition_rule_for current.state next.state ≡ some rule)
      × (check_rule current next request rule ≡ ok tt)

chain-rule :
    (o : Option Rule) (check : Rule → Result LifecycleError (Unit {0}))
    → (allowed o >>= check) ≡ ok tt
    → (rule : Rule) × (o ≡ some rule) × (check rule ≡ ok tt)
chain-rule none check h = absurd (cc)
chain-rule (some rule) check h = (rule, refl, h)

validate_transition-ChainHolds :
    (current next : NodeLifecycle) (request : TransitionRequest)
    → validate_transition current next request ≡ ok tt
    → ChainHolds current next request
unfolding validate_transition
validate_transition-ChainHolds current next request h = record {
  valid = (ground arith, ground arith);
  target = ground arith;
  guard = ground arith;
  edge =
      chain-rule (transition_rule_for current.state next.state) (check_rule current next request)
        (ground arith);
}

-- An accepted transition follows an edge of the table, with the type of the edge and evidence that
-- covers its required checks, to the state that was requested; it was guarded by the id and the
-- version of the current object; the new state begins at the time of the update and later than the
-- old one; the scopes stay, and the envelope is a successor whose generation grows exactly if the
-- transition is a desired one.
pub validate_transition-IsTransition :
    (current next : NodeLifecycle) (request : TransitionRequest)
    → validate_transition current next request ≡ ok tt
    → IsTransition current next request
validate_transition-IsTransition current next request h =
    let chain = validate_transition-ChainHolds current next request h in
    let (rule, found, checked) = chain.edge in
    let holds = check_rule-RuleHolds current next request rule checked in
    record {
      edge = (
        rule,
        found,
        holds.type,
        (validate_evidence-Covers request.evidence rule.required_checks).0 holds.evidence,
      );
      target = same_state-eq request.to_state next.state chain.target;
      guarded = validate_against-match request current.envelope chain.guard;
      entered = holds.entered;
      later = holds.later;
      same_scope = (
        sym ((=s_iff current.scope_id next.scope_id).0 holds.scope),
        sym ((=s_iff current.owner_scope next.owner_scope).0 holds.owner),
      );
      successor =
          validate_successor-IsSuccessor current.envelope next.envelope (is_desired request.type)
            holds.successor;
    }

terminal-no_rule :
    (from to : State) (rule : Rule)
    → terminal_state from ≡ true
    → transition_rule_for from to ≡ some rule
    → ⊥
unfolding terminal_state transition_rule_for
terminal-no_rule from to rule done found = ground arith

-- A retired node has no successor: every transition out of it is refused.
pub retired-refuses :
    (current next : NodeLifecycle) (request : TransitionRequest)
    → terminal_state current.state ≡ true
    → ¬ (validate_transition current next request ≡ ok tt)
retired-refuses current next request done h =
    let (rule, found, checked) = (validate_transition-ChainHolds current next request h).edge in
    terminal-no_rule current.state next.state rule done found
