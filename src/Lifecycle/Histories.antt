-- ===== src/Lifecycle/Histories.antt =====
-- For internal/nodelifecycle/lifecycle.go: histories of accepted transitions, from a valid
-- initial object.
use control_center_developme.Prelude.{
  ℕ, ◌+◌, ◌≤◌, ◌≡◌, refl, ◌≢◌, ◌∙◌, Bool, true, false, some, arith, ok,
}
use control_center_developme.Lifecycle.States.{
  State, draining, maintenance, updating, replacing, removing, Rule, is_desired,
  transition_rule_for,
}
use control_center_developme.Lifecycle.Validation.{
  NodeLifecycle, TransitionRequest, validate_transition,
}
use control_center_developme.Lifecycle.Transitions.{IsTransition, validate_transition-IsTransition}

abbrev pub add_if : Bool → ℕ → ℕ
add_if true n = n + 1
add_if false n = n

-- The objects that a node's lifecycle has held, each accepted after the one before it, with the
-- number of desired transitions on the way.
pub data History (first : NodeLifecycle) : NodeLifecycle → ℕ → Type 0 where
  begins : History first first 0
  follows :
      {current next : NodeLifecycle} {desired : ℕ} (request : TransitionRequest)
      → History first current desired
      → validate_transition current next request ≡ ok tt
      → History first next (add_if (is_desired request.type) desired)

pub record IsDescendant (first node : NodeLifecycle) (desired : ℕ) : Type 0 where
  pub same_object : node.object_id ≡ first.object_id
  pub same_creation : node.created_at ≡ first.created_at
  pub same_scope : (node.scope_id ≡ first.scope_id) × (node.owner_scope ≡ first.owner_scope)
  pub generations : node.generation ≡ first.generation + desired
  pub not_earlier : first.state_changed_at ≤ node.state_changed_at

step-IsDescendant :
    (first current next : NodeLifecycle) (desired : ℕ) (request : TransitionRequest)
    → IsDescendant first current desired
    → IsTransition current next request
    → IsDescendant first next (add_if (is_desired request.type) desired)
step-IsDescendant first current next desired request d t = record {
  same_object = t.successor.same_object ∙ d.same_object;
  same_creation = t.successor.same_creation ∙ d.same_creation;
  same_scope = (t.same_scope.0 ∙ d.same_scope.0, t.same_scope.1 ∙ d.same_scope.1);
  generations =
      ground (arith, t.successor.same_generation, t.successor.next_generation, d.generations);
  not_earlier = omega (arith, t.later, d.not_earlier);
}

-- Through any accepted history the object id, the creation time and the scopes of the node stay,
-- its state times do not go back, and its generation has grown by the number of desired
-- transitions.
pub History-IsDescendant :
    (first node : NodeLifecycle) (desired : ℕ)
    → History first node desired
    → IsDescendant first node desired
History-IsDescendant first node desired begins = record {
  same_object = refl;
  same_creation = refl;
  same_scope = (refl, refl);
  generations = omega arith;
  not_earlier = omega arith;
}
History-IsDescendant first node desired
      (follows {current} {next} {desired = k} request before ok_step) =
    step-IsDescendant first current next k request (History-IsDescendant first current k before)
      (validate_transition-IsTransition current next request ok_step)

-- A history during which the node never drains, from the first state on.
pub data Undrained (first : NodeLifecycle) : NodeLifecycle → Type 0 where
  still : Undrained first first
  moves :
      {current next : NodeLifecycle} (request : TransitionRequest)
      → Undrained first current
      → validate_transition current next request ≡ ok tt
      → next.state ≢ draining
      → Undrained first next

-- The states in which the node's workloads must have been moved away.
abbrev pub is_serviced : State → Bool
is_serviced draining = true
is_serviced maintenance = true
is_serviced updating = true
is_serviced replacing = true
is_serviced removing = true
is_serviced _ = false

edge-serviced :
    (from to : State) (rule : Rule)
    → transition_rule_for from to ≡ some rule
    → is_serviced from ≡ false
    → to ≢ draining
    → is_serviced to ≡ false
unfolding transition_rule_for
edge-serviced from to rule h f n = ground (arith, n)

-- A node that is in service never comes to maintenance, updating, replacing or removing by
-- accepted transitions unless it drains on the way.
pub Undrained-serviced :
    (first node : NodeLifecycle)
    → is_serviced first.state ≡ false
    → Undrained first node
    → is_serviced node.state ≡ false
Undrained-serviced first node f still = f
Undrained-serviced first node f (moves {current} {next} request before step out) =
    let t = validate_transition-IsTransition current next request step in
    edge-serviced current.state next.state t.edge.0 t.edge.1
      (Undrained-serviced first current f before) out
