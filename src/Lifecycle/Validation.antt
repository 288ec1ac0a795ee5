-- ===== src/Lifecycle/Validation.antt =====
-- internal/nodelifecycle/lifecycle.go: the validation of lifecycle objects and of transitions.
-- An error is the sentinel that the code wraps.
use Prim.Native.String.{count}
use control_center_developme.Contracts.Metadata.{
  MetadataError, invalid_transition, ObjectMetadata, ObjectPrecondition, validate_metadata,
  validate_against, validate_successor,
}
use control_center_developme.Prelude.Text.{is_control, trim_space, any_rune}
use control_center_developme.Prelude.{
  ℕ, String, Bool, true, false, not, ◌&&◌, ◌||◌, Option, none, some, List, [], ◌∷◌, any, ltb, ◌==◌,
  ◌=s◌, if◌then◌else◌, Result, ok, err, ◌>>=◌, ◌>>◌, reject, require, is_ok,
}
use control_center_developme.Lifecycle.States.{
  State, discovered, degraded, offline, recovering, retired, valid_state, same_state,
  TransitionType, valid_type, type_fits, is_desired, EvidenceCheck, valid_check, same_check, Rule,
  transition_rule_for,
}

pub data LifecycleError : Type 0 where
  invalid_lifecycle invalid_evidence : LifecycleError
  metadata : MetadataError → LifecycleError

abbrev pub max_reason_length : ℕ
max_reason_length = 512

-- The embedded ObjectMetadata is a field whose fields are read through.
pub record NodeLifecycle : Type 0 where
  pub envelope : ObjectMetadata
  pub open envelope use *
  pub state : State
  pub state_changed_at : ℕ
  pub reason : String

pub record TransitionRequest : Type 0 where
  pub to_state : State
  pub type : TransitionType
  pub reason : String
  pub precondition : ObjectPrecondition
  pub evidence : List EvidenceCheck

-- An error of the envelope, wrapped or passed on.
abbrev pub lift : Result MetadataError (Unit {0}) → Result LifecycleError (Unit {0})
lift (ok u) = ok u
lift (err e) = err (metadata e)

unfoldable pub reason_required : State → Bool
reason_required degraded = true
reason_required offline = true
reason_required recovering = true
reason_required retired = true
reason_required _ = false

-- validateReason; a `String` is valid UTF-8.
unfoldable pub validate_reason : State → String → Result LifecycleError (Unit {0})
unfolding reason_required
validate_reason state reason = do
  require (trim_space reason =s reason) invalid_lifecycle
  reject (ltb max_reason_length (count reason)) invalid_lifecycle
  reject (any_rune is_control reason) invalid_lifecycle
  reject (reason_required state && reason =s "") invalid_lifecycle
  reject (not (reason_required state) && not (reason =s "")) invalid_lifecycle

-- Validate
unfoldable pub validate : NodeLifecycle → Result LifecycleError (Unit {0})
validate n = do
  require (is_ok (validate_metadata n.envelope)) invalid_lifecycle
  require (valid_state n.state) invalid_lifecycle
  reject (n.state_changed_at == 0) invalid_lifecycle
  reject (ltb n.state_changed_at n.created_at) invalid_lifecycle
  reject (ltb n.updated_at n.state_changed_at) invalid_lifecycle
  validate_reason n.state n.reason

-- ValidateInitial
unfoldable pub validate_initial : NodeLifecycle → Result LifecycleError (Unit {0})
unfolding validate
validate_initial n = do
  validate n
  require (same_state n.state discovered) invalid_lifecycle
  require (n.generation == 1) invalid_lifecycle
  reject (not (n.created_at == n.updated_at) || not (n.state_changed_at == n.created_at))
      invalid_lifecycle

-- The first loop of TransitionEvidence.validate, with the set `passed` as a list.
unfoldable pub collect_passed :
    List EvidenceCheck → List EvidenceCheck → Result LifecycleError (List EvidenceCheck)
collect_passed passed [] = ok passed
collect_passed passed (check ∷ checks) =
    let rest = collect_passed (check ∷ passed) checks in
    if not (valid_check check)
    then err invalid_evidence
    else if any (same_check check) passed
    then err invalid_evidence
    else rest

-- The second loop.
unfoldable pub all_passed :
    List EvidenceCheck → List EvidenceCheck → Result LifecycleError (Unit {0})
all_passed passed [] = ok tt
all_passed passed (check ∷ required) =
    let rest = all_passed passed required in
    if any (same_check check) passed then rest else err invalid_evidence

-- TransitionEvidence.validate
unfoldable pub validate_evidence :
    List EvidenceCheck → List EvidenceCheck → Result LifecycleError (Unit {0})
unfolding collect_passed all_passed
validate_evidence evidence required = do
  passed ← collect_passed [] evidence
  all_passed passed required

-- `rule, allowed := transitionRuleFor(...); if !allowed { return ... }`
abbrev pub allowed : Option Rule → Result LifecycleError Rule
allowed none = err (metadata invalid_transition)
allowed (some rule) = ok rule

-- The part of ValidateTransition that comes behind the rule of the edge.
unfoldable pub check_rule :
    NodeLifecycle → NodeLifecycle → TransitionRequest → Rule → Result LifecycleError (Unit {0})
check_rule current next request rule = do
  require (type_fits request.type rule.type_of) (metadata invalid_transition)
  reject (not (current.scope_id =s next.scope_id) || not (current.owner_scope =s next.owner_scope))
      (metadata invalid_transition)
  require (next.state_changed_at == next.updated_at) (metadata invalid_transition)
  require (ltb current.state_changed_at next.state_changed_at) (metadata invalid_transition)
  validate_evidence request.evidence rule.required_checks
  lift (validate_successor current.envelope next.envelope (is_desired request.type))

-- ValidateTransition
unfoldable pub validate_transition :
    NodeLifecycle → NodeLifecycle → TransitionRequest → Result LifecycleError (Unit {0})
unfolding check_rule
validate_transition current next request = do
  validate current
  validate next
  require (valid_state request.to_state) (metadata invalid_transition)
  require (valid_type request.type) (metadata invalid_transition)
  require (same_state request.to_state next.state) (metadata invalid_transition)
  require (request.reason =s next.reason) (metadata invalid_transition)
  lift (validate_against request.precondition current.envelope)
  rule ← allowed (transition_rule_for current.state next.state)
  check_rule current next request rule
