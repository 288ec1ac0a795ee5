-- ===== src/Approval/Change.antt =====
-- internal/orchestration/change/change.go: the machine of a change. A method of `*Machine` runs
-- under its mutex; the machine is its snapshot. The revision of New is given by its id.
use control_center_developme.Prelude.Ints.{is_positive}
use control_center_developme.Prelude.{
  Bool, err, false, if◌then◌else◌, List, ok, reject, require, Result, String, true, ℕ, [], ◌%◌, ◌+◌,
  ◌++◌, ◌==◌, ◌=s◌, ◌>>◌, ◌||◌, ◌∷◌, is_ok,
}
use control_center_developme.Approval.Policy.{
  allow, Approval, check_approvals, Decision, Effect, PolicyError, Risk, validate_decision,
}

pub data State : Type 0 where
  pending_approval approved queued executing verifying succeeded failed cancelled rejected : State
  unknown_state : String → State

-- `policy_decision` is an error of the decision, wrapped.
pub data ChangeError : Type 0 where
  identity_required time_required version_conflict invalid_transition : ChangeError
  policy_decision : PolicyError → ChangeError

pub record Snapshot : Type 0 where
  pub id : String
  pub action : String
  pub requester : String
  pub revision_id : String
  pub risk : Risk
  pub state : State
  pub decision : Decision
  pub approvals : List Approval
  pub version : ℕ  -- uint64
  pub updated_at : ℕ

-- The state that a change begins in.
unfoldable pub initial_state : Decision → Effect → State
initial_state decision allow =
    if is_positive decision.requirement.minimum then pending_approval else approved
initial_state decision _ = rejected

abbrev pub with_policy_error : Result PolicyError (Unit {0}) → Result ChangeError (Unit {0})
with_policy_error (ok u) = ok u
with_policy_error (err e) = err (policy_decision e)

-- New
unfoldable pub new_change :
    String → String → String → String → Decision → ℕ → Result ChangeError Snapshot
unfolding initial_state
new_change id action requester revision_id decision now = do
  reject (id =s "" || action =s "" || requester =s "") identity_required
  reject (now == 0) time_required
  with_policy_error (validate_decision decision)
  ok (record {
    id = id;
    action = action;
    requester = requester;
    revision_id = revision_id;
    risk = decision.risk;
    state = initial_state decision decision.effect;
    decision = decision;
    approvals = [];
    version = 1;
    updated_at = now;
  })

abbrev pub is_pending : State → Bool
is_pending pending_approval = true
is_pending _ = false

-- Approve, behind its guards
unfoldable pub add_approval : Approval → ℕ → Snapshot → Snapshot
add_approval approval now m =
    let approvals : List Approval = m.approvals ++ (approval ∷ []) in
    record m {
      approvals = approvals;
      state =
          if is_ok (check_approvals m.requester m.decision.requirement approvals)
          then approved
          else m.state;
      version = (m.version + 1) % 18446744073709551616;
      updated_at = now;
    }

-- Approve
unfoldable pub approve : Approval → ℕ → ℕ → Snapshot → Result ChangeError Snapshot
unfolding add_approval
approve approval expected_version now m = do
  require (m.version == expected_version) version_conflict
  require (is_pending m.state) invalid_transition
  ok (add_approval approval now m)

-- allowed
unfoldable pub allowed_change : State → State → Bool
allowed_change pending_approval cancelled = true
allowed_change pending_approval rejected = true
allowed_change approved queued = true
allowed_change approved cancelled = true
allowed_change queued executing = true
allowed_change queued cancelled = true
allowed_change queued failed = true
allowed_change executing verifying = true
allowed_change executing failed = true
allowed_change executing cancelled = true
allowed_change verifying succeeded = true
allowed_change verifying failed = true
allowed_change _ _ = false

-- Transition
unfoldable pub change_state : State → ℕ → ℕ → Snapshot → Result ChangeError Snapshot
unfolding allowed_change
change_state to expected_version now m = do
  require (m.version == expected_version) version_conflict
  require (allowed_change m.state to) invalid_transition
  ok (record m { state = to; version = (m.version + 1) % 18446744073709551616; updated_at = now })

-- The calls that change a machine.
pub data Call : Type 0 where
  approving : Approval → ℕ → ℕ → Call
  moving : State → ℕ → ℕ → Call

abbrev pub or_same : Snapshot → Result ChangeError Snapshot → Snapshot
or_same m (ok next) = next
or_same m (err e) = m

unfoldable pub step : Call → Snapshot → Snapshot
step (approving approval expected_version now) m =
    or_same m (approve approval expected_version now m)
step (moving to expected_version now) m = or_same m (change_state to expected_version now m)

unfoldable pub run : List Call → Snapshot → Snapshot
unfolding step
run [] m = m
run (call ∷ calls) m = run calls (step call m)
