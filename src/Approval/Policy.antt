-- ===== src/Approval/Policy.antt =====
-- internal/orchestration/policy/policy.go: risk decisions and the check of approvals. Times are
-- nanoseconds, 0 is the zero time. An error is its text.
use Prim.Native.String.{compare}
use text.Mathlib.Text.{is_lt}
use control_center_developme.Prelude.Ints.{is_below, is_negative, is_positive, pos, ℤ}
use control_center_developme.Prelude.Sort.{sort}
use control_center_developme.Prelude.Text.{trim_space}
use control_center_developme.Prelude.{
  any, find, if◌then◌else◌, List, none, not, ok, Option, reject, require, Result, some, Store,
  String, suc, true, false, Bool, ℕ, ◌==◌, ◌=s◌, ◌>>◌, ◌∷◌, [], ◌&&◌, ◌||◌, ltb,
}

pub data PolicyError : Type 0 where
  negative_minimum permission_not_canonical permission_required invalid_effect invalid_risk
        policy_id_and_reason_required evaluation_input_required requester_not_canonical
        insufficient_approvals :
      PolicyError

-- `unknown_risk` and `unknown_effect` are texts that are no constants.
pub data Risk : Type 0 where
  low medium high critical : Risk
  unknown_risk : String → Risk

-- Risk.Valid
abbrev pub valid_risk : Risk → Bool
valid_risk (unknown_risk text) = false
valid_risk _ = true

pub data Effect : Type 0 where
  allow deny : Effect
  unknown_effect : String → Effect

abbrev pub valid_effect : Effect → Bool
valid_effect (unknown_effect text) = false
valid_effect _ = true

pub record ApprovalRequirement : Type 0 where
  pub minimum : ℤ
  pub permission : String
  pub distinct_actors : Bool
  pub prohibit_requester : Bool

-- ApprovalRequirement.Validate
unfoldable pub validate_requirement : ApprovalRequirement → Result PolicyError (Unit {0})
validate_requirement r = do
  reject (is_negative r.minimum) negative_minimum
  require (r.permission =s trim_space r.permission) permission_not_canonical
  reject (is_positive r.minimum && r.permission =s "") permission_required

pub record Decision : Type 0 where
  pub effect : Effect
  pub risk : Risk
  pub reason : String
  pub requirement : ApprovalRequirement
  pub policy_id : String

-- Decision.Validate
unfoldable pub validate_decision : Decision → Result PolicyError (Unit {0})
validate_decision d = do
  require (valid_effect d.effect) invalid_effect
  require (valid_risk d.risk) invalid_risk
  reject (d.policy_id =s "" || d.reason =s "") policy_id_and_reason_required
  validate_requirement d.requirement

pub record EvaluationInput : Type 0 where
  pub action : String
  pub requester : String
  pub risk : Risk
  pub permissions : List String

pub record ThresholdEvaluator : Type 0 where
  pub policy_id : String
  pub approval_permission : String
  pub denied_actions : Store String

-- `switch in.Risk`
abbrev pub required_approvals : Risk → ℕ
required_approvals high = 1
required_approvals critical = 2
required_approvals _ = 0

abbrev pub allowing : ThresholdEvaluator → Risk → Decision
allowing e risk = record {
  effect = allow;
  risk = risk;
  reason = "risk threshold policy satisfied";
  policy_id = e.policy_id;
  requirement = record {
    minimum = pos (required_approvals risk);
    permission = e.approval_permission;
    distinct_actors = true;
    prohibit_requester = ltb 0 (required_approvals risk);
  };
}

abbrev pub denying : ThresholdEvaluator → Risk → String → Decision
denying e risk reason = record {
  effect = deny;
  risk = risk;
  reason = reason;
  policy_id = e.policy_id;
  requirement = record {
    minimum = pos 0;
    permission = "";
    distinct_actors = false;
    prohibit_requester = false;
  };
}

-- ThresholdEvaluator.Evaluate, on the reason of a denied action, if it is denied. Where the source
-- returns a decision with an error, the error.
unfoldable pub decide : ThresholdEvaluator → Risk → Option String → Result PolicyError Decision
decide e risk (some reason) = ok (denying e risk reason)
decide e risk none = do validate_decision (allowing e risk); ok (allowing e risk)

-- ThresholdEvaluator.Evaluate
unfoldable pub evaluate : ThresholdEvaluator → EvaluationInput → Result PolicyError Decision
unfolding decide
evaluate e input = do
  reject (input.action =s "" || input.requester =s "" || not (valid_risk input.risk))
      evaluation_input_required
  decide e input.risk (find input.action e.denied_actions)

pub record Approval : Type 0 where
  pub actor : String
  pub permissions : List String
  pub approved_at : ℕ

unfoldable pub string_less : String → String → Bool
string_less s t = is_lt (compare s t)

-- `i := sort.SearchStrings(copy, wanted); i < len(copy) && copy[i] == wanted`: the first value that
-- is not below `wanted` is `wanted`.
unfoldable pub search : String → List String → Bool
search wanted [] = false
search wanted (v ∷ values) =
    let rest = search wanted values in if string_less v wanted then rest else v =s wanted

-- contains, with sortedCopy
unfoldable pub contains : List String → String → Bool
contains values wanted = search wanted (sort string_less values)

-- The guards of the loop of CheckApprovals, before the set of actors.
unfoldable pub is_skipped : String → ApprovalRequirement → Approval → Bool
is_skipped requester requirement approval =
    trim_space approval.actor =s ""
    || not (approval.actor =s trim_space approval.actor)
    || approval.approved_at == 0
    || (requirement.prohibit_requester && approval.actor =s requester)

-- `requirement.Permission != "" && !contains(...)`
unfoldable pub lacks_permission : ApprovalRequirement → Approval → Bool
unfolding contains
lacks_permission requirement approval =
    not (requirement.permission =s "") && not (contains approval.permissions requirement.permission)

abbrev pub is_duplicate : ApprovalRequirement → List String → Approval → Bool
is_duplicate requirement seen approval =
    requirement.distinct_actors && any (λ actor. actor =s approval.actor) seen

abbrev pub mark : ApprovalRequirement → List String → Approval → List String
mark requirement seen approval = if requirement.distinct_actors then approval.actor ∷ seen else seen

-- The loop of CheckApprovals: the number of valid approvals.
unfoldable pub count_approvals : String → ApprovalRequirement → List String → List Approval → ℕ
unfolding is_skipped lacks_permission
count_approvals requester requirement seen [] = 0
count_approvals requester requirement seen (a ∷ rest) =
    let skipping = count_approvals requester requirement seen rest in
    let marking = count_approvals requester requirement (mark requirement seen a) rest in
    if is_skipped requester requirement a
    then skipping
    else if is_duplicate requirement seen a
    then skipping
    else if lacks_permission requirement a
    then marking
    else suc marking

-- CheckApprovals
unfoldable pub check_approvals :
    String → ApprovalRequirement → List Approval → Result PolicyError (Unit {0})
unfolding count_approvals
check_approvals requester requirement approvals = do
  validate_requirement requirement
  reject
      (requirement.prohibit_requester
        && (trim_space requester =s "" || not (requester =s trim_space requester)))
      requester_not_canonical
  reject (is_below (count_approvals requester requirement [] approvals) requirement.minimum)
      insufficient_approvals
