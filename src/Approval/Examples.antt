-- ===== src/Approval/Examples.antt =====
-- A change of high risk with its approval.
use control_center_developme.Prelude.Ints.{pos}
use control_center_developme.Prelude.Sort.{insert_sorted, sort}
use control_center_developme.Prelude.Text.{trim_space}
use control_center_developme.Prelude.{any, false, some, ◌↔◌, List, ok, refl, true, [], ◌∷◌, ◌≡◌}
use control_center_developme.Approval.Policy.{
  allow, Approval, check_approvals, contains, count_approvals, Decision, high, is_skipped,
  lacks_permission, search, string_less, validate_decision, validate_requirement,
}
use control_center_developme.Approval.Quorum.{check_approvals-HasQuorum, HasQuorum}
use control_center_developme.Approval.Change.{
  approved, add_approval, allowed_change, approve, approving, Call, change_state, executing,
  initial_state, moving, new_change, pending_approval, queued, run, Snapshot, step, succeeded,
}
use control_center_developme.Approval.Preflight.{
  add_if, Admission, admission, change_blockers, evaluate_preflight, Input, normalize_window,
  validate_change, window_blockers,
}
use control_center_developme.Approval.Eligibility.{evaluate_preflight-IsEligible, IsEligible}
use control_center_developme.Approval.Authority.{is_authorized, IsAuthorized, run-IsAuthorized}
use control_center_developme.Approval.Endings.{run-keeps_final}

abbrev decision_1 : Decision
decision_1 = record {
  effect = allow;
  risk = high;
  reason = "risk threshold policy satisfied";
  requirement = record {
    minimum = pos 1;
    permission = "changes.approve";
    distinct_actors = true;
    prohibit_requester = true;
  };
  policy_id = "policy-1";
}

abbrev approval_1 : Approval
approval_1 = record {
  actor = "bob";
  permissions = "audit.read" ∷ "changes.approve" ∷ [];
  approved_at = 6;
}

abbrev change_1 : Snapshot
change_1 = record {
  id = "change-1";
  action = "node.drain";
  requester = "alice";
  revision_id = "revision-1";
  risk = high;
  state = pending_approval;
  decision = decision_1;
  approvals = [];
  version = 1;
  updated_at = 5;
}

change_made : new_change "change-1" "node.drain" "alice" "revision-1" decision_1 5 ≡ ok change_1
unfolding new_change initial_state validate_decision validate_requirement trim_space
change_made = refl

abbrev calls_1 : List Call
calls_1 = approving approval_1 1 6 ∷ moving queued 2 7 ∷ moving executing 3 8 ∷ []

change_authorized : is_authorized (run calls_1 change_1).state ≡ true
unfolding run step approve add_approval change_state allowed_change check_approvals count_approvals
    is_skipped lacks_permission contains search string_less sort insert_sorted validate_requirement
    trim_space any
change_authorized = refl

approval_accepted : check_approvals "alice" decision_1.requirement (approval_1 ∷ []) ≡ ok tt
unfolding check_approvals count_approvals is_skipped lacks_permission contains search string_less
    sort insert_sorted validate_requirement trim_space any
approval_accepted = refl

check_approvals-HasQuorum_example : HasQuorum "alice" decision_1.requirement (approval_1 ∷ [])
check_approvals-HasQuorum_example =
    check_approvals-HasQuorum "alice" decision_1.requirement (approval_1 ∷ []) approval_accepted

run-IsAuthorized_example : IsAuthorized "alice" decision_1 (run calls_1 change_1)
run-IsAuthorized_example =
    run-IsAuthorized "change-1" "node.drain" "alice" "revision-1" decision_1 5 change_1 calls_1
      change_made change_authorized

abbrev ended : Snapshot
ended = record change_1 { state = succeeded }

run-keeps_final_example : run calls_1 ended ≡ ended
run-keeps_final_example = run-keeps_final calls_1 ended refl

abbrev preflight_1 : Input
preflight_1 = record {
  change = record change_1 { state = approved; approvals = approval_1 ∷ [] };
  revision = record { id = "revision-1"; digest = "digest" };
  current_revision_id = "revision-1";
  require_maintenance_window = true;
  maintenance_window = some (record { starts_at = 5; ends_at = 60000000005 });
  now = 6;
}

abbrev admitted : Admission
admitted = admission preflight_1 []

preflight_answered : evaluate_preflight preflight_1 ≡ ok admitted
unfolding evaluate_preflight validate_change normalize_window window_blockers change_blockers add_if
    check_approvals count_approvals is_skipped lacks_permission contains search string_less sort
    insert_sorted validate_requirement validate_decision trim_space any
preflight_answered = refl

evaluate_preflight-IsEligible_example :
    ((admitted.eligible ≡ true) ↔ IsEligible preflight_1) × (admitted.execution_authorized ≡ false)
evaluate_preflight-IsEligible_example =
    evaluate_preflight-IsEligible preflight_1 admitted preflight_answered
