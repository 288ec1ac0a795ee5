-- ===== src/Approval/Authority.antt =====
-- For internal/orchestration/change/change.go: the states of a change and its approvals, through
-- any calls.
use mathlib.Core.Path.{subst}
use control_center_developme.Prelude.Ints.{is_positive}
use control_center_developme.Prelude.{
  ap, arith, Bool, err, false, inl, inr, is_ok, List, ok, refl, Result, Result-cases, String, sym,
  true, ℕ, [], ◌++◌, ◌∙◌, ◌∷◌, ◌≡◌, ◌⊎◌,
}
use control_center_developme.Approval.Policy.{
  allow, Approval, check_approvals, Decision, Effect, PolicyError,
}
use control_center_developme.Approval.Quorum.{check_approvals-HasQuorum, HasQuorum}
use control_center_developme.Approval.Change.{
  add_approval, allowed_change, approve, approved, approving, Call, change_state, executing,
  initial_state, moving, new_change, pending_approval, queued, rejected, run, Snapshot, State, step,
  succeeded, verifying,
}

-- The states that only an approved change comes to.
abbrev pub is_authorized : State → Bool
is_authorized approved = true
is_authorized queued = true
is_authorized executing = true
is_authorized verifying = true
is_authorized succeeded = true
is_authorized _ = false

-- No approval is required, or the approvals are accepted.
abbrev IsApproved : Snapshot → Type 0
IsApproved m =
    (is_positive m.decision.requirement.minimum ≡ false)
    ⊎ (check_approvals m.requester m.decision.requirement m.approvals ≡ ok tt)

-- What holds of every machine between two calls.
record IsLawful (requester : String) (decision : Decision) (m : Snapshot) : Type 0 where
  same_requester : m.requester ≡ requester
  same_decision : m.decision ≡ decision
  allowed : (is_authorized m.state ≡ true ⊎ m.state ≡ pending_approval) → decision.effect ≡ allow
  approval : is_authorized m.state ≡ true → IsApproved m

is_ok-unit : (r : Result PolicyError (Unit {0})) → is_ok r ≡ true → r ≡ ok tt
is_ok-unit (ok tt) h = refl
is_ok-unit (err e) h = absurd (cc)

initial_state-cases :
    (decision : Decision) (effect : Effect)
    → ((effect ≡ allow)
        × ((is_positive decision.requirement.minimum ≡ false)
            ⊎ (is_authorized (initial_state decision effect) ≡ false)))
      ⊎ (initial_state decision effect ≡ rejected)
unfolding initial_state
initial_state-cases decision effect = ground arith

new_change-starts :
    (id action requester revision_id : String) (decision : Decision) (now : ℕ) (m : Snapshot)
    → new_change id action requester revision_id decision now ≡ ok m
    → (m.requester ≡ requester)
      × (m.decision ≡ decision)
      × (m.state ≡ initial_state decision decision.effect)
unfolding new_change
new_change-starts id action requester revision_id decision now m h = ground arith

new_change-IsLawful :
    (id action requester revision_id : String) (decision : Decision) (now : ℕ) (m : Snapshot)
    → new_change id action requester revision_id decision now ≡ ok m
    → IsLawful requester decision m
new_change-IsLawful id action requester revision_id decision now m h =
    let (who, what, where_to) =
      new_change-starts id action requester revision_id decision now m h in
    let start = initial_state-cases decision decision.effect in
    record {
      same_requester = who;
      same_decision = what;
      allowed = λ s. ground (arith, where_to, start, s);
      approval = λ s. rw what (ground (arith, where_to, start, s));
    }

change_state-moves :
    (to : State) (version now : ℕ) (m next : Snapshot)
    → change_state to version now m ≡ ok next
    → (allowed_change m.state to ≡ true)
      × (next.state ≡ to)
      × (next.requester ≡ m.requester)
      × (next.decision ≡ m.decision)
      × (next.approvals ≡ m.approvals)
unfolding change_state
change_state-moves to version now m next h = ground arith

allowed_change-authorized :
    (from to : State)
    → allowed_change from to ≡ true
    → ((is_authorized to ≡ true) ⊎ (to ≡ pending_approval))
    → is_authorized from ≡ true
unfolding allowed_change
allowed_change-authorized from to h s = ground arith

change_state-IsLawful :
    (requester : String) (decision : Decision) (to : State) (version now : ℕ) (m next : Snapshot)
    → change_state to version now m ≡ ok next
    → IsLawful requester decision m
    → IsLawful requester decision next
change_state-IsLawful requester decision to version now m next h l =
    let (edge, there, who, what, votes) = change_state-moves to version now m next h in
    let source : (is_authorized next.state ≡ true ⊎ next.state ≡ pending_approval)
        → is_authorized m.state ≡ true =
      λ s. allowed_change-authorized m.state to edge (rw there at s) in
    record {
      same_requester = who ∙ l.same_requester;
      same_decision = what ∙ l.same_decision;
      allowed = λ s. l.allowed (inl (source s));
      approval = λ s. rw (who, what, votes) (l.approval (source (inl s)));
    }

approve-parts :
    (approval : Approval) (version now : ℕ) (m next : Snapshot)
    → approve approval version now m ≡ ok next
    → (m.state ≡ pending_approval) × (add_approval approval now m ≡ next)
unfolding approve
approve-parts approval version now m next h = ground arith

add_approval-IsLawful :
    (requester : String) (decision : Decision) (approval : Approval) (now : ℕ) (m : Snapshot)
    → m.state ≡ pending_approval
    → IsLawful requester decision m
    → IsLawful requester decision (add_approval approval now m)
unfolding add_approval
add_approval-IsLawful requester decision approval now m pending l = record {
  same_requester = l.same_requester;
  same_decision = l.same_decision;
  allowed = λ s. l.allowed (inr pending);
  approval = λ s. inr (
      is_ok-unit
        (check_approvals m.requester m.decision.requirement (m.approvals ++ (approval ∷ [])))
        (ground arith));
}

step-IsLawful :
    (requester : String) (decision : Decision) (call : Call) (m : Snapshot)
    → IsLawful requester decision m
    → IsLawful requester decision (step call m)
unfolding step
step-IsLawful requester decision (approving approval version now) m l =
    elim (Result-cases (approve approval version now m)) [
      | inl (next, e) ↦
          let (pending, added) = approve-parts approval version now m next e in
          rw e (
            subst (IsLawful requester decision) added
              (add_approval-IsLawful requester decision approval now m pending l))
      | inr (error, e) ↦ rw e l
    ]
step-IsLawful requester decision (moving to version now) m l =
    elim (Result-cases (change_state to version now m)) [
      | inl (next, e) ↦ rw e (change_state-IsLawful requester decision to version now m next e l)
      | inr (error, e) ↦ rw e l
    ]

run-IsLawful :
    (requester : String) (decision : Decision) (calls : List Call) (m : Snapshot)
    → IsLawful requester decision m
    → IsLawful requester decision (run calls m)
unfolding run
run-IsLawful requester decision [] m l = l
run-IsLawful requester decision (call ∷ calls) m l =
    run-IsLawful requester decision calls (step call m) (step-IsLawful requester decision call m l)

accepted_lem :
    (requester : String) (decision : Decision) (m : Snapshot)
    → IsLawful requester decision m
    → is_authorized m.state ≡ true
    → is_positive decision.requirement.minimum ≡ true
    → check_approvals requester decision.requirement m.approvals ≡ ok tt
accepted_lem requester decision m l s asked = elim (l.approval s) [
  | inl none_asked ↦ absurd (
      cc (
        asked,
        none_asked,
        ap (λ (d : Decision). is_positive d.requirement.minimum) l.same_decision,
      ))
  | inr accepted ↦
      ap (λ (d : Decision). check_approvals requester d.requirement m.approvals)
        (sym l.same_decision)
      ∙ ap (λ (who : String). check_approvals who m.decision.requirement m.approvals)
          (sym l.same_requester)
      ∙ accepted
]

-- The approvals of a change, and what its decision asks for.
pub record IsAuthorized (requester : String) (decision : Decision) (m : Snapshot) : Type 0 where
  pub allowed : decision.effect ≡ allow
  pub quorum :
      is_positive decision.requirement.minimum ≡ true
      → HasQuorum requester decision.requirement m.approvals

-- A change that New has made and that, behind any calls of Approve and Transition, failing ones
-- included, is approved, queued, executing, verifying or succeeded, was allowed by its decision,
-- and where the decision asks for approvals, its approvals contain a quorum for its requester.
pub run-IsAuthorized :
    (id action requester revision_id : String) (decision : Decision) (now : ℕ) (m : Snapshot)
    (calls : List Call)
    → new_change id action requester revision_id decision now ≡ ok m
    → is_authorized (run calls m).state ≡ true
    → IsAuthorized requester decision (run calls m)
run-IsAuthorized id action requester revision_id decision now m calls h s =
    let start = new_change-IsLawful id action requester revision_id decision now m h in
    let l = run-IsLawful requester decision calls m start in
    record {
      allowed = l.allowed (inl s);
      quorum = λ asked.
          check_approvals-HasQuorum requester decision.requirement (run calls m).approvals
            (accepted_lem requester decision (run calls m) l s asked);
    }
