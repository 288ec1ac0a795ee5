-- ===== src/Approval/Eligibility.antt =====
-- For internal/orchestration/executionguard/preflight.go: the changes that are eligible for a
-- job.
use control_center_developme.Prelude.{
  arith, Bool, err, false, inl, inr, is_ok, length, List, none, not, ok, Option, refl, Result,
  Result-cases, some, String, sym, true, ℕ, [], ◌++◌, ◌<◌, ◌==◌, ◌=s◌, =s_iff, ◌&&◌, ◌∙◌, ◌∷◌, ◌≡◌,
  ◌≤◌, ◌↔◌, ltb,
}
use control_center_developme.Approval.Policy.{allow, check_approvals, PolicyError}
use control_center_developme.Approval.Change.{approved}
use control_center_developme.Approval.Preflight.{
  add_if, Admission, admission, change_blockers, evaluate_preflight, Input, is_allow, is_approved,
  MaintenanceWindow, window_blockers,
}

-- The window is open, or none is required.
abbrev pub IsOpen : Option MaintenanceWindow → Bool → ℕ → Type 0
IsOpen (some window) required now = (window.starts_at ≤ now) × (now < window.ends_at)
IsOpen none required now = required ≡ false

-- Everything that makes a change eligible.
pub record IsEligible (input : Input) : Type 0 where
  pub approved_change : input.change.state ≡ approved
  pub allowed : input.change.decision.effect ≡ allow
  pub bound : input.change.revision_id ≡ input.revision.id
  pub current : input.current_revision_id ≡ input.change.revision_id
  pub accepted :
      check_approvals input.change.requester input.change.decision.requirement
        input.change.approvals
      ≡ ok tt
  pub open_window : IsOpen input.maintenance_window input.require_maintenance_window input.now

append_some :
    (blocker : String) (blockers : List String) → (length (blockers ++ (blocker ∷ [])) == 0) ≡ false
append_some blocker [] = ground arith
append_some blocker (b ∷ blockers) = ground arith

length-add_if :
    (test : Bool) (blocker : String) (blockers : List String)
    → (length (add_if test blocker blockers) == 0) ≡ (not test && (length blockers == 0))
unfolding add_if
length-add_if true blocker blockers = append_some blocker blockers
length-add_if false blocker blockers = refl

-- The change itself is ready.
abbrev is_ready : Input → Bool
is_ready input =
    is_ok (
      check_approvals input.change.requester input.change.decision.requirement
        input.change.approvals)
    && (input.current_revision_id =s input.change.revision_id
        && (input.change.revision_id =s input.revision.id
            && (is_allow input.change.decision.effect && is_approved input.change.state)))

negations_lem :
    (a b c d e : Bool)
    → (not (not a) && (not (not b) && (not (not c) && (not (not d) && (not (not e) && true)))))
      ≡ (a && (b && (c && (d && e))))
negations_lem a b c d e = ground arith

length-change_blockers : (input : Input) → (length (change_blockers input) == 0) ≡ is_ready input
unfolding change_blockers
length-change_blockers input =
    rw (length-add_if, length-add_if, length-add_if, length-add_if, length-add_if)
      (negations_lem
        (is_ok (
          check_approvals input.change.requester input.change.decision.requirement
            input.change.approvals))
        (input.current_revision_id =s input.change.revision_id)
        (input.change.revision_id =s input.revision.id) (is_allow input.change.decision.effect)
        (is_approved input.change.state))

is_ok-unit : (r : Result PolicyError (Unit {0})) → (is_ok r ≡ true) ↔ (r ≡ ok tt)
is_ok-unit (ok tt) = (λ h. refl, λ h. refl)
is_ok-unit (err e) = (λ h. absurd (cc), λ h. absurd (cc))

window_blockers-some :
    (window : MaintenanceWindow) (required : Bool) (now : ℕ) (blockers result : List String)
    → window_blockers (some window) required now blockers ≡ ok result
    → add_if
        (not (ltb now window.ends_at))
        "maintenance_window_closed"
        (add_if (ltb now window.starts_at) "maintenance_window_not_started" blockers)
      ≡ result
unfolding window_blockers
window_blockers-some window required now blockers result h = ground arith

window_blockers-none :
    (required : Bool) (now : ℕ) (blockers result : List String)
    → window_blockers none required now blockers ≡ ok result
    → add_if required "maintenance_window_required" blockers ≡ result
unfolding window_blockers
window_blockers-none required now blockers result h = cc h

window_blockers-IsOpen :
    (window : Option MaintenanceWindow) (required : Bool) (now : ℕ) (blockers result : List String)
    → window_blockers window required now blockers ≡ ok result
    → ((length result == 0) ≡ true) ↔ (IsOpen window required now × ((length blockers == 0) ≡ true))
window_blockers-IsOpen (some window) required now blockers result h =
    let e = window_blockers-some window required now blockers result h in
    let two =
      length-add_if (not (ltb now window.ends_at)) "maintenance_window_closed"
        (add_if (ltb now window.starts_at) "maintenance_window_not_started" blockers) in
    let one = length-add_if (ltb now window.starts_at) "maintenance_window_not_started" blockers in
    rw (sym e, two, one) (λ h. ground arith, λ h. ground arith)
window_blockers-IsOpen none required now blockers result h =
    let e = window_blockers-none required now blockers result h in
    let one = length-add_if required "maintenance_window_required" blockers in
    rw (sym e, one) (λ h. ground arith, λ h. ground arith)

evaluate_preflight-parts :
    (input : Input) (result : Admission)
    → evaluate_preflight input ≡ ok result
    → (blockers : List String) × (window_blockers input.maintenance_window
          input.require_maintenance_window input.now
          (change_blockers input)
        ≡ ok blockers)
      × (admission input blockers ≡ result)
unfolding evaluate_preflight
evaluate_preflight-parts input result h =
    elim (Result-cases (
      window_blockers input.maintenance_window input.require_maintenance_window input.now
        (change_blockers input))) [
          | inl (blockers, e) ↦ (blockers, e, ground arith)
          | inr (error, e) ↦ absurd (ground arith)
        ]

is_ready_iff :
    (input : Input)
    → (is_ready input ≡ true) ↔ (
        (input.change.state ≡ approved)
        × (input.change.decision.effect ≡ allow)
        × (input.change.revision_id ≡ input.revision.id)
        × (input.current_revision_id ≡ input.change.revision_id)
        × (check_approvals input.change.requester input.change.decision.requirement
              input.change.approvals
            ≡ ok tt))
is_ready_iff input =
    let bound = =s_iff input.change.revision_id input.revision.id in
    let current = =s_iff input.current_revision_id input.change.revision_id in
    let accepted = is_ok-unit (
      check_approvals input.change.requester input.change.decision.requirement
        input.change.approvals) in
    (λ h. ground (arith, bound, current, accepted), λ h. ground (arith, bound, current, accepted))

-- A preflight that is answered finds a change eligible exactly if it is approved and allowed, is
-- bound to the revision that is checked, which is still the current one, its approvals are accepted
-- and its maintenance window is open (or there is none and none is required); and it never
-- authorizes the execution.
pub evaluate_preflight-IsEligible :
    (input : Input) (result : Admission)
    → evaluate_preflight input ≡ ok result
    → ((result.eligible ≡ true) ↔ IsEligible input) × (result.execution_authorized ≡ false)
evaluate_preflight-IsEligible input result h =
    let (blockers, windows, e) = evaluate_preflight-parts input result h in
    let (to, fro) =
      window_blockers-IsOpen input.maintenance_window input.require_maintenance_window input.now
        (change_blockers input) blockers windows in
    let ready = length-change_blockers input in
    let (there, back) = is_ready_iff input in
    rw (sym e) (
      (
        λ none_left.
            let (opened, empty) = to none_left in
            let (state, effect, bound, current, accepted) = there (sym ready ∙ empty) in
            record {
              approved_change = state;
              allowed = effect;
              bound = bound;
              current = current;
              accepted = accepted;
              open_window = opened;
            },
        λ all. fro (
          all.open_window,
          ready ∙ back (all.approved_change, all.allowed, all.bound, all.current, all.accepted),
        ),
      ),
      refl,
    )
