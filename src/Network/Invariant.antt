-- ===== src/Network/Invariant.antt =====
-- For internal/networkpolicy/change_machine.go: the invariant of a machine between two events.
use control_center_developme.Prelude.{
  ◌<◌, String, ◌≡◌, refl, sym, ◌⊎◌, inl, inr, Bool, true, false, arith, List, [], ◌∷◌, length, ok,
  All,
}
use mathlib.Core.Path.{subst}
use control_center_developme.Network.Plan.{
  ConnectivityProbe, ChangePlan, TimeoutPolicy, validate_timeouts,
}
use control_center_developme.Network.Machine.{
  ChangeState, snapshot_pending, preflight, apply_window, committed, terminal_change, ChangeEvent,
  EventType, ChangeMachine, contains, has_probe, dispatch, transition,
}

-- No id stands twice.
abbrev pub Distinct : List String → Type 0
Distinct [] = Unit
Distinct (id ∷ ids) = (contains id ids ≡ false) × Distinct ids

-- The phases before the temporary change is applied.
abbrev pub before_apply : ChangeState → Bool
before_apply snapshot_pending = true
before_apply preflight = true
before_apply apply_window = true
before_apply _ = false

abbrev pub is_committed : ChangeState → Bool
is_committed committed = true
is_committed _ = false

-- The set of passed probes: distinct, and of the plan.
pub record PassedIsSafe (probes : List ConnectivityProbe) (passed : List String) : Type 0 where
  pub distinct : Distinct passed
  pub known : All (λ id. has_probe id probes ≡ true) passed

-- Phases, deadlines and the number of passed probes.
pub record PhaseIsSafe (m : ChangeMachine) : Type 0 where
  pub complete : is_committed m.snapshot.state ≡ true → length m.passed ≡ length m.plan.probes
  pub untouched : before_apply m.snapshot.state ≡ true → m.passed ≡ []
  pub stopped : terminal_change m.snapshot.state ≡ true → m.snapshot.deadline ≡ 0
  pub due : terminal_change m.snapshot.state ≡ false → 0 < m.snapshot.deadline

pub record IsSafe (m : ChangeMachine) : Type 0 where
  pub passed : PassedIsSafe m.plan.probes m.passed
  pub phase : PhaseIsSafe m
  pub timed : validate_timeouts m.plan.timeouts ≡ ok tt

-- The timeouts of a plan are positive.
abbrev pub IsTimed : TimeoutPolicy → Type 0
IsTimed t =
    (0 < t.snapshot) × (0 < t.preflight) × (0 < t.apply_window) × (0 < t.probe) × (0 < t.rollback)

pub validate_timeouts-IsTimed : (t : TimeoutPolicy) → validate_timeouts t ≡ ok tt → IsTimed t
unfolding validate_timeouts
validate_timeouts-IsTimed t h = ground arith

-- A phase changes the set of passed probes by at most one new probe of the plan.
abbrev pub PassesOne : ChangeEvent → ChangeMachine → ChangeMachine → Type 0
PassesOne event m next =
    (next.passed ≡ event.probe_id ∷ m.passed)
    × (has_probe event.probe_id m.plan.probes ≡ true)
    × (contains event.probe_id m.passed ≡ false)

dispatch-passed :
    (state : ChangeState) (type : EventType) (event : ChangeEvent) (m next : ChangeMachine)
    → dispatch state type event m ≡ ok next
    → (next.plan ≡ m.plan) × ((next.passed ≡ m.passed) ⊎ PassesOne event m next)
unfolding dispatch
dispatch-passed state type event m next h = ground arith

dispatch-PhaseIsSafe :
    (state : ChangeState) (type : EventType) (event : ChangeEvent) (m next : ChangeMachine)
    → m.snapshot.state ≡ state
    → 0 < event.at
    → PhaseIsSafe m
    → IsTimed m.plan.timeouts
    → dispatch state type event m ≡ ok next
    → PhaseIsSafe next
unfolding dispatch terminal_change
dispatch-PhaseIsSafe state type event m next e p s t h = ground arith

PassesOne-PassedIsSafe :
    (event : ChangeEvent) (m next : ChangeMachine)
    → PassedIsSafe m.plan.probes m.passed
    → PassesOne event m next
    → PassedIsSafe m.plan.probes next.passed
PassesOne-PassedIsSafe event m next s (grown, known, new) =
    subst (λ (ids : List String). PassedIsSafe m.plan.probes ids) (sym grown)
      (record { distinct = (new, s.distinct); known = (known, s.known) })

pub transition-IsSafe :
    (event : ChangeEvent) (m next : ChangeMachine)
    → 0 < event.at
    → IsSafe m
    → transition event m ≡ ok next
    → IsSafe next × (next.plan ≡ m.plan)
unfolding transition
transition-IsSafe event m next p s h =
    let (same, passed) = dispatch-passed m.snapshot.state event.type event m next h in
    let kept : PassedIsSafe m.plan.probes next.passed = elim passed [
      | inl e ↦ subst (λ (ids : List String). PassedIsSafe m.plan.probes ids) (sym e) s.passed
      | inr one ↦ PassesOne-PassedIsSafe event m next s.passed one
    ] in
    (
      record {
        passed =
            subst (λ (plan : ChangePlan). PassedIsSafe plan.probes next.passed) (sym same) kept;
        phase =
            dispatch-PhaseIsSafe m.snapshot.state event.type event m next refl p s.phase
              (validate_timeouts-IsTimed m.plan.timeouts s.timed) h;
        timed =
            subst (λ (plan : ChangePlan). validate_timeouts plan.timeouts ≡ ok tt) (sym same)
              s.timed;
      },
      same,
    )
