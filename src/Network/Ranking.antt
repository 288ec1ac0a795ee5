-- ===== src/Network/Ranking.antt =====
-- For internal/networkpolicy/change_machine.go: how many events can move a machine.
use control_center_developme.Prelude.{
  ℕ, ◌+◌, ◌-◌, ◌≤◌, ◌<◌, String, ◌≡◌, refl, sym, inl, inr, Bool, true, false, ◌&&◌, Option, none,
  some, arith, List, [], ◌∷◌, length, ok, ◌⊎◌, ltb, Result-cases, >>=-eq-ok, find, Option-cases,
  Bool-cases, if◌then◌else◌,
}
use control_center_developme.Network.Policy.{NetworkError}
use control_center_developme.Network.Plan.{ChangePlan}
use control_center_developme.Network.Machine.{
  ChangeState, snapshot_pending, preflight, apply_window, probing, rollback_pending,
  terminal_change, ChangeEvent, EventType, ChangeMachine, MachinePlatform, new_change_machine,
  dispatch, transition, check_event, record_event, apply_new, apply_seen, applied, apply_event,
  validate_event, initial_machine,
}
use control_center_developme.Network.Invariant.{IsSafe, transition-IsSafe}
use control_center_developme.Network.Counting.{length-le-length}
use control_center_developme.Network.Runs.{
  run_events, apply_seen-old, apply_new-IsSafe, validate_event-dated, new_change_machine-IsSafe,
  new_change_machine-parts,
}

-- The number of events that can still move a machine, at most.
abbrev pub rank_of : ChangeState → ℕ → ℕ → ℕ
rank_of snapshot_pending probes passed = probes + 4
rank_of preflight probes passed = probes + 3
rank_of apply_window probes passed = probes + 2
rank_of probing probes passed = (probes - passed) + 1
rank_of rollback_pending probes passed = 1
rank_of _ probes passed = 0

abbrev pub rank : ChangeMachine → ℕ
rank m = rank_of m.snapshot.state (length m.plan.probes) (length m.passed)

abbrev pub is_probing : ChangeState → Bool
is_probing probing = true
is_probing _ = false

-- A plan has a probe, and while a machine probes, one of them is left.
pub record IsUnfinished (m : ChangeMachine) : Type 0 where
  pub safe : IsSafe m
  pub some_probe : 0 < length m.plan.probes
  pub left : is_probing m.snapshot.state ≡ true → length m.passed < length m.plan.probes

dispatch-left :
    (state : ChangeState) (type : EventType) (event : ChangeEvent) (m next : ChangeMachine)
    → m.snapshot.state ≡ state
    → IsUnfinished m
    → dispatch state type event m ≡ ok next
    → length next.passed ≤ length m.plan.probes
    → is_probing next.snapshot.state ≡ true
    → length next.passed < length m.plan.probes
unfolding dispatch
dispatch-left state type event m next e s h bound p =
    let pos = s.some_probe in
    let empty = s.safe.phase.untouched in let left = s.left in ground arith

dispatch-rank :
    (state : ChangeState) (type : EventType) (event : ChangeEvent) (m next : ChangeMachine)
    → m.snapshot.state ≡ state
    → IsUnfinished m
    → dispatch state type event m ≡ ok next
    → length next.passed ≤ length m.plan.probes
    → rank next < rank m
unfolding dispatch
dispatch-rank state type event m next e s h bound =
    let pos = s.some_probe in
    let empty = s.safe.phase.untouched in let left = s.left in ground arith

IsSafe-bound : (m : ChangeMachine) → IsSafe m → length m.passed ≤ length m.plan.probes
IsSafe-bound m s = length-le-length m.plan.probes m.passed s.passed.distinct s.passed.known

transition-rank :
    (event : ChangeEvent) (m next : ChangeMachine)
    → 0 < event.at
    → IsUnfinished m
    → transition event m ≡ ok next
    → (rank next < rank m) × IsUnfinished next
unfolding transition
transition-rank event m next p s h =
    let (safe, same) = transition-IsSafe event m next p s.safe h in
    let bound : length next.passed ≤ length m.plan.probes =
      rw (sym same) (IsSafe-bound next safe) in
    (
      dispatch-rank m.snapshot.state event.type event m next refl s h bound,
      record {
        safe = safe;
        some_probe = rw same (s.some_probe);
        left =
            λ e. rw same (dispatch-left m.snapshot.state event.type event m next refl s h bound e);
      },
    )

abbrev pub is_accepted : Option NetworkError → Bool
is_accepted none = true
is_accepted (some e) = false

abbrev pub is_new : Option String → Bool
is_new none = true
is_new (some digest) = false

module _ (platform : MachinePlatform) where
  -- Whether a call of Apply moves the machine: it reports no error, and its event is new.
  abbrev pub moves : ChangeEvent → ℕ → ChangeMachine → Bool
  moves event version m =
      is_accepted (apply_event platform event version m).2
      && is_new (find event.id m.processed_events)

  -- The number of calls in a run that move the machine.
  unfoldable pub count_moves : List (ChangeEvent × ℕ) → ChangeMachine → ℕ
  count_moves [] m = 0
  count_moves ((event, version) ∷ events) m =
      let rest = count_moves events (apply_event platform event version m).0 in
      if moves event version m then rest + 1 else rest

  apply_new-rank :
      (event : ChangeEvent) (version : ℕ) (m next : ChangeMachine)
      → 0 < event.at
      → IsUnfinished m
      → apply_new platform event version m ≡ ok next
      → (rank next < rank m) × IsUnfinished next
  unfolding apply_new
  apply_new-rank event version m next p s h =
      let (u, checked, rest) = >>=-eq-ok (check_event event version m) _ next h in
      let (moved, step, e) = >>=-eq-ok (transition event m) _ next rest in
      let done : record_event platform event moved ≡ next = cc e in
      let (below, open_moved) = transition-rank event m moved p s step in
      let (safe, same) = apply_new-IsSafe platform event version m next p s.safe h in
      rw (sym done) (
        below,
        record { safe = rw done safe; some_probe = open_moved.some_probe; left = open_moved.left },
      )

  applied-rank :
      (event : ChangeEvent) (version : ℕ) (m next : ChangeMachine)
      → IsUnfinished m
      → applied platform event version m ≡ ok next
      → ((if is_new (find event.id m.processed_events) then rank next + 1 else rank next) ≤ rank m)
        × IsUnfinished next
  unfolding applied apply_seen
  applied-rank event version m next s h =
      let (u, valid, rest) = >>=-eq-ok (validate_event event) _ next h in
      elim (Option-cases (find event.id m.processed_events)) [
        | inl e ↦
            let (below, later) =
              apply_new-rank event version m next (validate_event-dated platform event valid) s
                (rw e at rest) in
            rw e (omega (arith, below), later)
        | inr (digest, e) ↦
            let same : m ≡ next =
              apply_seen-old platform event version m next digest (rw e at rest) in
            rw (e, sym same) (omega arith, s)
      ]

  apply_event-rank :
      (event : ChangeEvent) (version : ℕ) (m : ChangeMachine)
      → IsUnfinished m
      → ((if moves event version m
            then rank (apply_event platform event version m).0 + 1
            else rank (apply_event platform event version m).0)
          ≤ rank m)
        × IsUnfinished (apply_event platform event version m).0
  unfolding apply_event
  apply_event-rank event version m s = elim (Result-cases (applied platform event version m)) [
    | inl (next, h) ↦ rw (h, apply_event) (applied-rank event version m next s h)
    | inr (e, h) ↦ rw (h, apply_event) (omega arith, s)
  ]

  count_moves-rank :
      (events : List (ChangeEvent × ℕ)) (m : ChangeMachine)
      → IsUnfinished m
      → count_moves events m + rank (run_events platform events m) ≤ rank m
  unfolding count_moves run_events
  count_moves-rank [] m s = omega arith
  count_moves-rank ((event, version) ∷ events) m s =
      let (one, later) = apply_event-rank event version m s in
      let rest = count_moves-rank events (apply_event platform event version m).0 later in
      elim (Bool-cases (moves event version m)) [
        | inl e ↦ rw e (omega (arith, rest, rw e at one))
        | inr e ↦ rw e (omega (arith, rest, rw e at one))
      ]

  rank-terminal : (m : ChangeMachine) → rank m ≡ 0 → terminal_change m.snapshot.state ≡ true
  unfolding terminal_change
  rank-terminal m h = ground arith

  initial-rank :
      (plan : ChangePlan) (now : ℕ) → rank (initial_machine plan now) ≡ length plan.probes + 4
  initial-rank plan now = refl

  -- Of the events that a machine is given after its start with a plan that has a probe, fewer than
  -- four more than the plan has probes move it, or exactly that many do and it is in a terminal
  -- state.
  pub count_moves-bound :
      (plan : ChangePlan) (now : ℕ) (m : ChangeMachine) (events : List (ChangeEvent × ℕ))
      → 0 < length plan.probes
      → new_change_machine platform plan now ≡ ok m
      → (count_moves events m < length plan.probes + 4)
        ⊎ ((count_moves events m ≡ length plan.probes + 4)
            × (terminal_change (run_events platform events m).snapshot.state ≡ true))
  count_moves-bound plan now m events some_probe h =
      let (start, same) = new_change_machine-IsSafe platform plan now m h in
      let (dated, matches, initial) = new_change_machine-parts platform plan now m h in
      let begins : rank m ≡ length plan.probes + 4 = rw (sym initial) (initial-rank plan now) in
      let unfinished : IsUnfinished m = record {
        safe = start;
        some_probe = rw same some_probe;
        left = rw (sym initial) (λ e. cc);
      } in
      let bound = count_moves-rank events m unfinished in
      elim (Bool-cases (ltb (count_moves events m) (length plan.probes + 4))) [
        | inl e ↦ inl (ground arith)
        | inr e ↦
            let full : length plan.probes + 4 ≤ count_moves events m = ground arith in
            inr (
              omega (arith, bound, begins, full),
              rank-terminal (run_events platform events m) (omega (arith, bound, begins, full)),
            )
      ]
