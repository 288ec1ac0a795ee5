-- ===== src/Network/Steps.antt =====
-- For internal/networkpolicy/change_machine.go: one call of Apply, with the edges of the phases,
-- replays of an event, and timeouts.
use mathlib.Core.Path.{subst}
use control_center_developme.Prelude.{
  ℕ, ◌+◌, ◌%◌, ◌≤◌, String, ◌≡◌, refl, ◌≢◌, ◌⊎◌, inl, inr, true, false, Option, none, some, arith,
  ◌=s◌, =s_iff, =s_refl, Bool-cases, Result-cases, ok, find, put, find-put, >>=-eq-ok,
}
use control_center_developme.Network.Policy.{NetworkError, event_idempotency_conflict}
use control_center_developme.Network.Machine.{
  ChangeState, snapshot_pending, preflight, apply_window, probing, rollback_pending, committed,
  rolled_back, failed_closed, terminal_change, ChangeEvent, EventType, phase_timed_out, is_timeout,
  ChangeMachine, MachinePlatform, dispatch, transition, check_event, record_event, apply_new,
  apply_seen, applied, apply_event, validate_event,
}

-- The edges of the machine's phases.
pub data Phase : ChangeState → ChangeState → Type 0 where
  capture : Phase snapshot_pending preflight
  no_snapshot : Phase snapshot_pending failed_closed
  pass_preflight : Phase preflight apply_window
  fail_preflight : Phase preflight failed_closed
  apply_change : Phase apply_window probing
  close_window : Phase apply_window rollback_pending
  probe_more : Phase probing probing
  commit_change : Phase probing committed
  fail_probe : Phase probing rollback_pending
  roll_back : Phase rollback_pending rolled_back
  lose : Phase rollback_pending failed_closed

ruleset phases = (
  capture, no_snapshot, pass_preflight, fail_preflight, apply_change, close_window, probe_more,
  commit_change, fail_probe, roll_back, lose,
)

dispatch-Phase :
    (state : ChangeState) (type : EventType) (event : ChangeEvent) (m next : ChangeMachine)
    → m.snapshot.state ≡ state
    → dispatch state type event m ≡ ok next
    → Phase state next.snapshot.state
unfolding dispatch
dispatch-Phase state type event m next e h = grind (arith, phases)

-- An event that is new moves the machine along one edge.
pub record IsMove (event : ChangeEvent) (expected_version : ℕ) (digest : String)
    (m next : ChangeMachine) : Type 0 where
  pub new : find event.id m.processed_events ≡ none
  pub expected : m.snapshot.version ≡ expected_version
  pub edge : Phase m.snapshot.state next.snapshot.state
  pub counted : next.snapshot.version ≡ (m.snapshot.version + 1) % 18446744073709551616
  pub updated : next.snapshot.updated_at ≡ event.at
  pub forward : m.snapshot.updated_at ≤ event.at
  pub in_time : is_timeout event.type ≡ false → event.at ≤ m.snapshot.deadline
  pub overdue : is_timeout event.type ≡ true → m.snapshot.deadline ≤ event.at
  pub recorded : next.processed_events ≡ put event.id digest m.processed_events

dispatch-keeps :
    (state : ChangeState) (type : EventType) (event : ChangeEvent) (m next : ChangeMachine)
    → dispatch state type event m ≡ ok next
    → (next.snapshot.version ≡ m.snapshot.version) × (next.processed_events ≡ m.processed_events)
unfolding dispatch
dispatch-keeps state type event m next h = ground arith

check_event-parts :
    (event : ChangeEvent) (version : ℕ) (m : ChangeMachine) {u : Unit {0}}
    → check_event event version m ≡ ok u
    → (m.snapshot.version ≡ version)
      × (m.snapshot.updated_at ≤ event.at)
      × (is_timeout event.type ≡ false → event.at ≤ m.snapshot.deadline)
      × (is_timeout event.type ≡ true → m.snapshot.deadline ≤ event.at)
unfolding check_event
check_event-parts event version m h = ground arith

module _ (platform : MachinePlatform) where
  open platform use {event_digest}

  apply_new-IsMove :
      (event : ChangeEvent) (version : ℕ) (m next : ChangeMachine)
      → find event.id m.processed_events ≡ none
      → apply_new platform event version m ≡ ok next
      → IsMove event version (event_digest event) m next
  unfolding apply_new transition
  apply_new-IsMove event version m next new h =
      let (u, checked, rest) = >>=-eq-ok (check_event event version m) _ next h in
      let (moved, step, e) = >>=-eq-ok (transition event m) _ next rest in
      let done : record_event platform event moved ≡ next = cc e in
      let (expected, forward, in_time, overdue) = check_event-parts event version m checked in
      let (same, seen) = dispatch-keeps m.snapshot.state event.type event m moved step in
      subst (λ (n : ChangeMachine). IsMove event version (event_digest event) m n) done
        (record {
          new = new;
          expected = expected;
          edge = dispatch-Phase m.snapshot.state event.type event m moved refl step;
          counted = rw same;
          updated = refl;
          forward = forward;
          in_time = in_time;
          overdue = overdue;
          recorded = rw seen;
        })

  -- What Apply makes of a machine when it succeeds: nothing on an event that it has seen, else a
  -- move.
  abbrev pub Accepts : ChangeEvent → ℕ → ChangeMachine → ChangeMachine → Type 0
  Accepts event version m next =
      ((find event.id m.processed_events ≡ some (event_digest event)) × (next ≡ m))
      ⊎ IsMove event version (event_digest event) m next

  apply_seen-Accepts :
      (event : ChangeEvent) (version : ℕ) (m next : ChangeMachine) (seen : Option String)
      → find event.id m.processed_events ≡ seen
      → apply_seen platform event version m seen ≡ ok next
      → Accepts event version m next
  apply_seen-Accepts event version m next (some previous) e h =
      inl (unfold apply_seen in ground (arith, =s_iff previous (event_digest event)))
  apply_seen-Accepts event version m next none e h =
      inr (apply_new-IsMove event version m next e (unfold apply_seen in h))

  applied-Accepts :
      (event : ChangeEvent) (version : ℕ) (m next : ChangeMachine)
      → applied platform event version m ≡ ok next
      → (validate_event event ≡ ok tt) × Accepts event version m next
  unfolding applied
  applied-Accepts event version m next h =
      let (u, valid, rest) = >>=-eq-ok (validate_event event) _ next h in
      (valid, apply_seen-Accepts event version m next (find event.id m.processed_events) refl rest)

  -- A call of Apply either reports an error and leaves the machine as it was, or it reports none
  -- and is a replay of an event that it has seen, which changes nothing, or a move: a new event, at
  -- the version that the caller expects, not before the last one, within the deadline of the phase
  -- (a timeout not before it), that takes one edge, raises the version by one and is recorded.
  pub apply_event-cases :
      (event : ChangeEvent) (version : ℕ) (m : ChangeMachine)
      → ((e : NetworkError) × ((apply_event platform event version m).2 ≡ some e)
          × ((apply_event platform event version m).0 ≡ m))
        ⊎ (((apply_event platform event version m).2 ≡ none)
            × Accepts event version m (apply_event platform event version m).0)
  unfolding apply_event
  apply_event-cases event version m = elim (Result-cases (applied platform event version m)) [
    | inl (next, h) ↦
        inr (
          rw (h, apply_event) refl,
          rw (h, apply_event) ((applied-Accepts event version m next h).1),
        )
    | inr (e, h) ↦ inl (e, rw (h, apply_event) refl, rw (h, apply_event) refl)
  ]

  Accepts-find :
      (event : ChangeEvent) (version : ℕ) (m next : ChangeMachine)
      → Accepts event version m next
      → find event.id next.processed_events ≡ some (event_digest event)
  Accepts-find event version m next (inl (seen, same)) = rw same seen
  Accepts-find event version m next (inr move) = rw (move.recorded, find-put, =s_refl)

  applied-seen :
      (event : ChangeEvent) (version : ℕ) (m : ChangeMachine)
      → validate_event event ≡ ok tt
      → find event.id m.processed_events ≡ some (event_digest event)
      → applied platform event version m ≡ ok m
  unfolding applied apply_seen
  applied-seen event version m valid seen = rw (valid, seen, =s_refl)

  -- An event that was accepted is accepted again, at whatever version the caller expects, and
  -- changes nothing.
  pub apply_event-replay :
      (event : ChangeEvent) (version version' : ℕ) (m : ChangeMachine)
      → (apply_event platform event version m).2 ≡ none
      → ((apply_event platform event version' (apply_event platform event version m).0).2 ≡ none)
        × ((apply_event platform event version' (apply_event platform event version m).0).0
            ≡ (apply_event platform event version m).0)
  unfolding apply_event
  apply_event-replay event version version' m h =
      elim (Result-cases (applied platform event version m)) [
        | inl (next, e) ↦
            let (valid, accepts) = applied-Accepts event version m next e in
            let again =
              applied-seen event version' next valid (Accepts-find event version m next accepts) in
            rw (e, apply_event) (rw (again, apply_event) (refl, refl))
        | inr (e, r) ↦ absurd (cc (h, r))
      ]

  -- A different event under an id that the machine has seen is refused, and changes nothing.
  pub apply_event-conflict :
      (event : ChangeEvent) (version : ℕ) (m : ChangeMachine) (previous : String)
      → validate_event event ≡ ok tt
      → find event.id m.processed_events ≡ some previous
      → previous ≢ event_digest event
      → ((apply_event platform event version m).2 ≡ some event_idempotency_conflict)
        × ((apply_event platform event version m).0 ≡ m)
  unfolding apply_event applied apply_seen
  apply_event-conflict event version m previous valid seen other =
      elim (Bool-cases (previous =s event_digest event)) [
        | inl e ↦ absurd (other ((=s_iff previous (event_digest event)).0 e))
        | inr e ↦ rw (valid, seen, e) (refl, refl)
      ]

  -- A valid timeout that is due, new and at the current version is accepted by a machine that is
  -- not in a terminal state. In the apply window and while probing it opens the rollback; before
  -- them and in the rollback it ends the change as failed closed.
  pub apply_event-timeout :
      (event : ChangeEvent) (m : ChangeMachine)
      → event.type ≡ phase_timed_out
      → validate_event event ≡ ok tt
      → find event.id m.processed_events ≡ none
      → terminal_change m.snapshot.state ≡ false
      → m.snapshot.updated_at ≤ event.at
      → m.snapshot.deadline ≤ event.at
      → ((apply_event platform event m.snapshot.version m).2 ≡ none)
        × (((m.snapshot.state ≡ apply_window ⊎ m.snapshot.state ≡ probing)
              × ((apply_event platform event m.snapshot.version m).0.snapshot.state
                  ≡ rollback_pending))
            ⊎ ((m.snapshot.state ≡ snapshot_pending
                  ⊎ m.snapshot.state ≡ preflight
                  ⊎ m.snapshot.state ≡ rollback_pending)
                × ((apply_event platform event m.snapshot.version m).0.snapshot.state
                    ≡ failed_closed)))
  unfolding apply_event applied apply_seen apply_new check_event transition dispatch terminal_change
  apply_event-timeout event m e valid new open_phase forward due = ground arith
