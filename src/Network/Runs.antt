-- ===== src/Network/Runs.antt =====
-- For internal/networkpolicy/change_machine.go: runs of a change machine from its start.
use mathlib.Core.Path.{subst}
use control_center_developme.Prelude.{
  ℕ, ◌<◌, String, ◌≡◌, refl, sym, ap, ◌∙◌, inl, inr, Bool, true, Option, none, some, arith, List,
  [], ◌∷◌, Result, Result-cases, ok, err, find, >>=-eq-ok,
}
use control_center_developme.Network.Policy.{NetworkError}
use control_center_developme.Network.Plan.{
  ChangePlan, validate_timeouts, build_change_plan, ChangePlanRequest,
}
use control_center_developme.Network.Machine.{
  terminal_change, ChangeEvent, ChangeMachine, MachinePlatform, new_change_machine, transition,
  check_event, record_event, apply_new, apply_seen, applied, apply_event, validate_event,
  plan_matches, request_of, initial_machine,
}
use control_center_developme.Network.Invariant.{IsSafe, transition-IsSafe}

module _ (platform : MachinePlatform) where
  pub validate_event-dated :
      (event : ChangeEvent) {u : Unit {0}} → validate_event event ≡ ok u → 0 < event.at
  unfolding validate_event
  validate_event-dated event h = ground arith

  record_event-IsSafe :
      (event : ChangeEvent) (m : ChangeMachine) → IsSafe m → IsSafe (record_event platform event m)
  record_event-IsSafe event m s = record {
    passed = s.passed;
    phase = record {
      complete = s.phase.complete;
      untouched = s.phase.untouched;
      stopped = s.phase.stopped;
      due = s.phase.due;
    };
    timed = s.timed;
  }

  pub apply_new-IsSafe :
      (event : ChangeEvent) (version : ℕ) (m next : ChangeMachine)
      → 0 < event.at
      → IsSafe m
      → apply_new platform event version m ≡ ok next
      → IsSafe next × (next.plan ≡ m.plan)
  unfolding apply_new
  apply_new-IsSafe event version m next p s h =
      let (u, checked, rest) = >>=-eq-ok (check_event event version m) _ next h in
      let (moved, step, e) = >>=-eq-ok (transition event m) _ next rest in
      let (safe, same) = transition-IsSafe event m moved p s step in
      let done : record_event platform event moved ≡ next = cc e in
      (
        subst IsSafe done (record_event-IsSafe event moved safe),
        ap (λ (n : ChangeMachine). n.plan) (sym done) ∙ same,
      )

  pub apply_seen-old :
      (event : ChangeEvent) (version : ℕ) (m next : ChangeMachine) (previous : String)
      → apply_seen platform event version m (some previous) ≡ ok next
      → m ≡ next
  unfolding apply_seen
  apply_seen-old event version m next previous h = ground arith

  apply_seen-IsSafe :
      (event : ChangeEvent) (version : ℕ) (m next : ChangeMachine) (seen : Option String)
      → 0 < event.at
      → IsSafe m
      → apply_seen platform event version m seen ≡ ok next
      → IsSafe next × (next.plan ≡ m.plan)
  apply_seen-IsSafe event version m next (some previous) p s h =
      let same = apply_seen-old event version m next previous h in
      (subst IsSafe same s, ap (λ (n : ChangeMachine). n.plan) (sym same))
  apply_seen-IsSafe event version m next none p s h =
      apply_new-IsSafe event version m next p s (unfold apply_seen in h)

  applied-IsSafe :
      (event : ChangeEvent) (version : ℕ) (m next : ChangeMachine)
      → IsSafe m
      → applied platform event version m ≡ ok next
      → IsSafe next × (next.plan ≡ m.plan)
  unfolding applied
  applied-IsSafe event version m next s h =
      let (u, valid, rest) = >>=-eq-ok (validate_event event) _ next h in
      apply_seen-IsSafe event version m next (find event.id m.processed_events)
        (validate_event-dated event valid) s rest

  pub apply_event-IsSafe :
      (event : ChangeEvent) (version : ℕ) (m : ChangeMachine)
      → IsSafe m
      → IsSafe (apply_event platform event version m).0
        × ((apply_event platform event version m).0.plan ≡ m.plan)
  unfolding apply_event
  apply_event-IsSafe event version m s = elim (Result-cases (applied platform event version m)) [
    | inl (next, h) ↦ rw (h, apply_event) (applied-IsSafe event version m next s h)
    | inr (e, h) ↦ rw (h, apply_event) (s, refl)
  ]

  -- A sequence of calls of Apply, each with the version that its caller expects.
  unfoldable pub run_events : List (ChangeEvent × ℕ) → ChangeMachine → ChangeMachine
  run_events [] m = m
  run_events ((event, version) ∷ events) m =
      run_events events (apply_event platform event version m).0

  run_events-IsSafe :
      (events : List (ChangeEvent × ℕ)) (m : ChangeMachine)
      → IsSafe m
      → IsSafe (run_events events m) × ((run_events events m).plan ≡ m.plan)
  unfolding run_events
  run_events-IsSafe [] m s = (s, refl)
  run_events-IsSafe ((event, version) ∷ events) m s =
      let (safe, same) = apply_event-IsSafe event version m s in
      let (safe', same') = run_events-IsSafe events (apply_event platform event version m).0 safe in
      (safe', same' ∙ same)

  plan_matches-ok :
      (same : ChangePlan → Bool) (r : Result NetworkError ChangePlan)
      → plan_matches same r ≡ true
      → (validated : ChangePlan) × (r ≡ ok validated)
  plan_matches-ok same (ok validated) h = (validated, refl)
  plan_matches-ok same (err e) h = absurd (cc)

  pub new_change_machine-parts :
      (plan : ChangePlan) (now : ℕ) (m : ChangeMachine)
      → new_change_machine platform plan now ≡ ok m
      → (0 < now)
        × (plan_matches
              (λ validated. platform.same_plan validated plan)
              (build_change_plan platform.plans (request_of plan))
            ≡ true)
        × (initial_machine plan now ≡ m)
  unfolding new_change_machine
  new_change_machine-parts plan now m h = (ground arith, ground arith, ground arith)

  build_change_plan-timed :
      (request : ChangePlanRequest) (plan : ChangePlan)
      → build_change_plan platform.plans request ≡ ok plan
      → validate_timeouts request.timeouts ≡ ok tt
  unfolding build_change_plan
  build_change_plan-timed request plan h = ground arith

  pub new_change_machine-IsSafe :
      (plan : ChangePlan) (now : ℕ) (m : ChangeMachine)
      → new_change_machine platform plan now ≡ ok m
      → IsSafe m × (m.plan ≡ plan)
  new_change_machine-IsSafe plan now m h =
      let (dated, matches, start) = new_change_machine-parts plan now m h in
      let (validated, built) =
        plan_matches-ok _ (build_change_plan platform.plans (request_of plan)) matches in
      let timed = build_change_plan-timed (request_of plan) validated built in
      (
        subst IsSafe start (record {
          passed = record { distinct = tt; known = tt };
          phase = record {
            complete = λ e. cc;
            untouched = λ e. refl;
            stopped = unfold terminal_change in λ e. cc;
            due = λ e. omega (arith, dated);
          };
          timed = timed;
        }),
        ap (λ (n : ChangeMachine). n.plan) (sym start),
      )

  -- Every machine that NewChangeMachine returns, after any calls of Apply, failing ones
  -- included, has its plan, whose timeouts are valid; its passed probes are distinct and of the
  -- plan, as many as the plan has if the change is committed, and none before the temporary
  -- change is applied; its deadline is zero exactly in the terminal states.
  pub run-IsSafe :
      (plan : ChangePlan) (now : ℕ) (m : ChangeMachine) (events : List (ChangeEvent × ℕ))
      → new_change_machine platform plan now ≡ ok m
      → IsSafe (run_events events m) × ((run_events events m).plan ≡ plan)
  run-IsSafe plan now m events h =
      let (start, same) = new_change_machine-IsSafe plan now m h in
      let (safe, kept) = run_events-IsSafe events m start in (safe, kept ∙ same)
