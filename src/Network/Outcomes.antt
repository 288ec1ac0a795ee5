-- ===== src/Network/Outcomes.antt =====
-- For internal/networkpolicy/change_machine.go: the machines that end in a commit.
use control_center_developme.Prelude.{ℕ, ◌≡◌, true, List, ok, All}
use mathlib.Core.Path.{subst}
use control_center_developme.Network.Plan.{ConnectivityProbe, ChangePlan}
use control_center_developme.Network.Machine.{
  committed, ChangeEvent, ChangeMachine, MachinePlatform, new_change_machine, contains,
}
use control_center_developme.Network.Runs.{run_events, run-IsSafe}
use control_center_developme.Network.Counting.{all_contained}

module _ (platform : MachinePlatform) where
  -- Whatever events a machine is given after its start, in state `committed` every probe of its
  -- plan has passed.
  pub committed_passed_all :
      (plan : ChangePlan) (now : ℕ) (m : ChangeMachine) (events : List (ChangeEvent × ℕ))
      → new_change_machine platform plan now ≡ ok m
      → (run_events platform events m).snapshot.state ≡ committed
      → All
          (λ (p : ConnectivityProbe). contains p.id (run_events platform events m).passed ≡ true)
          plan.probes
  committed_passed_all plan now m events h done =
      let (safe, same) = run-IsSafe platform plan now m events h in
      subst
        (λ (q : ChangePlan).
          All
            (λ (p : ConnectivityProbe). contains p.id (run_events platform events m).passed ≡ true)
            q.probes)
        same
        (all_contained (run_events platform events m).plan.probes
          (run_events platform events m).passed safe.passed.distinct safe.passed.known
          (safe.phase.complete (rw done)))
