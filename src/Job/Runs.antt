-- ===== src/Job/Runs.antt =====
-- Every operation of the job repository as a step of its state, and runs of steps.
use control_center_developme.Prelude.{ℕ, String, Option, List, [], ◌∷◌}
use control_center_developme.Job.Types.{Output, ContextError, CreateRequest, RetryPolicy}
use control_center_developme.Job.Repository.{
  Repository, Platform, new_repository, renew_lease, succeed, fail, request_cancel,
  request_cancel_if_version,
}
use control_center_developme.Job.Create.{create}
use control_center_developme.Job.Claim.{claim}
use control_center_developme.Job.Invariant.{
  IsSound, renew_lease-IsSound, succeed-IsSound, fail-IsSound, request_cancel-IsSound,
  request_cancel_if_version-IsSound,
}
use control_center_developme.Job.Admission.{new_repository-IsSound, create-IsSound, claim-IsSound}

-- One call of the repository's interface, with the error of its context.
pub data Operation : Type 0 where
  creating : Option ContextError → CreateRequest → Operation
  claiming : Option ContextError → String → ℕ → ℕ → Operation
  renewing : Option ContextError → String → String → ℕ → ℕ → Operation
  succeeding : Option ContextError → String → String → Output → ℕ → Operation
  failing_with :
      Option ContextError → String → String → String → Output → RetryPolicy → ℕ → Operation
  cancelling : Option ContextError → String → ℕ → Operation
  cancelling_version : Option ContextError → String → ℕ → ℕ → Operation

module _ (platform : Platform) where
  unfoldable pub apply : Operation → Repository → Repository
  apply (creating ctx request) repo = (create platform ctx request repo).0
  apply (claiming ctx worker_id now ttl) repo = (claim platform ctx worker_id now ttl repo).0
  apply (renewing ctx id token now ttl) repo = (renew_lease ctx id token now ttl repo).0
  apply (succeeding ctx id token output now) repo = (succeed ctx id token output now repo).0
  apply (failing_with ctx id token message output policy now) repo =
      (fail ctx id token message output policy now repo).0
  apply (cancelling ctx id now) repo = (request_cancel ctx id now repo).0
  apply (cancelling_version ctx id version now) repo =
      (request_cancel_if_version ctx id version now repo).0

  unfoldable pub run : List Operation → Repository → Repository
  run [] repo = repo
  run (op ∷ ops) repo = run ops (apply op repo)

  pub apply-IsSound : (op : Operation) (repo : Repository) → IsSound repo → IsSound (apply op repo)
  unfolding apply
  apply-IsSound (creating ctx request) repo s = create-IsSound platform ctx request repo s
  apply-IsSound (claiming ctx worker_id now ttl) repo s =
      claim-IsSound platform ctx worker_id now ttl repo s
  apply-IsSound (renewing ctx id token now ttl) repo s =
      renew_lease-IsSound ctx id token now ttl repo s
  apply-IsSound (succeeding ctx id token output now) repo s =
      succeed-IsSound ctx id token output now repo s
  apply-IsSound (failing_with ctx id token message output policy now) repo s =
      fail-IsSound ctx id token message output policy now repo s
  apply-IsSound (cancelling ctx id now) repo s = request_cancel-IsSound ctx id now repo s
  apply-IsSound (cancelling_version ctx id version now) repo s =
      request_cancel_if_version-IsSound ctx id version now repo s

  run_from-IsSound :
      (ops : List Operation) (repo : Repository) → IsSound repo → IsSound (run ops repo)
  unfolding run
  run_from-IsSound [] repo s = s
  run_from-IsSound (op ∷ ops) repo s =
      run_from-IsSound ops (apply op repo) (apply-IsSound op repo s)

  -- After any operations on a new repository, failing ones included, every stored job has its key
  -- as its id, has used at most its attempts, has a lease exactly while it runs or is being
  -- cancelled, has then been attempted, and every idempotency key names a stored job of that key.
  pub run-IsSound : (ops : List Operation) → IsSound (run ops new_repository)
  run-IsSound ops = run_from-IsSound ops new_repository new_repository-IsSound
