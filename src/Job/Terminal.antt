-- ===== src/Job/Terminal.antt =====
-- For internal/orchestration/job/memory.go: every operation on jobs that are cancelled, succeeded
-- or failed.
use control_center_developme.Prelude.{
  ℕ, String, ◌≡◌, refl, sym, ◌∙◌, ap, true, Option, some, arith, List, [], ◌∷◌, inl, inr, Result,
  ok, err, find, put, find-put, =s_iff, Bool-cases, Result-cases, Store,
}
use control_center_developme.Job.Types.{
  Output, ContextError, Error, Job, CreateRequest, RetryPolicy, terminal,
}
use control_center_developme.Job.Repository.{
  Repository, Platform, renew_lease, succeed, fail, request_cancel, request_cancel_if_version,
  commit, renewed, completed, failing, cancellable, cancellable_if_version, cancel_found,
  unless_failed, cancel_job,
}
use control_center_developme.Job.Create.{create, or_zero, fresh_create, created_job}
use control_center_developme.Job.Claim.{
  claim, claim_loop, examine, settled, taken, skipped, Verdict, check_claim, sorted_ids,
}
use control_center_developme.Job.Runs.{
  Operation, creating, claiming, renewing, succeeding, failing_with, cancelling, cancelling_version,
  apply,
}

-- A write to another key.
put-keeps :
    (id j : String) (job new : Job) (jobs : Store Job)
    → find j jobs ≡ some job
    → ((id ≡ j) → ⊥)
    → find j (put id new jobs) ≡ some job
put-keeps id j job new jobs h ne = ground (arith, find-put id j new jobs, =s_iff id j)

module _ (j : String) (job : Job) (done : terminal job.status ≡ true) where
  commit-keeps :
      (id : String) (repo : Repository) (r : Result Error Job)
      → find j repo.jobs ≡ some job
      → (find id repo.jobs ≡ some job → (new : Job) → r ≡ ok new → ⊥)
      → find j (commit id repo r).0.jobs ≡ some job
  commit-keeps id repo (ok new) h never =
      put-keeps id j job new repo.jobs h (λ e. never (rw e h) new refl)
  commit-keeps id repo (err e) h never = h

  not-renewed :
      (ctx : Option ContextError) (id token : String) (now ttl : ℕ) (repo : Repository)
      → find id repo.jobs ≡ some job
      → (new : Job) → renewed ctx id token now ttl repo ≡ ok new
      → ⊥
  unfolding renewed terminal
  not-renewed ctx id token now ttl repo h new e = ground arith

  not-completed :
      (ctx : Option ContextError) (id token : String) (output : Output) (now : ℕ)
      (repo : Repository)
      → find id repo.jobs ≡ some job
      → (new : Job) → completed ctx id token output now repo ≡ ok new
      → ⊥
  unfolding completed terminal
  not-completed ctx id token output now repo h new e = ground arith

  not-failing :
      (ctx : Option ContextError) (id token message : String) (output : Output)
      (policy : RetryPolicy) (now : ℕ) (repo : Repository)
      → find id repo.jobs ≡ some job
      → (new : Job) → failing ctx id token message output policy now repo ≡ ok new
      → ⊥
  unfolding failing terminal
  not-failing ctx id token message output policy now repo h new e = ground arith

  cancel_found-keeps :
      (id : String) (now : ℕ) (found : Job) (repo : Repository)
      → find j repo.jobs ≡ some job
      → find id repo.jobs ≡ some found
      → find j (cancel_found id now found repo).0.jobs ≡ some job
  unfolding cancel_found
  cancel_found-keeps id now found repo h at = elim (Bool-cases (terminal found.status)) [
    | inl e ↦ rw e h
    | inr e ↦ rw e (
        put-keeps id j job (cancel_job now found) repo.jobs h
          (λ same. ground (arith, ap (λ (k : String). find k repo.jobs) same)))
  ]

  unless_failed-keeps :
      (id : String) (now : ℕ) (repo : Repository) (r : Result Error Job)
      → find j repo.jobs ≡ some job
      → ((found : Job) → r ≡ ok found → find id repo.jobs ≡ some found)
      → find j (unless_failed repo r (λ found. cancel_found id now found repo)).0.jobs ≡ some job
  unless_failed-keeps id now repo (ok found) h at =
      cancel_found-keeps id now found repo h (at found refl)
  unless_failed-keeps id now repo (err e) h at = h

module _ (platform : Platform) where
  examine-terminal :
      (worker_id : String) (now ttl : ℕ) (job : Job)
      → terminal job.status ≡ true
      → examine platform worker_id now ttl job ≡ skipped
  unfolding examine terminal
  examine-terminal worker_id now ttl job done = ground arith

  claim_loop-keeps :
      (j : String) (job : Job) (worker_id : String) (now ttl : ℕ)
      → terminal job.status ≡ true
      → (ids : List String) (jobs : Store Job) → find j jobs ≡ some job
      → find j (claim_loop platform worker_id now ttl ids jobs).0 ≡ some job
  unfolding claim_loop
  claim_loop-keeps j job worker_id now ttl done [] jobs h = h
  claim_loop-keeps j job worker_id now ttl done (id ∷ ids) jobs h =
      go (examine platform worker_id now ttl (or_zero (find id jobs))) refl
        (claim_loop-keeps j job worker_id now ttl done ids)
    where
      other :
          (v : Verdict)
          → examine platform worker_id now ttl (or_zero (find id jobs)) ≡ v
          → (v ≡ skipped → ⊥)
          → (id ≡ j)
          → ⊥
      other v e ne same = ne (sym e ∙ rw (same, h) (examine-terminal worker_id now ttl job done))

      go :
          (v : Verdict)
          → examine platform worker_id now ttl (or_zero (find id jobs)) ≡ v
          → ((rest : Store Job)
              → find j rest ≡ some job
              → find j (claim_loop platform worker_id now ttl ids rest).0 ≡ some job)
          → find j (claim_loop platform worker_id now ttl (id ∷ ids) jobs).0 ≡ some job
      go (settled new) e rest =
          rw (e, claim_loop)
            (rest (put id new jobs)
              (put-keeps id j job new jobs h (other (settled new) e (λ p. cc))))
      go (taken new) e rest =
          rw (e, claim_loop) (put-keeps id j job new jobs h (other (taken new) e (λ p. cc)))
      go skipped e rest = rw (e, claim_loop) (rest jobs h)

  claim-keeps :
      (j : String) (job : Job) (ctx : Option ContextError) (worker_id : String) (now ttl : ℕ)
      (repo : Repository)
      → terminal job.status ≡ true
      → find j repo.jobs ≡ some job
      → find j (claim platform ctx worker_id now ttl repo).0.jobs ≡ some job
  unfolding claim
  claim-keeps j job ctx worker_id now ttl repo done h =
      elim (Result-cases (check_claim ctx worker_id now ttl)) [
        | inl (a, e) ↦
            rw (e, claim)
              (claim_loop-keeps j job worker_id now ttl done (sorted_ids platform repo.jobs)
                repo.jobs h)
        | inr (x, e) ↦ rw (e, claim) h
      ]

  create-keeps :
      (j : String) (job : Job) (ctx : Option ContextError) (request : CreateRequest)
      (repo : Repository)
      → find j repo.jobs ≡ some job
      → find j (create platform ctx request repo).0.jobs ≡ some job
  unfolding create fresh_create
  create-keeps j job ctx request repo h =
      ground
        (arith, find-put request.id j (created_job platform request) repo.jobs, =s_iff request.id j)

  -- A stored job whose status is terminal is unchanged by every operation of the repository,
  -- whatever its arguments.
  pub apply-keeps_terminal :
      (op : Operation) (repo : Repository) (id : String) (job : Job)
      → find id repo.jobs ≡ some job
      → terminal job.status ≡ true
      → find id (apply platform op repo).jobs ≡ some job
  unfolding apply
  apply-keeps_terminal (creating ctx request) repo j job h done =
      create-keeps j job ctx request repo h
  apply-keeps_terminal (claiming ctx worker_id now ttl) repo j job h done =
      claim-keeps j job ctx worker_id now ttl repo done h
  apply-keeps_terminal (renewing ctx id token now ttl) repo j job h done =
      unfold renew_lease in
      commit-keeps j job done id repo (renewed ctx id token now ttl repo) h
        (not-renewed j job done ctx id token now ttl repo)
  apply-keeps_terminal (succeeding ctx id token output now) repo j job h done =
      unfold succeed in
      commit-keeps j job done id repo (completed ctx id token output now repo) h
        (not-completed j job done ctx id token output now repo)
  apply-keeps_terminal (failing_with ctx id token message output policy now) repo j job h done =
      unfold fail in
      commit-keeps j job done id repo (failing ctx id token message output policy now repo) h
        (not-failing j job done ctx id token message output policy now repo)
  apply-keeps_terminal (cancelling ctx id now) repo j job h done =
      unfold request_cancel cancellable in
      unless_failed-keeps j job done id now repo (cancellable ctx id now repo) h
        (λ found e. ground arith)
  apply-keeps_terminal (cancelling_version ctx id version now) repo j job h done =
      unfold request_cancel_if_version cancellable_if_version in
      unless_failed-keeps j job done id now repo (cancellable_if_version ctx id version now repo) h
        (λ found e. ground arith)
