-- ===== src/Job/Invariant.antt =====
-- For internal/orchestration/job/memory.go: the invariant of the stored jobs, and the operations
-- on one job against it.
use control_center_developme.Prelude.{
  ℕ, ◌≤◌, ◌<◌, String, ◌≡◌, refl, Bool, true, false, Option, none, some, arith, inl, inr, Result,
  ok, err, find, put, find-put, =s_iff, Bool-cases,
}
use control_center_developme.Job.Types.{
  Output, ContextError, Error, Status, running, cancel_requested, Lease, Job, RetryPolicy, terminal,
}
use control_center_developme.Job.Repository.{
  IdempotencyRecord, Repository, commit, leased, renewed, completed, failing, cancellable,
  cancellable_if_version, cancel_job, cancel_found, renew_lease, succeed, fail, request_cancel,
  request_cancel_if_version, unless_failed,
}
use control_center_developme.Job.Create.{or_zero}

abbrev pub has_lease : Option Lease → Bool
has_lease none = false
has_lease (some lease) = true

-- The statuses in which a worker holds the job.
abbrev pub is_held : Status → Bool
is_held running = true
is_held cancel_requested = true
is_held _ = false

pub record JobIsSound (id : String) (job : Job) : Type 0 where
  pub keyed : job.id ≡ id
  pub attempts : job.attempt ≤ job.max_attempts
  pub attempted : is_held job.status ≡ true → 0 < job.attempt
  pub positive : 0 < job.max_attempts
  pub leased : has_lease job.lease ≡ is_held job.status

pub record IsSound (repo : Repository) : Type 0 where
  pub each : (id : String) (job : Job) → find id repo.jobs ≡ some job → JobIsSound id job
  pub indexed :
      (key : String) (entry : IdempotencyRecord)
      → find key repo.idempotency ≡ some entry
      → (find entry.job_id repo.jobs ≡ some (or_zero (find entry.job_id repo.jobs)))
        × ((or_zero (find entry.job_id repo.jobs)).idempotency_key ≡ key)

-- A job that replaces a stored one, under the same idempotency key.
pub record Replaces (id : String) (repo : Repository) (job : Job) : Type 0 where
  pub there : find id repo.jobs ≡ some (or_zero (find id repo.jobs))
  pub sound : JobIsSound id job
  pub key : job.idempotency_key ≡ (or_zero (find id repo.jobs)).idempotency_key

pub replace-IsSound :
    (id : String) (repo : Repository) (job : Job)
    → IsSound repo
    → Replaces id repo job
    → IsSound (record repo { jobs = put id job repo.jobs })
replace-IsSound id repo job s r = record {
  each = λ j old e. ground (arith, find-put id j job repo.jobs, =s_iff id j, s.each j old, r.sound);
  indexed = λ key entry e. ground (
    arith,
    find-put id entry.job_id job repo.jobs,
    =s_iff id entry.job_id,
    s.indexed key entry e,
    r.there,
    r.key,
  );
}

commit-IsSound :
    (id : String) (repo : Repository) (r : Result Error Job)
    → IsSound repo
    → ((job : Job) → r ≡ ok job → Replaces id repo job)
    → IsSound (commit id repo r).0
commit-IsSound id repo (ok job) s step = replace-IsSound id repo job s (step job refl)
commit-IsSound id repo (err e) s step = s

-- What `leased` checks.
leased-found :
    (id token : String) (now : ℕ) (repo : Repository) (job : Job)
    → leased id token now repo ≡ ok job
    → (find id repo.jobs ≡ some job) × (is_held job.status ≡ true) × (has_lease job.lease ≡ true)
unfolding leased
leased-found id token now repo job h = ground arith

renewed-Replaces :
    (ctx : Option ContextError) (id token : String) (now ttl : ℕ) (repo : Repository) (job : Job)
    → IsSound repo
    → renewed ctx id token now ttl repo ≡ ok job
    → Replaces id repo job
unfolding renewed
renewed-Replaces ctx id token now ttl repo job s h =
    ground (arith, s.each id (or_zero (find id repo.jobs)))

completed-Replaces :
    (ctx : Option ContextError) (id token : String) (output : Output) (now : ℕ) (repo : Repository)
    (job : Job)
    → IsSound repo
    → completed ctx id token output now repo ≡ ok job
    → Replaces id repo job
unfolding completed
completed-Replaces ctx id token output now repo job s h =
    ground (arith, s.each id (or_zero (find id repo.jobs)))

failing-Replaces :
    (ctx : Option ContextError) (id token message : String) (output : Output) (policy : RetryPolicy)
    (now : ℕ) (repo : Repository) (job : Job)
    → IsSound repo
    → failing ctx id token message output policy now repo ≡ ok job
    → Replaces id repo job
unfolding failing
failing-Replaces ctx id token message output policy now repo job s h =
    ground (arith, s.each id (or_zero (find id repo.jobs)))

cancel_found-IsSound :
    (id : String) (now : ℕ) (job : Job) (repo : Repository)
    → IsSound repo
    → find id repo.jobs ≡ some job
    → IsSound (cancel_found id now job repo).0
unfolding cancel_found
cancel_found-IsSound id now job repo s h = elim (Bool-cases (terminal job.status)) [
  | inl done ↦ rw done s
  | inr live ↦
      rw live (replace-IsSound id repo (cancel_job now job) s (ground (arith, s.each id job h)))
]

unless_failed-IsSound :
    (id : String) (now : ℕ) (repo : Repository) (r : Result Error Job)
    → IsSound repo
    → ((job : Job) → r ≡ ok job → find id repo.jobs ≡ some job)
    → IsSound (unless_failed repo r (λ job. cancel_found id now job repo)).0
unless_failed-IsSound id now repo (ok job) s there =
    cancel_found-IsSound id now job repo s (there job refl)
unless_failed-IsSound id now repo (err e) s there = s

pub renew_lease-IsSound :
    (ctx : Option ContextError) (id token : String) (now ttl : ℕ) (repo : Repository)
    → IsSound repo
    → IsSound (renew_lease ctx id token now ttl repo).0
unfolding renew_lease
renew_lease-IsSound ctx id token now ttl repo s =
    commit-IsSound id repo (renewed ctx id token now ttl repo) s
      (λ job h. renewed-Replaces ctx id token now ttl repo job s h)

pub succeed-IsSound :
    (ctx : Option ContextError) (id token : String) (output : Output) (now : ℕ) (repo : Repository)
    → IsSound repo
    → IsSound (succeed ctx id token output now repo).0
unfolding succeed
succeed-IsSound ctx id token output now repo s =
    commit-IsSound id repo (completed ctx id token output now repo) s
      (λ job h. completed-Replaces ctx id token output now repo job s h)

pub fail-IsSound :
    (ctx : Option ContextError) (id token message : String) (output : Output) (policy : RetryPolicy)
    (now : ℕ) (repo : Repository)
    → IsSound repo
    → IsSound (fail ctx id token message output policy now repo).0
unfolding fail
fail-IsSound ctx id token message output policy now repo s =
    commit-IsSound id repo (failing ctx id token message output policy now repo) s
      (λ job h. failing-Replaces ctx id token message output policy now repo job s h)

pub request_cancel-IsSound :
    (ctx : Option ContextError) (id : String) (now : ℕ) (repo : Repository)
    → IsSound repo
    → IsSound (request_cancel ctx id now repo).0
unfolding request_cancel cancellable
request_cancel-IsSound ctx id now repo s =
    unless_failed-IsSound id now repo (cancellable ctx id now repo) s (λ job h. ground arith)

pub request_cancel_if_version-IsSound :
    (ctx : Option ContextError) (id : String) (expected_version now : ℕ) (repo : Repository)
    → IsSound repo
    → IsSound (request_cancel_if_version ctx id expected_version now repo).0
unfolding request_cancel_if_version cancellable_if_version
request_cancel_if_version-IsSound ctx id expected_version now repo s =
    unless_failed-IsSound id now repo (cancellable_if_version ctx id expected_version now repo) s
      (λ job h. ground arith)
