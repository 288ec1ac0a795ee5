-- ===== src/Job/Fencing.antt =====
-- For internal/orchestration/job/memory.go: the operations that a lease guards.
use control_center_developme.Prelude.{
  ℕ, ◌+◌, ◌<◌, ◌≤◌, String, ◌≡◌, ◌≢◌, ◌⊎◌, ◌↔◌, refl, inl, inr, Bool, true, false, ◌&&◌, ◌||◌,
  Option, none, some, arith, ok, err, find, find-put, =s_iff, ◌=s◌, Bool-cases,
}
use control_center_developme.Job.Types.{
  Output, ContextError, lease_lost, running, cancel_requested, cancelled, retry_wait, failed, Lease,
  is_status, is_status_eq, Job, RetryPolicy,
}
use control_center_developme.Job.Retry.{retry_delay}
use control_center_developme.Job.Repository.{
  Repository, holds, leased, renewed, completed, failing, renew_lease, succeed, fail,
}

-- The holder of a live lease on a job that runs or is being cancelled.
abbrev pub may_write : String → ℕ → Job → Bool
may_write token now job =
    (is_status job.status running || is_status job.status cancel_requested)
    && holds token now job.lease

-- The job neither runs nor is being cancelled.
abbrev pub IsIdle : Job → Type 0
IsIdle job = job.status ≢ running × job.status ≢ cancel_requested

-- There is no lease, or it has another token, or it has expired.
abbrev pub IsLost : String → ℕ → Option Lease → Type 0
IsLost token now none = Unit
IsLost token now (some lease) = (lease.token ≢ token) ⊎ (lease.expires_at ≤ now)

-- The job cannot be written under a token.
abbrev pub IsFenced : String → ℕ → Job → Type 0
IsFenced token now job = IsIdle job ⊎ IsLost token now job.lease

holds-IsLost :
    (token : String) (now : ℕ) (l : Option Lease) → (holds token now l ≡ false) ↔ IsLost token now l
holds-IsLost token now none = (λ h. tt, λ h. refl)
holds-IsLost token now (some lease) = elim (Bool-cases (lease.token =s token)) [
  | inl e ↦ (
    λ h. inr (ground arith),
    λ lost. elim lost [
      | inl other ↦ absurd (other ((=s_iff lease.token token).0 e))
      | inr late ↦ ground arith
    ],
  )
  | inr e ↦ (λ h. inl (λ p. absurd (cc (e, (=s_iff lease.token token).1 p))), λ h. ground arith)
]

working : Job → Bool
working job = is_status job.status running || is_status job.status cancel_requested

working-IsIdle : (job : Job) → (working job ≡ false) ↔ IsIdle job
unfolding working
working-IsIdle job = (
  λ h. (λ p. absurd (ground (arith, p)), λ p. absurd (ground (arith, p))),
  λ (r, c). elim (Bool-cases (is_status job.status running)) [
    | inl e ↦ absurd (r (is_status_eq job.status running e))
    | inr e ↦ elim (Bool-cases (is_status job.status cancel_requested)) [
      | inl d ↦ absurd (c (is_status_eq job.status cancel_requested d))
      | inr d ↦ rw (e, d) refl
    ]
  ],
)

may_write-IsFenced :
    (token : String) (now : ℕ) (job : Job)
    → (may_write token now job ≡ false) ↔ IsFenced token now job
unfolding working
may_write-IsFenced token now job = (
  λ h. elim (Bool-cases (working job)) [
    | inl e ↦ inr ((holds-IsLost token now job.lease).0 (ground arith))
    | inr e ↦ inl ((working-IsIdle job).0 e)
  ],
  λ fence. elim fence [
    | inl idle ↦ let e = (working-IsIdle job).1 idle in ground arith
    | inr lost ↦ let e = (holds-IsLost token now job.lease).1 lost in ground arith
  ],
)

module _ (id token : String) (now : ℕ) (repo : Repository) (job : Job)
    (there : find id repo.jobs ≡ some job) where
  leased_lost : (leased id token now repo ≡ err lease_lost) ↔ (may_write token now job ≡ false)
  unfolding leased
  leased_lost = (λ h. ground arith, λ h. ground arith)

  -- RenewLease, Succeed and Fail with well-formed arguments report the lost lease and write nothing
  -- exactly if the stored job neither runs nor is being cancelled, or has no lease, or has one with
  -- another token or one that has expired.
  pub fenced :
      (ttl : ℕ) (message : String) (output : Output) (policy : RetryPolicy)
      → 0 < now
      → 0 < ttl
      → message ≢ ""
      → ((renew_lease none id token now ttl repo ≡ (repo, err lease_lost)) ↔ IsFenced token now job)
        × ((succeed none id token output now repo ≡ (repo, err lease_lost))
            ↔ IsFenced token now job)
        × ((fail none id token message output policy now repo ≡ (repo, err lease_lost))
            ↔ IsFenced token now job)
  unfolding renew_lease succeed fail renewed completed failing leased
  fenced ttl message output policy p q m =
      let (to, back) = may_write-IsFenced token now job in
      let written : (message =s "") ≡ false = elim (Bool-cases (message =s "")) [
        | inl e ↦ absurd (m ((=s_iff message "").0 e))
        | inr e ↦ e
      ] in
      (
        (λ h. to (ground arith), λ f. let lost = back f in ground arith),
        (λ h. to (ground arith), λ f. let lost = back f in ground arith),
        (λ h. to (ground arith), λ f. let lost = back f in ground arith),
      )

-- What `Fail` promises of the job that it returns.
pub record IsFailureOf (job new : Job) (message : String) (output : Output) (policy : RetryPolicy)
    (now : ℕ) : Type 0 where
  pub released : new.lease ≡ none
  pub recorded : (new.last_error ≡ message) × (new.output ≡ some output)
  pub cancelled_one : job.status ≡ cancel_requested → new.status ≡ cancelled
  pub retried :
      job.status ≡ running
      → job.attempt < job.max_attempts
      → (new.status ≡ retry_wait) × (new.next_attempt_at ≡ now + retry_delay job.attempt policy)
  pub exhausted :
      job.status ≡ running
      → job.max_attempts ≤ job.attempt
      → (new.status ≡ failed) × (new.next_attempt_at ≡ 0)
  pub attempts : (new.attempt ≡ job.attempt) × (new.max_attempts ≡ job.max_attempts)

-- When `Fail` succeeds, the job was held under the token at that time; the job that it returns and
-- stores has no lease, carries the message and the output and the same attempts, and is cancelled
-- if that was requested, else waits for the computed delay if attempts are left, else has failed.
pub fail-IsFailureOf :
    (ctx : Option ContextError) (id token message : String) (output : Output) (policy : RetryPolicy)
    (now : ℕ) (repo : Repository) (job new : Job)
    → find id repo.jobs ≡ some job
    → (fail ctx id token message output policy now repo).1 ≡ ok new
    → (may_write token now job ≡ true)
      × IsFailureOf job new message output policy now
      × (find id (fail ctx id token message output policy now repo).0.jobs ≡ some new)
unfolding fail failing leased
fail-IsFailureOf ctx id token message output policy now repo job new there h =
    ground (arith, find-put id id new repo.jobs, =s_iff id id)
