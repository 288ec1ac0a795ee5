-- ===== src/ManualRetry/Creating.antt =====
-- For internal/orchestration/job/manual_retry_memory.go: what CreateManualRetry writes.
use control_center_developme.Prelude.{
  ◌≤◌, String, ◌≡◌, refl, ◌⊎◌, inl, inr, Bool, true, false, Option, none, some, arith, ◌=s◌, =s_iff,
  =s_refl, Option-cases, Result, ok, Result-cases, ◌>>◌, find, find-put,
}
use control_center_developme.Job.Types.{ContextError, queued, failed, Job}
use control_center_developme.Job.Repository.{Platform, Repository}
use control_center_developme.Job.Create.{created_job}
use control_center_developme.Job.Invariant.{IsSound}
use control_center_developme.Job.Admission.{add-IsSound}
use control_center_developme.ManualRetry.Requests.{
  RetryError, ManualRetryRequest, ManualRetryLineage, validate_retry_request,
}
use control_center_developme.ManualRetry.Repository.{
  ManualRetryRecord, ManualRetryRepository, live, root_of, retry_request, lineage_of, source_key,
  replay_retry, retryable, with_retry, fresh_retry, create_manual_retry,
}

-- What a created retry comes from and what it leaves.
pub record IsRetried (request : ManualRetryRequest) (source retry : Job)
    (before behind : Repository) : Type 0 where
  pub stored : find request.source_job_id before.jobs ≡ some source
  pub expected : source.version ≡ request.expected_source_version
  pub has_failed : source.status ≡ failed
  pub exhausted : source.max_attempts ≤ source.attempt
  pub released : source.lease ≡ none
  pub fresh : find request.retry_job_id before.jobs ≡ none
  pub kept :
      (id : String)
      → (request.retry_job_id =s id) ≡ false
      → find id behind.jobs ≡ find id before.jobs
  pub source_kept : find request.source_job_id behind.jobs ≡ some source
  pub made : find request.retry_job_id behind.jobs ≡ some retry
  pub same_work :
      (retry.change_id ≡ source.change_id)
      × (retry.action_name ≡ source.action_name)
      × (retry.input ≡ source.input)
      × (retry.max_attempts ≡ source.max_attempts)
  pub begins : (retry.status ≡ queued) × (retry.attempt ≡ 0) × (retry.version ≡ 1)

module _ (platform : Platform) where
  pub retryable-parts :
      (request : ManualRetryRequest) (r : ManualRetryRepository) (source : Job)
      → retryable platform request r ≡ ok source
      → (find request.source_job_id r.jobs.jobs ≡ some source)
        × (source.version ≡ request.expected_source_version)
        × (source.status ≡ failed)
        × (source.max_attempts ≤ source.attempt)
        × (source.lease ≡ none)
        × (find (source_key platform source.id source.version) r.by_source ≡ none)
        × (find request.retry_job_id r.jobs.jobs ≡ none)
  unfolding retryable
  retryable-parts request r source h = (
    ground arith,
    ground arith,
    ground arith,
    ground arith,
    ground arith,
    ground arith,
    ground arith,
  )

  with_retry-IsRetried :
      (request : ManualRetryRequest) (r : ManualRetryRepository) (source : Job)
      → retryable platform request r ≡ ok source
      → IsRetried request source
          (created_job platform (retry_request request source))
          r.jobs
          (with_retry platform request source r).jobs
  unfolding with_retry
  with_retry-IsRetried request r source h =
      let (stored, expected, has_failed, exhausted, released, first, fresh) =
        retryable-parts request r source h in
      let apart : (request.retry_job_id =s request.source_job_id) ≡ false =
        ground (arith, =s_iff request.retry_job_id request.source_job_id, stored, fresh) in
      record {
        stored = stored;
        expected = expected;
        has_failed = has_failed;
        exhausted = exhausted;
        released = released;
        fresh = fresh;
        kept = λ id other. rw (find-put, other) refl;
        source_kept = rw (find-put, apart) stored;
        made = rw (find-put, =s_refl) refl;
        same_work = (refl, refl, refl, refl);
        begins = (refl, refl, refl);
      }

  pub with_retry-IsSound :
      (request : ManualRetryRequest) (r : ManualRetryRepository) (source : Job)
      → IsSound r.jobs
      → retryable platform request r ≡ ok source
      → IsSound (with_retry platform request source r).jobs
  unfolding with_retry
  with_retry-IsSound request r source s h =
      let (stored, expected, has_failed, exhausted, released, first, fresh) =
        retryable-parts request r source h in
      let positive = (s.each request.source_job_id source stored).positive in
      add-IsSound request.retry_job_id request.retry_idempotency_key _
        (created_job platform (retry_request request source)) r.jobs s fresh
        (record {
          keyed = refl;
          attempts = omega arith;
          attempted = λ e. absurd (cc e);
          positive = positive;
          leased = refl;
        })
        refl refl

  replay_retry-old :
      (request : ManualRetryRequest) (existing : ManualRetryRecord) (r : ManualRetryRepository)
      (retry : Job) (lineage : ManualRetryLineage)
      → replay_retry platform request existing r ≡ ok (retry, lineage, true)
      → ⊥
  unfolding replay_retry
  replay_retry-old request existing r retry lineage h = ground arith

  -- A call that creates a retry of its source, or one that writes nothing and creates none.
  abbrev pub Creates :
      ManualRetryRequest
      → ManualRetryRepository
      → ManualRetryRepository × Result RetryError (Job × ManualRetryLineage × Bool)
      → Type 0
  Creates request r outcome =
      ((source : Job) × (retryable platform request r ≡ ok source)
        × (outcome.0 ≡ with_retry platform request source r)
        × (outcome.1
            ≡ ok (
              created_job platform (retry_request request source),
              lineage_of (root_of source (find source.id r.by_retry_job)) request source,
              true,
            )))
      ⊎ ((outcome.0 ≡ r)
          × ((retry : Job) (lineage : ManualRetryLineage)
              → outcome.1 ≡ ok (retry, lineage, true)
              → ⊥))

  fresh_retry-Creates :
      (request : ManualRetryRequest) (r : ManualRetryRepository)
      → Creates request r (fresh_retry platform request r)
  unfolding fresh_retry
  fresh_retry-Creates request r = elim (Result-cases (retryable platform request r)) [
    | inl (source, h) ↦ inl (source, h, rw (h, fresh_retry) refl, rw (h, fresh_retry) refl)
    | inr (e, h) ↦ inr (rw (h, fresh_retry) refl, λ retry lineage f. cc (rw (h, fresh_retry) at f))
  ]

  pub create_manual_retry-Creates :
      (ctx : Option ContextError) (request : ManualRetryRequest) (r : ManualRetryRepository)
      → Creates request r (create_manual_retry platform ctx request r)
  unfolding create_manual_retry
  create_manual_retry-Creates ctx request r =
      elim (Result-cases (live ctx >> validate_retry_request request)) [
        | inr (e, h) ↦ inr (
          rw (h, create_manual_retry) refl,
          λ retry lineage f. cc (rw (h, create_manual_retry) at f),
        )
        | inl (u, h) ↦ elim (Option-cases (find request.reviewed_admission_id r.by_admission)) [
          | inl f ↦ rw (h, create_manual_retry, f) (fresh_retry-Creates request r)
          | inr (existing, f) ↦ inr (
            rw (h, create_manual_retry, f) refl,
            λ retry lineage g.
                replay_retry-old request existing r retry lineage
                  (rw (h, create_manual_retry, f) at g),
          )
        ]
      ]

  -- From a repository whose jobs are sound, a call of CreateManualRetry either creates a retry and
  -- keeps the jobs sound, or writes nothing and creates none. The source of a created retry was
  -- stored at the expected version, had failed with all attempts used and has no lease; it and all
  -- other jobs stay as they are; the retry is new, is stored as queued at version 1 with no attempt
  -- made, and has the change, the action, the input and the number of attempts of its source.
  pub create_manual_retry-cases :
      (ctx : Option ContextError) (request : ManualRetryRequest) (r : ManualRetryRepository)
      → IsSound r.jobs
      → ((source retry : Job) × (lineage : ManualRetryLineage) × ((create_manual_retry platform ctx
              request r).1
            ≡ ok (retry, lineage, true))
          × IsRetried request source retry r.jobs
              (create_manual_retry platform ctx request r).0.jobs
          × IsSound (create_manual_retry platform ctx request r).0.jobs)
        ⊎ (((create_manual_retry platform ctx request r).0 ≡ r)
            × ((retry : Job) (lineage : ManualRetryLineage)
                → (create_manual_retry platform ctx request r).1 ≡ ok (retry, lineage, true)
                → ⊥))
  create_manual_retry-cases ctx request r s = elim (create_manual_retry-Creates ctx request r) [
    | inr none_created ↦ inr none_created
    | inl (source, h, written, answer) ↦ inl (
      source,
      _,
      _,
      answer,
      rw written (with_retry-IsRetried request r source h),
      rw written (with_retry-IsSound request r source s h),
    )
  ]
