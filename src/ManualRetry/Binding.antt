-- ===== src/ManualRetry/Binding.antt =====
-- For internal/orchestration/job: manual retries among the other operations on the jobs.
use control_center_developme.Prelude.{
  String, ◌≡◌, refl, ◌∙◌, inl, inr, true, Option, List, [], ◌∷◌, ok, find, find-put, =s_refl, ◌=s◌,
  Bool-cases,
}
use control_center_developme.Job.Types.{ContextError, Job}
use control_center_developme.Job.Repository.{Platform}
use control_center_developme.Job.Invariant.{IsSound}
use control_center_developme.Job.Runs.{Operation, apply, apply-IsSound}
use control_center_developme.ManualRetry.Requests.{ManualRetryRequest, ManualRetryLineage}
use control_center_developme.ManualRetry.Repository.{
  ManualRetryRepository, source_key, is_there, retryable, with_retry, create_manual_retry,
}
use control_center_developme.ManualRetry.Creating.{
  retryable-parts, with_retry-IsSound, create_manual_retry-Creates,
}

-- A call of the jobs' repository, or of CreateManualRetry.
pub data Call : Type 0 where
  on_jobs : Operation → Call
  retrying : Option ContextError → ManualRetryRequest → Call

module _ (platform : Platform) where
  unfoldable pub step : Call → ManualRetryRepository → ManualRetryRepository
  step (on_jobs operation) r = record r { jobs = apply platform operation r.jobs }
  step (retrying ctx request) r = (create_manual_retry platform ctx request r).0

  unfoldable pub run : List Call → ManualRetryRepository → ManualRetryRepository
  run [] r = r
  run (call ∷ calls) r = run calls (step call r)

  abbrev pub IsRetriedOnce : String → ManualRetryRepository → Type 0
  IsRetriedOnce key r = IsSound r.jobs × (is_there (find key r.by_source) ≡ true)

  with_retry-keeps :
      (key : String) (request : ManualRetryRequest) (source : Job) (r : ManualRetryRepository)
      → is_there (find key r.by_source) ≡ true
      → is_there (find key (with_retry platform request source r).by_source) ≡ true
  unfolding with_retry
  with_retry-keeps key request source r h =
      elim (Bool-cases (source_key platform source.id source.version =s key)) [
        | inl e ↦ rw (find-put, e) refl
        | inr e ↦ rw (find-put, e) h
      ]

  with_retry-binds :
      (key : String) (request : ManualRetryRequest) (source : Job) (r : ManualRetryRepository)
      → source_key platform source.id source.version ≡ key
      → is_there (find key (with_retry platform request source r).by_source) ≡ true
  unfolding with_retry
  with_retry-binds key request source r e = rw (e, find-put, =s_refl) refl

  step-IsRetriedOnce :
      (key : String) (call : Call) (r : ManualRetryRepository)
      → IsRetriedOnce key r
      → IsRetriedOnce key (step call r)
  unfolding step
  step-IsRetriedOnce key (on_jobs operation) r h =
      (apply-IsSound platform operation r.jobs h.0, h.1)
  step-IsRetriedOnce key (retrying ctx request) r h =
      elim (create_manual_retry-Creates platform ctx request r) [
        | inr (same, none_created) ↦ rw same h
        | inl (source, e, written, answer) ↦ rw written (
          with_retry-IsSound platform request r source h.0 e,
          with_retry-keeps key request source r h.1,
        )
      ]

  run-IsRetriedOnce :
      (key : String) (calls : List Call) (r : ManualRetryRepository)
      → IsRetriedOnce key r
      → IsRetriedOnce key (run calls r)
  unfolding run
  run-IsRetriedOnce key [] r h = h
  run-IsRetriedOnce key (call ∷ calls) r h =
      run-IsRetriedOnce key calls (step call r) (step-IsRetriedOnce key call r h)

  -- The key of the source that a request names.
  abbrev pub request_key : ManualRetryRequest → String
  request_key request = source_key platform request.source_job_id request.expected_source_version

  retryable-key :
      (request : ManualRetryRequest) (r : ManualRetryRepository) (source : Job)
      → IsSound r.jobs
      → retryable platform request r ≡ ok source
      → source_key platform source.id source.version ≡ request_key request
  retryable-key request r source s h =
      let (stored, expected, has_failed, exhausted, released, first, fresh) =
        retryable-parts platform request r source h in
      rw ((s.each request.source_job_id source stored).keyed, expected) refl

  created-IsRetriedOnce :
      (ctx : Option ContextError) (request : ManualRetryRequest) (r : ManualRetryRepository)
      (retry : Job) (lineage : ManualRetryLineage)
      → IsSound r.jobs
      → (create_manual_retry platform ctx request r).1 ≡ ok (retry, lineage, true)
      → IsRetriedOnce (request_key request) (create_manual_retry platform ctx request r).0
  created-IsRetriedOnce ctx request r retry lineage s h =
      elim (create_manual_retry-Creates platform ctx request r) [
        | inr (same, none_created) ↦ absurd (none_created retry lineage h)
        | inl (source, e, written, answer) ↦ rw written (
          with_retry-IsSound platform request r source s e,
          with_retry-binds (request_key request) request source r
              (retryable-key request r source s e),
        )
      ]

  -- From a repository whose jobs are sound, once CreateManualRetry has created a retry of a version
  -- of a source job, no request for that version of that job creates another one, whatever calls of
  -- CreateManualRetry and of the repository of jobs lie between.
  pub created-once :
      (ctx : Option ContextError) (request : ManualRetryRequest) (r : ManualRetryRepository)
      (retry : Job) (lineage : ManualRetryLineage) (calls : List Call) (ctx' : Option ContextError)
      (request' : ManualRetryRequest) (retry' : Job) (lineage' : ManualRetryLineage)
      → IsSound r.jobs
      → (create_manual_retry platform ctx request r).1 ≡ ok (retry, lineage, true)
      → request'.source_job_id ≡ request.source_job_id
      → request'.expected_source_version ≡ request.expected_source_version
      → ¬ (
          (create_manual_retry platform ctx' request' (run (retrying ctx request ∷ calls) r)).1
          ≡ ok (retry', lineage', true))
  unfolding run step
  created-once ctx request r retry lineage calls ctx' request' retry' lineage' s h same version
        again =
      let later = run calls (create_manual_retry platform ctx request r).0 in
      let (sound, kept) =
        run-IsRetriedOnce (request_key request) calls _
          (created-IsRetriedOnce ctx request r retry lineage s h) in
      elim (create_manual_retry-Creates platform ctx' request' later) [
        | inr (same', none_created) ↦ none_created retry' lineage' again
        | inl (source, e, written, answer) ↦
            let (stored, expected, has_failed, exhausted, released, first, fresh) =
              retryable-parts platform request' later source e in
            let key : source_key platform source.id source.version ≡ request_key request =
              retryable-key request' later source sound e ∙ rw (same, version) refl in
            cc (rw (rw key at first) at kept)
      ]
