-- ===== src/ManualRetry/Examples.antt =====
-- For internal/orchestration/job: a failed job that is retried.
use control_center_developme.Prelude.Hex.{runes}
use control_center_developme.Prelude.Text.{
  trim_space, trim_left, trim_right, is_space, byte_length, text_append,
}
use control_center_developme.Prelude.{
  suc, ◌≡◌, ◌⊎◌, refl, true, String, none, some, List, [], ◌∷◌, ok, err, find, put, any, size,
  Result, arith,
}
use control_center_developme.Job.Types.{Job, zero_job, failed}
use control_center_developme.Job.Repository.{Platform, Repository, new_repository}
use control_center_developme.Job.Invariant.{IsSound}
use control_center_developme.Job.Admission.{add-IsSound, new_repository-IsSound}
use control_center_developme.ManualRetry.Requests.{
  ManualRetryRequest, ManualRetryLineage, RetryError, lineage_not_found, validate_retry_request,
  validate_retry_identifier, valid_retry_digest, strip_prefix, all_lower_hex,
}
use control_center_developme.ManualRetry.Repository.{
  ManualRetryRepository, new_manual_repository, create_manual_retry, fresh_retry, retryable,
  with_retry, lineage_of,
}
use control_center_developme.ManualRetry.History.{
  LineageReader, HistoryEvidence, build_history, check_source, history_root, bounded_lineage,
  index_lineage, chain_entries, walk,
}
use control_center_developme.ManualRetry.Creating.{IsRetried, create_manual_retry-cases}
use control_center_developme.ManualRetry.Binding.{run, retrying, created-once}
use control_center_developme.ManualRetry.Walking.{walk-settles}
use control_center_developme.ManualRetry.Accepting.{IsHistory, build_history-IsHistory}

abbrev platform : Platform
platform = record {
  json_valid = λ s. true;
  sha256_hex = λ s. s;
  decimal = λ n. "5";
  unix_nano = λ t. "0";
}

abbrev failed_job : Job
failed_job = record zero_job {
  id = "job-1";
  change_id = "change-1";
  action_name = "restart";
  input = "{}";
  idempotency_key = "key-1";
  status = failed;
  attempt = 2;
  max_attempts = 2;
  created_at = 100;
  updated_at = 200;
  version = 5;
}

abbrev jobs_1 : Repository
jobs_1 = record {
  jobs = put "job-1" failed_job [];
  idempotency = put "key-1" (record { job_id = "job-1"; fingerprint = "f" }) [];
}

nothing : find "job-1" new_repository.jobs ≡ none
unfolding find
nothing = refl

jobs_1-IsSound : IsSound jobs_1
jobs_1-IsSound =
    add-IsSound "job-1" "key-1" (record { job_id = "job-1"; fingerprint = "f" }) failed_job
      new_repository new_repository-IsSound nothing
      (record {
        keyed = refl;
        attempts = omega arith;
        attempted = λ e. absurd (cc e);
        positive = omega arith;
        leased = refl;
      })
      refl refl

abbrev digest_1 : String
digest_1 = "sha256:0123456789abcdef0123456789abcdef0123456789abcdef0123456789abcdef"

abbrev digest_2 : String
digest_2 = "sha256:fedcba98765432100123456789abcdef0123456789abcdef0123456789abcdef"

abbrev request_1 : ManualRetryRequest
request_1 = record {
  source_job_id = "job-1";
  expected_source_version = 5;
  retry_job_id = "job-2";
  retry_idempotency_key = "key-2";
  reviewed_admission_id = digest_1;
  revalidation_admission_id = digest_1;
  revision_id = "revision-1";
  revision_digest = digest_1;
  policy_id = "policy-1";
  policy_digest = digest_1;
  retry_history_digest = digest_1;
  approval_evidence_digest = "";
  requested_at = 300;
}

abbrev request_2 : ManualRetryRequest
request_2 = record request_1 { retry_job_id = "job-3"; reviewed_admission_id = digest_2 }

abbrev repo_1 : ManualRetryRepository
repo_1 = new_manual_repository jobs_1

abbrev retry_1 : Job
retry_1 = record zero_job {
  id = "job-2";
  change_id = "change-1";
  action_name = "restart";
  input = "{}";
  idempotency_key = "key-2";
  max_attempts = 2;
  created_at = 300;
  updated_at = 300;
  version = 1;
}

abbrev lineage_1 : ManualRetryLineage
lineage_1 = lineage_of "job-1" request_1 failed_job

created_1 : (create_manual_retry platform none request_1 repo_1).1 ≡ ok (retry_1, lineage_1, true)
unfolding create_manual_retry fresh_retry retryable with_retry find put validate_retry_request
    validate_retry_identifier valid_retry_digest runes strip_prefix all_lower_hex trim_space
    trim_left trim_right is_space byte_length
created_1 = refl

created-once_example : ¬ (
    (create_manual_retry platform none request_2
      (run platform (retrying none request_1 ∷ []) repo_1)).1
    ≡ ok (record retry_1 { id = "job-3" }, lineage_of "job-1" request_2 failed_job, true))
created-once_example =
    created-once platform none request_1 repo_1 retry_1 lineage_1 [] none request_2
      (record retry_1 { id = "job-3" }) (lineage_of "job-1" request_2 failed_job) jobs_1-IsSound
      created_1 refl refl

create_manual_retry-cases_example :
    ((source retry : Job) × (lineage : ManualRetryLineage) × ((create_manual_retry platform none
          request_1 repo_1).1
        ≡ ok (retry, lineage, true))
      × IsRetried request_1 source retry jobs_1
          (create_manual_retry platform none request_1 repo_1).0.jobs
      × IsSound (create_manual_retry platform none request_1 repo_1).0.jobs)
    ⊎ (((create_manual_retry platform none request_1 repo_1).0 ≡ repo_1)
        × ((retry : Job) (lineage : ManualRetryLineage)
            → (create_manual_retry platform none request_1 repo_1).1 ≡ ok (retry, lineage, true)
            → ⊥))
create_manual_retry-cases_example =
    create_manual_retry-cases platform none request_1 repo_1 jobs_1-IsSound

abbrev reader_1 : LineageReader
reader_1 = record {
  by_retry_job = λ id. err lineage_not_found;
  listing = λ root. ok (lineage_1 ∷ []);
}

abbrev evidence_1 : HistoryEvidence
evidence_1 = record {
  root_job_id = "job-1";
  source_job_id = "job-1";
  source_job_version = 5;
  used_manual_retries = 1;
  source_already_retried = true;
  digest = "sha256:job-1";
  observed_at = 400;
}

abbrev digest_of : String → List ManualRetryLineage → String
digest_of root entries = text_append "sha256:" root

built : build_history digest_of reader_1 failed_job 400 ≡ ok evidence_1
unfolding build_history check_source history_root bounded_lineage index_lineage chain_entries walk
    validate_retry_identifier trim_space trim_left trim_right is_space byte_length find put any size
built = refl

build_history-IsHistory_example : IsHistory digest_of reader_1 failed_job evidence_1
build_history-IsHistory_example =
    build_history-IsHistory digest_of reader_1 failed_job 400 evidence_1 built

walk-settles_example :
    (r : Result RetryError (List ManualRetryLineage)) × (walk
        (suc (size (("job-1", lineage_1) ∷ [])))
        (("job-1", lineage_1) ∷ [])
        []
        "job-1"
      ≡ some r)
walk-settles_example = walk-settles (("job-1", lineage_1) ∷ []) "job-1"
