-- ===== src/ManualRetry/Repository.antt =====
-- internal/orchestration/job/manual_retry_memory.go and manual_retry_lookup_memory.go. A method runs
-- under the mutex of the jobs. The maps are iterated in the order of the store.
use Prim.Native.String.{compare}
use text.Mathlib.Text.{is_lt}
use control_center_developme.Prelude.Sort.{sort}
use control_center_developme.Prelude.Text.{text_append}
use control_center_developme.Prelude.{
  ℕ, String, Bool, true, false, not, ◌||◌, Option, none, some, List, [], ◌∷◌, ltb, ◌==◌, ◌=s◌,
  if◌then◌else◌, Result, ok, err, ◌>>=◌, ◌>>◌, require, reject, Store, find, put,
}
use control_center_developme.Job.Types.{
  ContextError, Error, not_found, version_conflict, idempotency_conflict, context, failed,
  is_status, Lease, Job, CreateRequest,
}
use control_center_developme.Job.Repository.{Platform, Repository, get}
use control_center_developme.Job.Create.{created_job, fingerprint}
use control_center_developme.ManualRetry.Requests.{
  RetryError, source_not_failed, source_already_retried, admission_conflict, lineage_not_found,
  retry_missing, retry_id_exists, job_error, ManualRetryRequest, ManualRetryLineage,
  validate_retry_identifier, validate_retry_request, retry_fingerprint,
}

pub record ManualRetryRecord : Type 0 where
  pub fingerprint : String
  pub lineage : ManualRetryLineage

pub record ManualRetryRepository : Type 0 where
  pub jobs : Repository
  pub by_admission : Store ManualRetryRecord
  pub by_retry_job : Store ManualRetryLineage
  pub by_source : Store ManualRetryLineage

-- NewMemoryManualRetryRepository, of a repository that is not nil
abbrev pub new_manual_repository : Repository → ManualRetryRepository
new_manual_repository jobs = record {
  jobs = jobs;
  by_admission = [];
  by_retry_job = [];
  by_source = [];
}

abbrev pub live : Option ContextError → Result RetryError (Unit {0})
live none = ok tt
live (some e) = err (job_error (context e))

abbrev pub is_there {ℓ} : {V : Type ℓ} → Option V → Bool
is_there none = false
is_there (some v) = true

-- MemoryManualRetryRepository.Get
abbrev pub get_job : Option ContextError → String → ManualRetryRepository → Result Error Job
get_job ctx id r = get ctx id r.jobs

abbrev pub retry_job : String → Option Job → Result RetryError Job
retry_job id none = err (retry_missing id)
retry_job id (some job) = ok job

abbrev pub source_job : Option Job → Result RetryError Job
source_job none = err (job_error not_found)
source_job (some job) = ok job

abbrev pub no_lease : Option Lease → Bool
no_lease none = true
no_lease (some lease) = false

-- `rootJobID`
abbrev pub root_of : Job → Option ManualRetryLineage → String
root_of source none = source.id
root_of source (some parent) = parent.root_job_id

abbrev pub retry_request : ManualRetryRequest → Job → CreateRequest
retry_request request source = record {
  id = request.retry_job_id;
  change_id = source.change_id;
  action_name = source.action_name;
  input = source.input;
  idempotency_key = request.retry_idempotency_key;
  max_attempts = source.max_attempts;
  now = request.requested_at;
}

abbrev pub lineage_of : String → ManualRetryRequest → Job → ManualRetryLineage
lineage_of root request source = record {
  root_job_id = root;
  source_job_id = source.id;
  source_job_version = source.version;
  retry_job_id = request.retry_job_id;
  retry_idempotency_key = request.retry_idempotency_key;
  reviewed_admission_id = request.reviewed_admission_id;
  revalidation_admission_id = request.revalidation_admission_id;
  revision_id = request.revision_id;
  revision_digest = request.revision_digest;
  policy_id = request.policy_id;
  policy_digest = request.policy_digest;
  retry_history_digest = request.retry_history_digest;
  approval_evidence_digest = request.approval_evidence_digest;
  requested_at = request.requested_at;
}

-- The loop of ListManualRetryLineage
unfoldable pub lineages_of : String → Store ManualRetryRecord → List ManualRetryLineage
lineages_of root [] = []
lineages_of root ((admission, entry) ∷ rest) =
    let tail : List ManualRetryLineage = lineages_of root rest in
    if entry.lineage.root_job_id =s root then entry.lineage ∷ tail else tail

-- The order of ListManualRetryLineage
unfoldable pub lineage_before : ManualRetryLineage → ManualRetryLineage → Bool
lineage_before a b =
    if a.requested_at == b.requested_at
    then is_lt (compare a.retry_job_id b.retry_job_id)
    else ltb a.requested_at b.requested_at

-- ListManualRetryLineage
unfoldable pub list_lineage :
    Option ContextError
    → String
    → ManualRetryRepository
    → Result RetryError (List ManualRetryLineage)
unfolding sort lineage_before lineages_of validate_retry_identifier
list_lineage ctx root r = do
  live ctx
  validate_retry_identifier "root job id" root
  ok (sort lineage_before (lineages_of root r.by_admission))

abbrev pub known_lineage : Option ManualRetryLineage → Result RetryError ManualRetryLineage
known_lineage none = err lineage_not_found
known_lineage (some lineage) = ok lineage

abbrev pub known_record : Option ManualRetryRecord → Result RetryError ManualRetryLineage
known_record none = err lineage_not_found
known_record (some entry) = ok entry.lineage

-- GetManualRetryLineageByAdmission
unfoldable pub lineage_by_admission :
    Option ContextError → String → ManualRetryRepository → Result RetryError ManualRetryLineage
lineage_by_admission ctx admission r = do live ctx; known_record (find admission r.by_admission)

-- GetManualRetryLineageByRetryJob
unfoldable pub lineage_by_retry_job :
    Option ContextError → String → ManualRetryRepository → Result RetryError ManualRetryLineage
lineage_by_retry_job ctx id r = do live ctx; known_lineage (find id r.by_retry_job)

module _ (platform : Platform) where
  -- manualRetrySourceKey
  abbrev pub source_key : String → ℕ → String
  source_key id version = text_append id (text_append "\0" (platform.decimal version))

  -- CreateManualRetry, of an admission that is known
  unfoldable pub replay_retry :
      ManualRetryRequest
      → ManualRetryRecord
      → ManualRetryRepository
      → Result RetryError (Job × ManualRetryLineage × Bool)
  unfolding retry_fingerprint
  replay_retry request existing r = do
    require (existing.fingerprint =s retry_fingerprint platform request) admission_conflict
    retry ← retry_job existing.lineage.retry_job_id (find existing.lineage.retry_job_id r.jobs.jobs)
    ok (retry, existing.lineage, false)

  -- CreateManualRetry, the checks of a new admission: the source
  unfoldable pub retryable : ManualRetryRequest → ManualRetryRepository → Result RetryError Job
  retryable request r = do
    source ← source_job (find request.source_job_id r.jobs.jobs)
    require (source.version == request.expected_source_version) (job_error version_conflict)
    reject
        (not (is_status source.status failed)
          || ltb source.attempt source.max_attempts
          || not (no_lease source.lease))
        source_not_failed
    reject (is_there (find (source_key source.id source.version) r.by_source))
        source_already_retried
    reject (is_there (find request.retry_job_id r.jobs.jobs)) (retry_id_exists request.retry_job_id)
    reject (is_there (find request.retry_idempotency_key r.jobs.idempotency))
        (job_error idempotency_conflict)
    ok source

  -- CreateManualRetry, what it writes
  unfoldable pub with_retry :
      ManualRetryRequest → Job → ManualRetryRepository → ManualRetryRepository
  unfolding fingerprint retry_fingerprint
  with_retry request source r =
      let fresh : CreateRequest = retry_request request source in
      let lineage : ManualRetryLineage =
        lineage_of (root_of source (find source.id r.by_retry_job)) request source in
      record {
        jobs = record {
          jobs = put fresh.id (created_job platform fresh) r.jobs.jobs;
          idempotency =
              put fresh.idempotency_key
                (record { job_id = fresh.id; fingerprint = fingerprint platform fresh })
                r.jobs.idempotency;
        };
        by_admission =
            put request.reviewed_admission_id
              (record { fingerprint = retry_fingerprint platform request; lineage = lineage })
              r.by_admission;
        by_retry_job = put fresh.id lineage r.by_retry_job;
        by_source = put (source_key source.id source.version) lineage r.by_source;
      }

  -- CreateManualRetry, of an admission that is new
  unfoldable pub fresh_retry :
      ManualRetryRequest
      → ManualRetryRepository
      → ManualRetryRepository × Result RetryError (Job × ManualRetryLineage × Bool)
  unfolding retryable with_retry
  fresh_retry request r = elim (retryable request r) [
    | err e ↦ (r, err e)
    | ok source ↦ (
      with_retry request source r,
      ok (
        created_job platform (retry_request request source),
        lineage_of (root_of source (find source.id r.by_retry_job)) request source,
        true,
      ),
    )
  ]

  -- CreateManualRetry
  unfoldable pub create_manual_retry :
      Option ContextError
      → ManualRetryRequest
      → ManualRetryRepository
      → ManualRetryRepository × Result RetryError (Job × ManualRetryLineage × Bool)
  unfolding validate_retry_request replay_retry fresh_retry
  create_manual_retry ctx request r = elim (live ctx >> validate_retry_request request) [
    | err e ↦ (r, err e)
    | ok _ ↦ elim (find request.reviewed_admission_id r.by_admission) [
      | some existing ↦ (r, replay_retry request existing r)
      | none ↦ fresh_retry request r
    ]
  ]
