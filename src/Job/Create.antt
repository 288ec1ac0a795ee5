-- ===== src/Job/Create.antt =====
-- internal/orchestration/job/memory.go: `Create` and its idempotency keys.
use control_center_developme.Prelude.Text.{text_append}
use control_center_developme.Prelude.{
  String, Bool, true, false, not, ◌||◌, Option, none, some, ltb, ◌==◌, ◌=s◌, if◌then◌else◌, Result,
  ok, err, ◌>>◌, reject, find, put,
}
use control_center_developme.Job.Types.{
  ContextError, Error, idempotency_conflict, id_exists, required, queued, Job, CreateRequest,
  zero_job,
}
use control_center_developme.Job.Repository.{IdempotencyRecord, Repository, Platform, alive}

abbrev pub or_zero : Option Job → Job
or_zero none = zero_job
or_zero (some job) = job

module _ (platform : Platform) where
  open platform use {json_valid, sha256_hex}

  unfoldable pub fingerprint : CreateRequest → String
  fingerprint request = sha256_hex (
      text_append request.change_id
        (text_append "\0" (text_append request.action_name (text_append "\0" request.input))))

  -- The checks that `Create` makes before it takes the lock.
  unfoldable pub check_create : Option ContextError → CreateRequest → Result Error (Unit {0})
  check_create ctx request = do
    alive ctx
    reject
        (request.id =s ""
          || request.change_id =s ""
          || request.action_name =s ""
          || request.idempotency_key =s "")
        (required "job id, change id, action, and idempotency key are required")
    reject (request.input =s "" || not (json_valid request.input))
        (required "job input must be valid JSON")
    reject (ltb request.max_attempts 1 || request.now == 0)
        (required "max attempts and creation time are required")

  abbrev pub created_job : CreateRequest → Job
  created_job request = record zero_job {
    id = request.id;
    change_id = request.change_id;
    action_name = request.action_name;
    input = request.input;
    idempotency_key = request.idempotency_key;
    status = queued;
    max_attempts = request.max_attempts;
    created_at = request.now;
    updated_at = request.now;
    version = 1;
  }

  -- The key is there: a replay returns the job, anything else is a conflict.
  unfoldable pub replay_create :
      CreateRequest → Repository → IdempotencyRecord → Result Error (Job × Bool)
  unfolding fingerprint
  replay_create request repo entry =
      let existing : Job = or_zero (find entry.job_id repo.jobs) in
      if not (entry.fingerprint =s fingerprint request)
        || not (existing.max_attempts == request.max_attempts)
      then err idempotency_conflict
      else ok (existing, false)

  -- The key is new.
  unfoldable pub fresh_create : CreateRequest → Repository → Repository × Result Error (Job × Bool)
  unfolding fingerprint
  fresh_create request repo = elim (find request.id repo.jobs) [
    | some existing ↦ (repo, err (id_exists request.id))
    | none ↦ (
      record {
        jobs = put request.id (created_job request) repo.jobs;
        idempotency =
            put request.idempotency_key
              (record { job_id = request.id; fingerprint = fingerprint request }) repo.idempotency;
      },
      ok (created_job request, true),
    )
  ]

  -- Create
  unfoldable pub create :
      Option ContextError → CreateRequest → Repository → Repository × Result Error (Job × Bool)
  unfolding check_create replay_create fresh_create
  create ctx request repo = elim (check_create ctx request) [
    | err e ↦ (repo, err e)
    | ok _ ↦ elim (find request.idempotency_key repo.idempotency) [
      | some entry ↦ (repo, replay_create request repo entry)
      | none ↦ fresh_create request repo
    ]
  ]
