-- ===== src/Job/Repository.antt =====
-- internal/orchestration/job/memory.go and cancel_version.go: the operations of
-- `MemoryRepository`. Each runs under the repository's mutex, so it is one step of the state. An
-- operation returns the new state and its result; `clone` copies a job deeply and is the identity
-- on values, so it is not written. The context's error is an argument.
use control_center_developme.Prelude.{
  ℕ, ◌+◌, String, Bool, false, ◌&&◌, ◌||◌, Option, none, some, [], ltb, ◌==◌, ◌=s◌, if◌then◌else◌,
  Result, ok, err, ◌>>=◌, ◌>>◌, require, reject, Store, find, put,
}
use control_center_developme.Job.Types.{
  Output, ContextError, Error, not_found, lease_lost, version_conflict, context, required, Status,
  running, retry_wait, cancel_requested, cancelled, succeeded, failed, is_status, terminal, Lease,
  Job, RetryPolicy, next_version,
}
use control_center_developme.Job.Retry.{retry_delay}

pub record IdempotencyRecord : Type 0 where
  pub job_id : String
  pub fingerprint : String

pub record Repository : Type 0 where
  pub jobs : Store Job
  pub idempotency : Store IdempotencyRecord

-- NewMemoryRepository
abbrev pub new_repository : Repository
new_repository = record { jobs = []; idempotency = [] }

-- What the code takes from `encoding/json`, `crypto/sha256` and `time`: whether a text is valid
-- JSON, the hexadecimal digest of a text, the decimal text of a version and of a time's `UnixNano`.
pub record Platform : Type 0 where
  pub json_valid : String → Bool
  pub sha256_hex : String → String
  pub decimal : ℕ → String
  pub unix_nano : ℕ → String

-- `if err := ctx.Err(); err != nil { return err }`
abbrev pub alive : Option ContextError → Result Error (Unit {0})
alive none = ok tt
alive (some e) = err (context e)

-- A job that an operation returns is also written under its id; a failed operation writes nothing.
abbrev pub commit : String → Repository → Result Error Job → Repository × Result Error Job
commit id repo (ok job) = (record repo { jobs = put id job repo.jobs }, ok job)
commit id repo (err e) = (repo, err e)

unfoldable pub find_job : String → Repository → Result Error Job
find_job id repo = elim (find id repo.jobs) [ none ↦ err not_found | some job ↦ ok job ]

-- Get
unfoldable pub get : Option ContextError → String → Repository → Result Error Job
unfolding find_job
get ctx id repo = do alive ctx; find_job id repo

-- `lease == nil || lease.Token != token || !lease.ExpiresAt.After(now)`, negated.
abbrev pub holds : String → ℕ → Option Lease → Bool
holds token now none = false
holds token now (some lease) = lease.token =s token && ltb now lease.expires_at

unfoldable pub leased : String → String → ℕ → Repository → Result Error Job
unfolding find_job
leased id token now repo = do
  found ← find_job id repo
  require (is_status found.status running || is_status found.status cancel_requested) lease_lost
  require (holds token now found.lease) lease_lost
  ok found

-- `found.Lease.ExpiresAt = at`
abbrev pub extend : ℕ → Option Lease → Option Lease
extend expiry none = none
extend expiry (some lease) = some (record lease { expires_at = expiry })

-- RenewLease, before the job is written
unfoldable pub renewed :
    Option ContextError → String → String → ℕ → ℕ → Repository → Result Error Job
unfolding leased
renewed ctx id token now ttl repo = do
  alive ctx
  require (ltb 0 now && ltb 0 ttl) (required "current time and positive lease ttl are required")
  found ← leased id token now repo
  ok (record found {
    lease = extend (now + ttl) found.lease;
    updated_at = now;
    version = next_version found.version;
  })

-- RenewLease
unfoldable pub renew_lease :
    Option ContextError → String → String → ℕ → ℕ → Repository → Repository × Result Error Job
renew_lease ctx id token now ttl repo = commit id repo (renewed ctx id token now ttl repo)

abbrev pub succeed_job : Output → ℕ → Job → Job
succeed_job output now found =
    if is_status found.status cancel_requested
    then record found {
      status = cancelled;
      lease = none;
      updated_at = now;
      version = next_version found.version;
    }
    else record found {
      status = succeeded;
      output = some output;
      lease = none;
      updated_at = now;
      version = next_version found.version;
    }

-- Succeed, before the job is written
unfoldable pub completed :
    Option ContextError → String → String → Output → ℕ → Repository → Result Error Job
unfolding leased
completed ctx id token output now repo = do
  alive ctx
  require (ltb 0 now) (required "completion time is required")
  found ← leased id token now repo
  ok (succeed_job output now found)

-- Succeed
unfoldable pub succeed :
    Option ContextError → String → String → Output → ℕ → Repository → Repository × Result Error Job
succeed ctx id token output now repo = commit id repo (completed ctx id token output now repo)

-- The status that a failed job gets, and the time of its next attempt.
abbrev pub after_failure : RetryPolicy → ℕ → Job → Status × ℕ
after_failure policy now found =
    if is_status found.status cancel_requested
    then (cancelled, found.next_attempt_at)
    else if ltb found.attempt found.max_attempts
    then (retry_wait, now + retry_delay found.attempt policy)
    else (failed, 0)

abbrev pub fail_job : String → Output → RetryPolicy → ℕ → Job → Job
fail_job message output policy now found =
    let after : Status × ℕ = after_failure policy now found in
    record found {
      last_error = message;
      output = some output;
      lease = none;
      status = after.0;
      next_attempt_at = after.1;
      updated_at = now;
      version = next_version found.version;
    }

-- Fail, before the job is written
unfoldable pub failing :
    Option ContextError
    → String
    → String
    → String
    → Output
    → RetryPolicy
    → ℕ
    → Repository
    → Result Error Job
unfolding leased
failing ctx id token message output policy now repo = do
  alive ctx
  reject (message =s "") (required "failure message is required")
  require (ltb 0 now) (required "failure time is required")
  found ← leased id token now repo
  ok (fail_job message output policy now found)

-- Fail
unfoldable pub fail :
    Option ContextError
    → String
    → String
    → String
    → Output
    → RetryPolicy
    → ℕ
    → Repository
    → Repository × Result Error Job
fail ctx id token message output policy now repo =
    commit id repo (failing ctx id token message output policy now repo)

abbrev pub cancel_job : ℕ → Job → Job
cancel_job now found =
    if is_status found.status running
    then record found {
      status = cancel_requested;
      updated_at = now;
      version = next_version found.version;
    }
    else record found {
      status = cancelled;
      lease = none;
      updated_at = now;
      version = next_version found.version;
    }

-- A terminal job is returned as it is, and nothing is written.
unfoldable pub cancel_found : String → ℕ → Job → Repository → Repository × Result Error Job
unfolding terminal
cancel_found id now found repo =
    if terminal found.status then (repo, ok found) else commit id repo (ok (cancel_job now found))

-- What an operation does that has failed before it wrote.
abbrev pub unless_failed :
    Repository
    → Result Error Job
    → (Job → Repository × Result Error Job)
    → Repository × Result Error Job
unless_failed repo (err e) next = (repo, err e)
unless_failed repo (ok job) next = next job

-- The checks of RequestCancel
unfoldable pub cancellable : Option ContextError → String → ℕ → Repository → Result Error Job
unfolding find_job
cancellable ctx id now repo = do
  alive ctx
  require (ltb 0 now) (required "cancellation time is required")
  find_job id repo

-- RequestCancel
unfoldable pub request_cancel :
    Option ContextError → String → ℕ → Repository → Repository × Result Error Job
request_cancel ctx id now repo =
    unless_failed repo (cancellable ctx id now repo) (λ found. cancel_found id now found repo)

-- The checks of RequestCancelIfVersion
unfoldable pub cancellable_if_version :
    Option ContextError → String → ℕ → ℕ → Repository → Result Error Job
unfolding find_job
cancellable_if_version ctx id expected_version now repo = do
  alive ctx
  reject (expected_version == 0) (required "expected job version is required")
  require (ltb 0 now) (required "cancellation time is required")
  found ← find_job id repo
  require (found.version == expected_version) version_conflict
  ok found

-- RequestCancelIfVersion
unfoldable pub request_cancel_if_version :
    Option ContextError → String → ℕ → ℕ → Repository → Repository × Result Error Job
request_cancel_if_version ctx id expected_version now repo =
    unless_failed repo (cancellable_if_version ctx id expected_version now repo)
      (λ found. cancel_found id now found repo)
