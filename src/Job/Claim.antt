-- ===== src/Job/Claim.antt =====
-- internal/orchestration/job/memory.go: `Claim`, which hands the first eligible job to a worker,
-- and `List`. Go's order of iteration over a map is not specified; both sort what they iterate
-- over, by creation time and then by id.
use Prim.Native.String.{compare}
use text.Mathlib.Text.{is_lt}
use control_center_developme.Prelude.Sort.{sort}
use control_center_developme.Prelude.{
  ℕ, ◌+◌, String, Bool, true, false, not, ◌&&◌, ◌||◌, Option, none, some, List, [], ◌∷◌, ltb, leb,
  ◌==◌, ◌=s◌, if◌then◌else◌, Result, ok, err, ◌>>◌, reject, Store, find, put, keys,
}
use control_center_developme.Prelude.Text.{text_append}
use control_center_developme.Job.Types.{
  ContextError, Error, required, Status, queued, running, retry_wait, cancel_requested, cancelled,
  failed, is_status, Lease, Job, Filter, next_version,
}
use control_center_developme.Job.Repository.{Repository, Platform, alive}
use control_center_developme.Job.Create.{or_zero}

-- The order of `Claim` and `List`.
unfoldable pub older : Job → Job → Bool
older a b =
    if a.created_at == b.created_at
    then is_lt (compare a.id b.id)
    else ltb a.created_at b.created_at

-- `lease != nil && !lease.ExpiresAt.After(now)`
abbrev pub lease_expired : ℕ → Option Lease → Bool
lease_expired now none = false
lease_expired now (some lease) = leb lease.expires_at now

abbrev pub eligible_status : Status → ℕ → Job → Bool
eligible_status queued now job = true
eligible_status retry_wait now job = leb job.next_attempt_at now
eligible_status running now job = lease_expired now job.lease
eligible_status _ now job = false

unfoldable pub eligible : ℕ → Job → Bool
eligible now job = eligible_status job.status now job

-- The checks that `Claim` makes before it takes the lock.
unfoldable pub check_claim : Option ContextError → String → ℕ → ℕ → Result Error (Unit {0})
check_claim ctx worker_id now ttl = do
  alive ctx
  reject (worker_id =s "" || now == 0 || ttl == 0)
      (required "worker id, current time, and positive lease ttl are required")

-- What the body of the loop does with one candidate: it writes it and goes on, hands it to the
-- worker, or leaves it.
pub data Verdict : Type 0 where
  settled taken : Job → Verdict
  skipped : Verdict

module _ (platform : Platform) where
  open platform use {sha256_hex, decimal, unix_nano}

  -- `fmt.Sprintf("%s:%s:%d:%d", candidate.ID, workerID, candidate.Version, now.UnixNano())`
  unfoldable pub lease_token : String → ℕ → String → ℕ → String
  lease_token id version worker_id now = sha256_hex (
      text_append id (
        text_append ":" (
          text_append worker_id
            (text_append ":" (text_append (decimal version) (text_append ":" (unix_nano now)))))))

  abbrev pub taken_job : String → ℕ → ℕ → Job → Job
  taken_job worker_id now ttl candidate = record candidate {
    attempt = candidate.attempt + 1;
    status = running;
    next_attempt_at = 0;
    last_error = "";
    version = next_version candidate.version;
    updated_at = now;
    lease = some (record {
      token = lease_token candidate.id (next_version candidate.version) worker_id now;
      worker_id = worker_id;
      expires_at = now + ttl;
    });
  }

  unfoldable pub examine : String → ℕ → ℕ → Job → Verdict
  unfolding eligible
  examine worker_id now ttl candidate =
      if is_status candidate.status cancel_requested && lease_expired now candidate.lease
      then settled (record candidate {
        status = cancelled;
        lease = none;
        updated_at = now;
        version = next_version candidate.version;
      })
      else if not (eligible now candidate)
      then skipped
      else if leb candidate.max_attempts candidate.attempt
      then settled (record candidate {
        status = failed;
        last_error = "maximum attempts exhausted";
        lease = none;
        updated_at = now;
        version = next_version candidate.version;
      })
      else taken (taken_job worker_id now ttl candidate)

  -- `for _, id := range ids`
  unfoldable pub claim_loop : String → ℕ → ℕ → List String → Store Job → Store Job × Option Job
  claim_loop worker_id now ttl [] jobs = (jobs, none)
  claim_loop worker_id now ttl (id ∷ ids) jobs =
      elim (examine worker_id now ttl (or_zero (find id jobs))) [
        | settled job ↦ claim_loop worker_id now ttl ids (put id job jobs)
        | taken job ↦ (put id job jobs, some job)
        | skipped ↦ claim_loop worker_id now ttl ids jobs
      ]

  -- The ids in the order of their jobs.
  unfoldable pub sorted_ids : Store Job → List String
  unfolding older sort keys
  sorted_ids jobs = sort (λ i j. older (or_zero (find i jobs)) (or_zero (find j jobs))) (keys jobs)

  -- Claim
  unfoldable pub claim :
      Option ContextError → String → ℕ → ℕ → Repository → Repository × Result Error (Option Job)
  unfolding check_claim claim_loop sorted_ids
  claim ctx worker_id now ttl repo = elim (check_claim ctx worker_id now ttl) [
    | err e ↦ (repo, err e)
    | ok _ ↦
        let outcome = claim_loop worker_id now ttl (sorted_ids repo.jobs) repo.jobs in
        (record repo { jobs = outcome.0 }, ok outcome.1)
  ]

abbrev pub has_status : Option Status → Job → Bool
has_status none job = true
has_status (some wanted) job = is_status job.status wanted

unfoldable pub selects : Filter → Job → Bool
selects filter job =
    (filter.change_id =s "" || job.change_id =s filter.change_id) && has_status filter.status job

-- The loop of `List`.
unfoldable pub select : Filter → Store Job → List Job
unfolding selects
select filter [] = []
select filter ((id, job) ∷ jobs) =
    let rest = select filter jobs in if selects filter job then job ∷ rest else rest

-- List
unfoldable pub list_jobs : Option ContextError → Filter → Repository → Result Error (List Job)
unfolding select sort older
list_jobs ctx filter repo = do alive ctx; ok (sort older (select filter repo.jobs))
