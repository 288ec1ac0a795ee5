-- ===== src/Job/Examples.antt =====
-- The job repository on concrete inputs: a job that is created, claimed, failed and retried.
use control_center_developme.Prelude.{
  ◌-◌, ◌*◌, ◌^◌, min, ◌≡◌, ◌↔◌, refl, true, false, none, some, arith, List, [], ◌∷◌, ok, err, find,
  put,
}
use control_center_developme.Job.Types.{
  Output, lease_lost, Job, CreateRequest, RetryPolicy, zero_job, running, failed, terminal,
}
use control_center_developme.Job.Retry.{retry_delay, retry_delay-eq-min, base_of, cap_of}
use control_center_developme.Job.Repository.{
  Repository, Platform, new_repository, renew_lease, succeed, fail, failing,
}
use control_center_developme.Job.Create.{create}
use control_center_developme.Job.Claim.{claim, examine, lease_token}
use control_center_developme.Job.Invariant.{IsSound}
use control_center_developme.Job.Runs.{Operation, creating, claiming, apply, run, run-IsSound}
use control_center_developme.Job.Terminal.{apply-keeps_terminal}
use control_center_developme.Job.Fencing.{
  may_write, IsFenced, fenced, IsFailureOf, fail-IsFailureOf,
}
use control_center_developme.Job.Exclusion.{Takes, claim-Takes, create-create}

abbrev toy : Platform
toy = record {
  json_valid = λ s. true;
  sha256_hex = λ s. s;
  decimal = λ n. "1";
  unix_nano = λ t. "0";
}

abbrev request : CreateRequest
request = record {
  id = "job-1";
  change_id = "change-1";
  action_name = "restart";
  input = "{}";
  idempotency_key = "key-1";
  max_attempts = 2;
  now = 100;
}

abbrev no_output : Output
no_output = record { actual_states = []; health = []; audit_events = [] }

abbrev policy : RetryPolicy
policy = record { base_delay = 10; max_delay = 25 }

retry_delay_example : retry_delay 3 policy ≡ min (base_of policy * 2 ^ (3 - 1)) (cap_of policy)
retry_delay_example = retry_delay-eq-min 3 policy (omega arith) (omega arith)

retry_delay_is_capped : retry_delay 3 policy ≡ 25
unfolding retry_delay
retry_delay_is_capped = refl

created : Repository
unfolding create
created = (create toy none request new_repository).0

claimed : Repository
unfolding claim created
claimed = (claim toy none "worker-1" 200 50 created).0

-- The job as it is stored after the claim.
abbrev running_job : Job
running_job = record zero_job {
  id = "job-1";
  change_id = "change-1";
  action_name = "restart";
  input = "{}";
  idempotency_key = "key-1";
  status = running;
  attempt = 1;
  max_attempts = 2;
  lease = some (record { token = "job-1:worker-1:1:0"; worker_id = "worker-1"; expires_at = 250 });
  created_at = 100;
  updated_at = 200;
  version = 2;
}

claimed_job : (claim toy none "worker-1" 200 50 created).1 ≡ ok (some running_job)
unfolding claim created find put examine lease_token
claimed_job = refl

stored_job : find "job-1" claimed.jobs ≡ some running_job
unfolding claimed find put examine lease_token
stored_job = refl

script : List Operation
script = creating none request ∷ claiming none "worker-1" 200 50 ∷ []

run-IsSound_example : IsSound (run toy script new_repository)
run-IsSound_example = run-IsSound toy script

created_is_run : created ≡ run toy (creating none request ∷ []) new_repository
unfolding created run apply
created_is_run = refl

created-IsSound : IsSound created
created-IsSound = rw created_is_run (run-IsSound toy (creating none request ∷ []))

claim-Takes_example :
    (old : Job) × (find "job-1" created.jobs ≡ some old)
    × (find "job-1" (claim toy none "worker-1" 200 50 created).0.jobs ≡ some running_job)
    × Takes "worker-1" 200 50 old running_job
claim-Takes_example =
    claim-Takes toy none "worker-1" 200 50 created running_job created-IsSound claimed_job

create-create_example : create toy none request (create toy none request new_repository).0 ≡ (
  (create toy none request new_repository).0,
  ok (
    record zero_job {
      id = "job-1";
      change_id = "change-1";
      action_name = "restart";
      input = "{}";
      idempotency_key = "key-1";
      max_attempts = 2;
      created_at = 100;
      updated_at = 100;
      version = 1;
    },
    false,
  ),
)
unfolding create find
create-create_example = create-create toy none request new_repository _ refl

fenced_example :
    ((renew_lease none "job-1" "other" 150 50 claimed ≡ (claimed, err lease_lost))
      ↔ IsFenced "other" 150 running_job)
    × ((succeed none "job-1" "other" no_output 150 claimed ≡ (claimed, err lease_lost))
        ↔ IsFenced "other" 150 running_job)
    × ((fail none "job-1" "other" "late" no_output policy 150 claimed ≡ (claimed, err lease_lost))
        ↔ IsFenced "other" 150 running_job)
fenced_example =
    fenced "job-1" "other" 150 claimed running_job stored_job 50 "late" no_output policy
      (omega arith) (omega arith) λ p. absurd (cc (p))

-- The second attempt is the last one.
abbrev failed_job : Job
failed_job = record running_job {
  status = failed;
  last_error = "broken";
  output = some no_output;
  lease = none;
  updated_at = 240;
  attempt = 2;
  version = 3;
}

abbrev failing_repository : Repository
failing_repository = record {
  jobs = ("job-1", record running_job { attempt = 2 }) ∷ [];
  idempotency = [];
}

fail-IsFailureOf_example :
    (may_write "job-1:worker-1:1:0" 240 (record running_job { attempt = 2 }) ≡ true)
    × IsFailureOf (record running_job { attempt = 2 }) failed_job "broken" no_output policy 240
    × (find "job-1"
          (fail none "job-1" "job-1:worker-1:1:0" "broken" no_output policy 240
            failing_repository).0.jobs
        ≡ some failed_job)
unfolding fail find failing
fail-IsFailureOf_example =
    fail-IsFailureOf none "job-1" "job-1:worker-1:1:0" "broken" no_output policy 240
      failing_repository (record running_job { attempt = 2 }) failed_job refl refl

abbrev finished_repository : Repository
finished_repository = record { jobs = ("job-1", failed_job) ∷ []; idempotency = [] }

apply-keeps_terminal_example :
    find "job-1" (apply toy (claiming none "worker-2" 300 50) finished_repository).jobs
    ≡ some failed_job
unfolding find terminal
apply-keeps_terminal_example =
    apply-keeps_terminal toy (claiming none "worker-2" 300 50) finished_repository "job-1"
      failed_job refl refl
