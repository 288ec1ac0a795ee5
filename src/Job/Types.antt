-- ===== src/Job/Types.antt =====
-- internal/orchestration/job/job.go and internal/orchestration/events/events.go: the durable job
-- record, its statuses and requests, and the evidence that a job produces.
-- A `time.Time` is a number of nanoseconds, 0 being the zero time; a non-positive `int` or
-- `time.Duration` is 0, since the code only tests these for being positive.
use control_center_developme.Prelude.{
  ℕ, ◌+◌, ◌%◌, String, Bool, true, false, Option, none, List, ◌≡◌, arith, ◌==◌,
}

-- events.go
pub data ResourceState : Type 0 where
  present absent unknown : ResourceState

pub record ActualState : Type 0 where
  pub resource_id : String
  pub kind : String
  pub state : ResourceState
  pub observed_at : ℕ
  pub revision : String
  pub details : String

pub data HealthStatus : Type 0 where
  healthy degraded failed_health unknown_health : HealthStatus

pub record Health : Type 0 where
  pub resource_id : String
  pub status : HealthStatus
  pub checked_at : ℕ
  pub message : String

pub record AuditEvent : Type 0 where
  pub id : String
  pub occurred_at : ℕ
  pub actor : String
  pub action : String
  pub resource_id : String
  pub outcome : String
  pub correlation_id : String
  pub details : String

pub record Output : Type 0 where
  pub actual_states : List ActualState
  pub health : List Health
  pub audit_events : List AuditEvent

-- job.go
pub data ContextError : Type 0 where
  canceled deadline_exceeded : ContextError

pub data Error : Type 0 where
  not_found lease_lost idempotency_conflict version_conflict : Error
  context : ContextError → Error
  id_exists : String → Error
  required : String → Error

pub data Status : Type 0 where
  queued running retry_wait cancel_requested cancelled succeeded failed : Status

-- The position of a status in the declaration, which tells statuses apart.
abbrev pub index : Status → ℕ
index queued = 0
index running = 1
index retry_wait = 2
index cancel_requested = 3
index cancelled = 4
index succeeded = 5
index failed = 6

abbrev pub is_status : Status → Status → Bool
is_status a b = index a == index b

unfoldable pub terminal : Status → Bool
terminal cancelled = true
terminal succeeded = true
terminal failed = true
terminal _ = false

pub record Lease : Type 0 where
  pub token : String
  pub worker_id : String
  pub expires_at : ℕ

pub record Job : Type 0 where
  pub id : String
  pub change_id : String
  pub action_name : String
  pub input : String
  pub idempotency_key : String
  pub status : Status
  pub attempt : ℕ
  pub max_attempts : ℕ
  pub next_attempt_at : ℕ
  pub lease : Option Lease
  pub output : Option Output
  pub last_error : String
  pub created_at : ℕ
  pub updated_at : ℕ
  pub version : ℕ  -- uint64

pub record CreateRequest : Type 0 where
  pub id : String
  pub change_id : String
  pub action_name : String
  pub input : String
  pub idempotency_key : String
  pub max_attempts : ℕ
  pub now : ℕ

pub record RetryPolicy : Type 0 where
  pub base_delay : ℕ
  pub max_delay : ℕ

-- An empty field of a filter selects everything.
pub record Filter : Type 0 where
  pub change_id : String
  pub status : Option Status

-- Go's zero value, which a read of a missing key returns.
abbrev pub zero_job : Job
zero_job = record {
  id = "";
  change_id = "";
  action_name = "";
  input = "";
  idempotency_key = "";
  status = queued;
  attempt = 0;
  max_attempts = 0;
  next_attempt_at = 0;
  lease = none;
  output = none;
  last_error = "";
  created_at = 0;
  updated_at = 0;
  version = 0;
}

-- `Version++` on a uint64.
abbrev pub next_version : ℕ → ℕ
next_version v = (v + 1) % 18446744073709551616

pub is_status_eq : (a b : Status) → is_status a b ≡ true → a ≡ b
is_status_eq a b h = ground arith
