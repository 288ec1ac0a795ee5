-- ===== src/Lib.antt =====
-- Control Center: the state machines at its core.
--
-- The program is a control plane for nodes of several sites. These modules model the parts of it
-- that keep state and decide what may happen next. An operator's change passes its risk policy and
-- its approvals (Approval), a preflight admits a job for it, and workers take jobs under leases
-- (Job); the lifecycle of a node (Lifecycle) and a change of its network (Network) are such work;
-- a site keeps its records in step with the global side (Sync), decides alone while it is cut off
-- (Offline), and every operator logs in (Login), holds a session (Auth) and the permissions of roles
-- (Access); security events go to a chained log (Audit). A workload is placed on a node by its load
-- (Placement). The parts, with paths from the repository's root:
--
-- - Prelude: names that all parts share. Maps is Go's maps as association lists, Text is Go's
--   `strings` and `unicode` on valid UTF-8, Results is `(value, error)`, Sort is `sort.Slice`, TextOrder
--   is the order of strings, Ints is signed integers where the source tests their sign.
-- - Job: internal/orchestration/job and internal/orchestration/events, the repository of jobs. Types
--   is the data of job.go and events.go, Retry is retry.go, Create is MemoryRepository.Create, Claim
--   is MemoryRepository.Claim, Repository has the other methods and cancel_version.go. Invariant,
--   Admission, Claiming, Runs, Terminal, Fencing and Exclusion are its proofs.
-- - ManualRetry: internal/orchestration/job, on top of Job. Requests is manual_retry.go, Repository is
--   manual_retry_memory.go and manual_retry_lookup_memory.go, History is manual_retry_history.go, whose
--   BuildManualRetryHistoryEvidence is `build_history`. Accepting is about what it accepts.
-- - Contracts: internal/corecontracts/metadata.go, the envelope of every object.
-- - Lifecycle: internal/nodelifecycle/lifecycle.go, on top of Contracts. States is the table of
--   transitions, Validation is Validate, ValidateInitial and ValidateTransition.
-- - Network: internal/networkpolicy. Policy is policy.go, Plan is change_plan.go, Machine is
--   change_machine.go: NewChangeMachine is `new_change_machine`, Apply is `apply_event`.
-- - Sync: internal/sitesync/state.go. Reconcile is `reconcile`.
-- - Offline: internal/siteoffline. Checks and Admission are admission.go, Reconnect is reconnect.go:
--   BuildAdmissionDecision and ClassifyReconnect are `build_admission_decision` and
--   `classify_reconnect`.
-- - Login: internal/identity/auth/login_protection.go. Blocked, RecordFailure and RecordSuccess are
--   `blocked`, `record_failure` and `record_success`.
-- - Auth: internal/identity/auth. Types is types.go, Store is memory_store.go, Setup, Service, Sessions
--   and Revoking are service.go and session_policy.go. Tokens is the abstract view of the sessions, by
--   the digest of a token; Dropping, Refine, Promise, Permits and Endings carry it through every call.
--   The service writes to a Logger, which stands for any implementation of the interface.
-- - Audit: internal/identity/audit/audit.go and integrity.go. Log is the chain of hashes, Reading is
--   Read.
-- - Placement: internal/placement/plan.go. BuildPlan is `build_plan`. Suiting and Normal say what its
--   constraints and its normal forms are.
-- - Access: internal/identity/rbac/rbac.go. Builtin is its table of permissions and roles.
-- - Approval: internal/orchestration/policy/policy.go and internal/orchestration/change/change.go.
--   New, Approve and Transition are `new_change`, `approve` and `change_state`. Preflight is
--   internal/orchestration/executionguard/preflight.go, whose Evaluate is `evaluate_preflight`.
--
-- Conventions. A method that runs under a mutex is one step: it takes the object and returns the new
-- one, with its results. Copies that protect an object from its callers are the identity, since
-- values are immutable here. An error is its sentinel, or the text of an error that has none.
-- A time is its nanoseconds, with 0 for the zero time; conversions to UTC are the identity. Values of
-- `uint64` keep their wrap-around, as `% 2 ^ 64` written out. An `int` or a duration whose negative
-- values the source treats as it treats zero is a natural number. A type of string constants is a
-- data type with one constructor for any other text, where such a text can occur. A loop is a
-- structural recursion over what it ranges over, and needs no fuel; the one loop without a bound, the
-- walk of a history, has as fuel one more than the entries of its index, which is enough. The order
-- in which Go iterates over a map is the order of the association list; nothing is assumed of it.
--
-- Parameters. What the source takes from libraries (JSON, digests, case mapping, the parser of
-- addresses, deep equality, texts of numbers) is a record of functions: Platform in Job,
-- PlanPlatform and MachinePlatform in Network, KeyPlatform in Login, AuthPlatform in Auth,
-- AuditPlatform in Audit, AdmissionPlatform and ReconnectPlatform in Offline, and one function in
-- Placement. Nothing is assumed of them but what a theorem names.
--
-- Not modelled: the packages around these (HTTP, SQL, templates, hosts), DecodeChangePlanRequest,
-- plans and projections of the node lifecycle, verification of network changes, capacity, the export
-- of the audit log, password hashing.
pub mod Prelude
pub mod Job
pub mod ManualRetry
pub mod Contracts
pub mod Lifecycle
pub mod Network
pub mod Sync
pub mod Login
pub mod Approval
pub mod Offline
pub mod Audit
pub mod Placement
pub mod Access
pub mod Auth
