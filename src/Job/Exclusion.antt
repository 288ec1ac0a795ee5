-- ===== src/Job/Exclusion.antt =====
-- For internal/orchestration/job/memory.go and cancel_version.go: leases that Claim respects,
-- replays of Create, and the cancellation that is bound to a version.
use control_center_developme.Prelude.{
  ℕ, ◌+◌, ◌%◌, sym, ◌<◌, ◌≤◌, String, ◌≡◌, refl, true, false, Option, none, some, arith, Result, ok,
  err, find, put, find-put, =s_refl, ltb, if◌then◌else◌, ◌==◌,
}
use mathlib.Core.Path.{subst}
use text.Mathlib.TextPositions.{eq_refl}
use control_center_developme.Job.Types.{
  ContextError, Error, context, required, version_conflict, Job, CreateRequest, Lease, running,
}
use control_center_developme.Job.Repository.{
  Repository, Platform, request_cancel, request_cancel_if_version, cancellable,
  cancellable_if_version,
}
use control_center_developme.Job.Create.{
  create, check_create, replay_create, fingerprint, created_job,
}
use control_center_developme.Job.Claim.{claim, eligible, lease_token}
use control_center_developme.Job.Invariant.{IsSound, JobIsSound}
use control_center_developme.Job.Claiming.{is_live, IsClaimOf, claim-HandsOut}

-- What `RequestCancelIfVersion` reports of a version that has passed, after its other checks.
abbrev pub version_refusal : Option ContextError → ℕ → Result Error Job
version_refusal (some e) now = err (context e)
version_refusal none now =
    if ltb 0 now then err version_conflict else err (required "cancellation time is required")

-- `before` and `after` are the stored jobs of one id, and `next` is what the worker got.
pub record Takes (worker_id : String) (now ttl : ℕ) (before next : Job) : Type 0 where
  pub not_live : is_live now before.lease ≡ false
  pub same_id : next.id ≡ before.id
  pub one_more : next.attempt ≡ before.attempt + 1
  pub in_bounds : next.attempt ≤ next.max_attempts
  pub held : next.status ≡ running
  pub owned :
      (lease : Lease) × (next.lease ≡ some lease)
      × (lease.worker_id ≡ worker_id)
      × (lease.expires_at ≡ now + ttl)

module _ (platform : Platform) where
  IsClaimOf-Takes :
      (worker_id : String) (now ttl : ℕ) (id : String) (old next : Job)
      → JobIsSound id old
      → IsClaimOf platform worker_id now ttl old next
      → Takes worker_id now ttl old next
  unfolding eligible
  IsClaimOf-Takes worker_id now ttl id old next s c = record {
    not_live = ground (arith, s.leased, c.was_eligible);
    same_id = ground (arith, c.next_job);
    one_more = ground (arith, c.next_job);
    in_bounds = ground (arith, c.next_job, c.had_attempts);
    held = ground (arith, c.next_job);
    owned = (
      record {
        token =
            lease_token platform old.id ((old.version + 1) % 18446744073709551616) worker_id now;
        worker_id = worker_id;
        expires_at = now + ttl;
      },
      ground (arith, c.next_job),
      refl,
      refl,
    );
  }

  -- From a sound repository, a job that `Claim` hands out was stored under its id with no live
  -- lease, and is stored there now as running, one attempt further and within its attempts, under
  -- a lease of this worker that ends at `now + ttl`.
  pub claim-Takes :
      (ctx : Option ContextError) (worker_id : String) (now ttl : ℕ) (repo : Repository)
      (next : Job)
      → IsSound repo
      → (claim platform ctx worker_id now ttl repo).1 ≡ ok (some next)
      → (old : Job) × (find next.id repo.jobs ≡ some old)
        × (find next.id (claim platform ctx worker_id now ttl repo).0.jobs ≡ some next)
        × Takes worker_id now ttl old next
  claim-Takes ctx worker_id now ttl repo next s h =
      let (id, old, c, before, after) = claim-HandsOut platform worker_id now ttl ctx repo next h in
      let t : Takes worker_id now ttl old next =
        IsClaimOf-Takes worker_id now ttl id old next (s.each id old before) c in
      let same : next.id ≡ id = cc (t.same_id, (s.each id old before).keyed) in
      (
        old,
        subst (λ (k : String). find k repo.jobs ≡ some old) (sym same) before,
        subst
            (λ (k : String). find k (claim platform ctx worker_id now ttl repo).0.jobs ≡ some next)
            (sym same) after,
        t,
      )

  -- What the repository is after a `Create` that made a job.
  abbrev extended : CreateRequest → Repository → Repository
  extended request repo = record {
    jobs = put request.id (created_job platform request) repo.jobs;
    idempotency =
        put request.idempotency_key
          (record { job_id = request.id; fingerprint = fingerprint platform request })
          repo.idempotency;
  }

  create-extended :
      (ctx : Option ContextError) (request : CreateRequest) (repo : Repository) (job : Job)
      → (create platform ctx request repo).1 ≡ ok (job, true)
      → ((create platform ctx request repo).0 ≡ extended request repo)
        × (job ≡ created_job platform request)
        × (check_create platform none request ≡ ok tt)
  unfolding create
  create-extended ctx request repo job h = (ground arith, ground arith, ground arith)

  create-replay :
      (request : CreateRequest) (repo : Repository) (job : Job)
      → check_create platform none request ≡ ok tt
      → find request.idempotency_key repo.idempotency
        ≡ some (record { job_id = request.id; fingerprint = fingerprint platform request })
      → find request.id repo.jobs ≡ some job
      → job.max_attempts ≡ request.max_attempts
      → create platform none request repo ≡ (repo, ok (job, false))
  unfolding replay_create create
  create-replay request repo job c k f m =
      rw (c, k, create) (ground (arith, eq_refl (fingerprint platform request)))

  -- A `Create` that made a job, called again with the same request, returns that job as not
  -- created and changes nothing.
  pub create-create :
      (ctx : Option ContextError) (request : CreateRequest) (repo : Repository) (job : Job)
      → (create platform ctx request repo).1 ≡ ok (job, true)
      → create platform none request (create platform ctx request repo).0
        ≡ ((create platform ctx request repo).0, ok (job, false))
  create-create ctx request repo job h =
      let (after, made, checked) = create-extended ctx request repo job h in
      rw (after, made)
        (create-replay request (extended request repo) (created_job platform request) checked
          (rw (find-put, =s_refl)) (rw (find-put, =s_refl)) refl)

-- `RequestCancelIfVersion` at the version that a stored job has is `RequestCancel`; at any other
-- positive version it reports the conflict, behind the errors of its other checks, and writes
-- nothing.
pub request_cancel_if_version-eq :
    (ctx : Option ContextError) (id : String) (expected now : ℕ) (repo : Repository) (job : Job)
    → find id repo.jobs ≡ some job
    → 0 < expected
    → request_cancel_if_version ctx id expected now repo ≡ (
        if job.version == expected
        then request_cancel ctx id now repo
        else (repo, version_refusal ctx now))
unfolding request_cancel_if_version request_cancel cancellable cancellable_if_version
request_cancel_if_version-eq ctx id expected now repo job there p = ground arith
