-- ===== src/Job/Admission.antt =====
-- For internal/orchestration/job/memory.go: Create and Claim against the invariant of
-- Invariant.antt.
use control_center_developme.Prelude.{
  ℕ, ◌<◌, String, ◌≡◌, refl, Option, none, some, arith, List, [], ◌∷◌, inl, inr, ◌⊎◌, All, IsKey,
  IsKey-put, keys-IsKey, keys, All-map_pointwise, Result, ok, err, find, put, find-put, =s_iff,
  Option-cases, Result-cases,
}
use control_center_developme.Prelude.Sort.{sort-All}
use control_center_developme.Job.Types.{ContextError, Error, Job, CreateRequest}
use control_center_developme.Job.Repository.{
  IdempotencyRecord, Repository, Platform, new_repository,
}
use control_center_developme.Job.Create.{or_zero, check_create, fresh_create, create, created_job}
use control_center_developme.Job.Claim.{
  examine, settled, taken, skipped, claim_loop, claim, Verdict, sorted_ids, check_claim,
}
use control_center_developme.Job.Invariant.{JobIsSound, IsSound, replace-IsSound}

pub new_repository-IsSound : IsSound new_repository
unfolding find
new_repository-IsSound = record { each = λ id job e. cc; indexed = λ key entry e. cc }

-- A new job with its idempotency key.
pub add-IsSound :
    (id key : String) (entry : IdempotencyRecord) (job : Job) (repo : Repository)
    → IsSound repo
    → find id repo.jobs ≡ none
    → JobIsSound id job
    → job.idempotency_key ≡ key
    → entry.job_id ≡ id
    → IsSound (record { jobs = put id job repo.jobs; idempotency = put key entry repo.idempotency })
add-IsSound id key entry job repo s new sound keyed at = record {
  each = λ i j e. ground (arith, find-put id i job repo.jobs, =s_iff id i, s.each i j);
  indexed = λ k f e. ground (
    arith,
    find-put key k entry repo.idempotency,
    =s_iff key k,
    find-put id f.job_id job repo.jobs,
    =s_iff id f.job_id,
    s.indexed k f,
  );
}

module _ (platform : Platform) where
  fresh_create-IsSound :
      (request : CreateRequest) (repo : Repository)
      → IsSound repo
      → 0 < request.max_attempts
      → IsSound (fresh_create platform request repo).0
  unfolding fresh_create
  fresh_create-IsSound request repo s p = elim (Option-cases (find request.id repo.jobs)) [
    | inl new ↦
        rw (new, fresh_create)
          (add-IsSound request.id request.idempotency_key _ (created_job platform request) repo s
            new (ground arith) refl refl)
    | inr old ↦ rw (old.1, fresh_create) s
  ]

  check_create-positive :
      (ctx : Option ContextError) (request : CreateRequest)
      → check_create platform ctx request ≡ ok tt
      → 0 < request.max_attempts
  unfolding check_create
  check_create-positive ctx request h = ground arith

  pub create-IsSound :
      (ctx : Option ContextError) (request : CreateRequest) (repo : Repository)
      → IsSound repo
      → IsSound (create platform ctx request repo).0
  unfolding create
  create-IsSound ctx request repo s =
      go (check_create platform ctx request) refl (find request.idempotency_key repo.idempotency)
        refl
    where
      go :
          (c : Result Error (Unit {0}))
          → check_create platform ctx request ≡ c
          → (o : Option IdempotencyRecord) → find request.idempotency_key repo.idempotency ≡ o
          → IsSound (create platform ctx request repo).0
      go (err e) h o k = rw (h, create) s
      go (ok tt) h (some entry) k = rw (h, k, create) s
      go (ok tt) h none k =
          rw (h, k, create)
            (fresh_create-IsSound request repo s (check_create-positive ctx request h))

  -- What one candidate of `Claim` becomes.
  examine_sound :
      (worker_id : String) (now ttl : ℕ) (id : String) (job next : Job)
      → JobIsSound id job
      → (examine platform worker_id now ttl job ≡ settled next)
        ⊎ (examine platform worker_id now ttl job ≡ taken next)
      → JobIsSound id next × (next.idempotency_key ≡ job.idempotency_key)
  unfolding examine
  examine_sound worker_id now ttl id job next s h = ground arith

  abbrev Verdict-IsSound : String → Job → Verdict → Type 0
  Verdict-IsSound id job (settled next) =
      JobIsSound id next × (next.idempotency_key ≡ job.idempotency_key)
  Verdict-IsSound id job (taken next) =
      JobIsSound id next × (next.idempotency_key ≡ job.idempotency_key)
  Verdict-IsSound id job skipped = Unit {0}

  examine-IsSound :
      (worker_id : String) (now ttl : ℕ) (id : String) (job : Job)
      → JobIsSound id job
      → Verdict-IsSound id job (examine platform worker_id now ttl job)
  examine-IsSound worker_id now ttl id job s = go (examine platform worker_id now ttl job) refl
    where
      go : (v : Verdict) → examine platform worker_id now ttl job ≡ v → Verdict-IsSound id job v
      go (settled next) h = examine_sound worker_id now ttl id job next s (inl h)
      go (taken next) h = examine_sound worker_id now ttl id job next s (inr h)
      go skipped h = tt

  claim_loop-IsSound :
      (worker_id : String) (now ttl : ℕ) (ids : List String) (repo : Repository)
      → IsSound repo
      → All (IsKey repo.jobs) ids
      → IsSound (record repo { jobs = (claim_loop platform worker_id now ttl ids repo.jobs).0 })
  unfolding claim_loop
  claim_loop-IsSound worker_id now ttl [] repo s all = s
  claim_loop-IsSound worker_id now ttl (id ∷ ids) repo s ((old, h), all) =
      go (examine platform worker_id now ttl (or_zero (find id repo.jobs))) refl
        (examine-IsSound worker_id now ttl id (or_zero (find id repo.jobs))
          (rw h (s.each id old h)))
        (claim_loop-IsSound worker_id now ttl ids)
    where
      go :
          (v : Verdict)
          → examine platform worker_id now ttl (or_zero (find id repo.jobs)) ≡ v
          → Verdict-IsSound id (or_zero (find id repo.jobs)) v
          → ((next : Repository)
              → IsSound next
              → All (IsKey next.jobs) ids
              → IsSound
                  (record next { jobs = (claim_loop platform worker_id now ttl ids next.jobs).0 }))
          → IsSound (record repo {
            jobs = (claim_loop platform worker_id now ttl (id ∷ ids) repo.jobs).0;
          })
      go (settled next) e q rest =
          rw (e, claim_loop)
            (rest (record repo { jobs = put id next repo.jobs })
              (replace-IsSound id repo next s (record { there = rw h; sound = q.0; key = q.1 }))
              (All-map_pointwise ids (λ k. IsKey-put id k next repo.jobs) all))
      go (taken next) e q rest =
          rw (e, claim_loop)
            (replace-IsSound id repo next s (record { there = rw h; sound = q.0; key = q.1 }))
      go skipped e q rest = rw (e, claim_loop) (rest repo s all)

  pub claim-IsSound :
      (ctx : Option ContextError) (worker_id : String) (now ttl : ℕ) (repo : Repository)
      → IsSound repo
      → IsSound (claim platform ctx worker_id now ttl repo).0
  unfolding claim
  claim-IsSound ctx worker_id now ttl repo s =
      elim (Result-cases (check_claim ctx worker_id now ttl)) [
        | inl (a, h) ↦
            rw (h, claim)
              (claim_loop-IsSound worker_id now ttl (sorted_ids platform repo.jobs) repo s (
                unfold sorted_ids in
                sort-All _ (IsKey repo.jobs) (keys repo.jobs) (keys-IsKey repo.jobs)))
        | inr (x, h) ↦ rw (h, claim) s
      ]
