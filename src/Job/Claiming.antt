-- ===== src/Job/Claiming.antt =====
-- For internal/orchestration/job/memory.go: the jobs that Claim hands to a worker.
use control_center_developme.Prelude.{
  ℕ, ◌<◌, String, ◌≡◌, refl, inl, inr, Bool, true, false, Option, none, some, arith, List, [], ◌∷◌,
  ok, find, put, find-put, =s_iff, ltb, Result-cases, Store, All, IsKey, IsKey-put, keys,
  keys-IsKey, All-map_pointwise, ok-injective, some-injective,
}
use control_center_developme.Prelude.Sort.{sort-All}
use control_center_developme.Job.Types.{ContextError, Job, terminal, Lease}
use control_center_developme.Job.Repository.{Repository, Platform}
use control_center_developme.Job.Create.{or_zero}
use control_center_developme.Job.Claim.{
  claim, claim_loop, examine, eligible, settled, taken, skipped, Verdict, check_claim, sorted_ids,
  taken_job,
}

-- A live lease, which shuts other workers out.
abbrev pub is_live : ℕ → Option Lease → Bool
is_live now none = false
is_live now (some lease) = ltb now lease.expires_at

-- `next` is what `Claim` hands out of `old`.
pub record IsClaimOf (platform : Platform) (worker_id : String) (now ttl : ℕ) (old next : Job)
    : Type 0 where
  pub was_eligible : eligible now old ≡ true
  pub had_attempts : old.attempt < old.max_attempts
  pub next_job : next ≡ taken_job platform worker_id now ttl old

module _ (platform : Platform) (worker_id : String) (now ttl : ℕ) where
  examine-taken :
      (old next : Job)
      → examine platform worker_id now ttl old ≡ taken next
      → IsClaimOf platform worker_id now ttl old next
  unfolding examine
  examine-taken old next h = ground arith

  examine-settled :
      (old next : Job)
      → examine platform worker_id now ttl old ≡ settled next
      → terminal next.status ≡ true
  unfolding examine terminal
  examine-settled old next h = ground arith

  IsClaimOf-open :
      (old next : Job) → IsClaimOf platform worker_id now ttl old next → terminal old.status ≡ false
  unfolding eligible terminal
  IsClaimOf-open old next h = ground (arith, h.was_eligible)

  -- In the middle of the loop only jobs that are now terminal differ from those at its start.
  record OnlySettled (base jobs : Store Job) : Type 0 where
    open_same :
        (k : String) (job : Job)
        → find k jobs ≡ some job
        → terminal job.status ≡ false
        → find k base ≡ some job

  -- The job that is handed out, in the state before the loop and in the state after it.
  abbrev pub HandsOut : Store Job → Store Job → Job → Type 0
  HandsOut base after next =
      (id : String) × (old : Job) × IsClaimOf platform worker_id now ttl old next
      × (find id base ≡ some old)
      × (find id after ≡ some next)

  put-OnlySettled :
      (base jobs : Store Job) (id : String) (new : Job)
      → terminal new.status ≡ true
      → OnlySettled base jobs
      → OnlySettled base (put id new jobs)
  put-OnlySettled base jobs id new done s = record {
    open_same = λ k job e o. ground (arith, find-put id k new jobs, =s_iff id k, s.open_same k job);
  }

  claim_loop-HandsOut :
      (base : Store Job) (ids : List String) (jobs : Store Job) (next : Job)
      → OnlySettled base jobs
      → All (IsKey jobs) ids
      → (claim_loop platform worker_id now ttl ids jobs).1 ≡ some next
      → HandsOut base (claim_loop platform worker_id now ttl ids jobs).0 next
  unfolding claim_loop
  claim_loop-HandsOut base [] jobs next s all h = absurd (cc)
  claim_loop-HandsOut base (id ∷ ids) jobs next s ((old, at), all) h =
      go (examine platform worker_id now ttl (or_zero (find id jobs))) refl
        (claim_loop-HandsOut base ids)
    where
      go :
          (v : Verdict)
          → examine platform worker_id now ttl (or_zero (find id jobs)) ≡ v
          → ((rest : Store Job) (new : Job)
              → OnlySettled base rest
              → All (IsKey rest) ids
              → (claim_loop platform worker_id now ttl ids rest).1 ≡ some new
              → HandsOut base (claim_loop platform worker_id now ttl ids rest).0 new)
          → HandsOut base (claim_loop platform worker_id now ttl (id ∷ ids) jobs).0 next
      go (settled new) e rest =
          rw (e, claim_loop)
            (rest (put id new jobs) next
              (put-OnlySettled base jobs id new (examine-settled (or_zero (find id jobs)) new e) s)
              (All-map_pointwise ids (λ k. IsKey-put id k new jobs) all) (rw (e, claim_loop) at h))
      go (taken new) e rest =
          let same : new ≡ next = some-injective new next (rw (e, claim_loop) at h) in
          let c : IsClaimOf platform worker_id now ttl old new =
            examine-taken old new (rw at at e) in
          rw (e, claim_loop, ← same)
            (
              id,
              old,
              c,
              s.open_same id old at (IsClaimOf-open old new c),
              ground (arith, find-put id id new jobs, =s_iff id id),
            )
      go skipped e rest = rw (e, claim_loop) (rest jobs next s all (rw (e, claim_loop) at h))

  -- When `Claim` hands out a job, that job was stored and eligible with attempts left: queued, due
  -- for a retry, or running under a lease that has expired. It is now stored as running under a
  -- lease of the worker until `now + ttl`, with one attempt more.
  pub claim-HandsOut :
      (ctx : Option ContextError) (repo : Repository) (next : Job)
      → (claim platform ctx worker_id now ttl repo).1 ≡ ok (some next)
      → HandsOut repo.jobs (claim platform ctx worker_id now ttl repo).0.jobs next
  unfolding claim
  claim-HandsOut ctx repo next h = elim (Result-cases (check_claim ctx worker_id now ttl)) [
    | inl (a, e) ↦
        rw (e, claim)
          (claim_loop-HandsOut repo.jobs (sorted_ids platform repo.jobs) repo.jobs next
            (record { open_same = λ k job f o. f })
            (unfold sorted_ids in
              sort-All _ (IsKey repo.jobs) (keys repo.jobs) (keys-IsKey repo.jobs))
            (ok-injective _ _ (rw (e, claim) at h)))
    | inr (x, e) ↦ absurd (cc (rw (e, claim) at h))
  ]
