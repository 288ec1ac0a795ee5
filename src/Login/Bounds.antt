-- ===== src/Login/Bounds.antt =====
-- For internal/identity/auth/login_protection.go: the number of keys that a protector tracks,
-- through any calls.
use control_center_developme.Prelude.{
  ℕ, ◌≤◌, ◌≡◌, refl, ap, String, not, ◌&&◌, none, some, Option-cases, Bool-cases, inl, inr, List,
  [], ◌∷◌, ltb, leb, ◌==◌, find, size, size-put, size-put_old, size-delete, arith,
}
use control_center_developme.Login.Protection.{
  blocked, blocked_key, bucket_of, check_bucket, count_failure, evict_loop, evict_oldest,
  fail_bucket, KeyPlatform, LoginAttemptBucket, LoginProtectionPolicy, LoginProtector,
  new_login_protector, normalize_bucket, put_bucket, put_new, record_failure, record_failure_key,
  record_success,
}

-- The protector stays within its policy, and keeps it.
pub record IsWithin (policy : LoginProtectionPolicy) (p : LoginProtector) : Type 0 where
  pub same : p.policy ≡ policy
  pub bounded : size p.buckets ≤ policy.max_tracked_keys

evict_oldest-IsWithin :
    (policy : LoginProtectionPolicy) (now : ℕ) (p : LoginProtector)
    → IsWithin policy p
    → IsWithin policy (evict_oldest now p)
unfolding evict_oldest
evict_oldest-IsWithin policy now p w =
    elim (Option-cases (evict_loop p.policy now none p.buckets)) [
      | inl e ↦ rw (e, evict_oldest) w
      | inr (key, e) ↦
          rw (e, evict_oldest)
            (record {
              same = w.same;
              bounded = omega (arith, size-delete key p.buckets, w.bounded);
            })
    ]

put_new-IsWithin :
    (policy : LoginProtectionPolicy) (key : String) (bucket : LoginAttemptBucket)
    (p : LoginProtector)
    → IsWithin policy p
    → IsWithin policy (put_new key bucket p).0
unfolding put_new
put_new-IsWithin policy key bucket p w =
    let bound : p.policy.max_tracked_keys ≡ policy.max_tracked_keys =
      ap (λ (q : LoginProtectionPolicy). q.max_tracked_keys) w.same in
    elim (Bool-cases (leb p.policy.max_tracked_keys (size p.buckets))) [
      | inl e ↦ rw e w
      | inr e ↦ rw e (record {
        same = w.same;
        bounded = ground (arith, bound, e, size-put key bucket p.buckets);
      })
    ]

put_bucket-IsWithin :
    (policy : LoginProtectionPolicy) (key : String) (bucket : LoginAttemptBucket) (now : ℕ)
    (p : LoginProtector)
    → IsWithin policy p
    → IsWithin policy (put_bucket key bucket now p).0
unfolding put_bucket
put_bucket-IsWithin policy key bucket now p w = elim (Option-cases (find key p.buckets)) [
  | inl e ↦ elim (Bool-cases (leb p.policy.max_tracked_keys (size p.buckets))) [
    | inl full ↦
        rw (e, put_bucket, full)
          (put_new-IsWithin policy key bucket (evict_oldest now p)
            (evict_oldest-IsWithin policy now p w))
    | inr room ↦ rw (e, put_bucket, room) (put_new-IsWithin policy key bucket p w)
  ]
  | inr (old, e) ↦
      rw (e, put_bucket)
        (record {
          same = w.same;
          bounded = omega (arith, size-put_old key bucket old p.buckets e, w.bounded);
        })
]

check_bucket-IsWithin :
    (policy : LoginProtectionPolicy) (key : String) (now : ℕ) (p : LoginProtector)
    (old bucket : LoginAttemptBucket)
    → find key p.buckets ≡ some old
    → IsWithin policy p
    → IsWithin policy (check_bucket key now p bucket).0
unfolding check_bucket
check_bucket-IsWithin policy key now p old bucket e w =
    elim (Bool-cases (bucket.failures == 0 && bucket.blocked_until == 0)) [
      | inl idle ↦
          rw idle (record {
            same = w.same;
            bounded = omega (arith, size-delete key p.buckets, w.bounded);
          })
      | inr busy ↦ rw busy (record {
        same = w.same;
        bounded = omega (
          arith,
          size-put_old key (record bucket { touched_at = now }) old p.buckets e,
          w.bounded,
        );
      })
    ]

blocked_key-IsWithin :
    (policy : LoginProtectionPolicy) (key : String) (now : ℕ) (p : LoginProtector)
    → IsWithin policy p
    → IsWithin policy (blocked_key key now p).0
unfolding blocked_key
blocked_key-IsWithin policy key now p w = elim (Option-cases (find key p.buckets)) [
  | inl e ↦ rw (e, blocked_key) w
  | inr (old, e) ↦
      rw (e, blocked_key)
        (check_bucket-IsWithin policy key now p old (normalize_bucket p.policy now old) e w)
]

fail_bucket-IsWithin :
    (policy : LoginProtectionPolicy) (key : String) (limit now : ℕ) (p : LoginProtector)
    (bucket : LoginAttemptBucket)
    → IsWithin policy p
    → IsWithin policy (fail_bucket key limit now p bucket).0
unfolding fail_bucket
fail_bucket-IsWithin policy key limit now p bucket w =
    elim (Bool-cases (not (bucket.blocked_until == 0) && ltb now bucket.blocked_until)) [
      | inl e ↦ rw e (put_bucket-IsWithin policy key (record bucket { touched_at = now }) now p w)
      | inr e ↦
          rw e (put_bucket-IsWithin policy key (count_failure p.policy limit now bucket) now p w)
    ]

record_failure_key-IsWithin :
    (policy : LoginProtectionPolicy) (key : String) (limit now : ℕ) (p : LoginProtector)
    → IsWithin policy p
    → IsWithin policy (record_failure_key key limit now p).0
unfolding record_failure_key
record_failure_key-IsWithin policy key limit now p w =
    fail_bucket-IsWithin policy key limit now p
      (normalize_bucket p.policy now (bucket_of (find key p.buckets))) w

-- The calls of a protector.
pub data Call : Type 0 where
  ask : String → String → ℕ → Call
  failed : String → String → ℕ → Call
  succeeded : String → Call

module _ (platform : KeyPlatform) where
  unfoldable pub step : Call → LoginProtector → LoginProtector
  step (ask username source_ip now) p = (blocked platform username source_ip now p).0
  step (failed username source_ip now) p = (record_failure platform username source_ip now p).0
  step (succeeded username) p = record_success platform username p

  unfoldable pub run : List Call → LoginProtector → LoginProtector
  unfolding step
  run [] p = p
  run (call ∷ calls) p = run calls (step call p)

  step-IsWithin :
      (policy : LoginProtectionPolicy) (call : Call) (p : LoginProtector)
      → IsWithin policy p
      → IsWithin policy (step call p)
  unfolding step blocked record_failure record_success
  step-IsWithin policy (ask username source_ip now) p w =
      blocked_key-IsWithin policy _ now _ (blocked_key-IsWithin policy _ now p w)
  step-IsWithin policy (failed username source_ip now) p w =
      record_failure_key-IsWithin policy _ _ now _ (record_failure_key-IsWithin policy _ _ now p w)
  step-IsWithin policy (succeeded username) p w = record {
    same = w.same;
    bounded = omega (arith, size-delete _ p.buckets, w.bounded);
  }

  run-IsWithin_from :
      (policy : LoginProtectionPolicy) (calls : List Call) (p : LoginProtector)
      → IsWithin policy p
      → IsWithin policy (run calls p)
  unfolding run
  run-IsWithin_from policy [] p w = w
  run-IsWithin_from policy (call ∷ calls) p w =
      run-IsWithin_from policy calls (step call p) (step-IsWithin policy call p w)

  -- A new protector never tracks more keys than its policy allows, whatever calls it is given.
  pub run-IsWithin :
      (policy : LoginProtectionPolicy) (calls : List Call)
      → IsWithin policy (run calls (new_login_protector policy))
  run-IsWithin policy calls =
      run-IsWithin_from policy calls (new_login_protector policy)
        (record { same = refl; bounded = unfold size in omega arith })
