-- ===== src/Login/Failures.antt =====
-- For internal/identity/auth/login_protection.go: single failures of a key, and single questions
-- about it.
use control_center_developme.Prelude.{
  ℕ, suc, ◌+◌, ◌<◌, ◌≡◌, refl, ap, String, true, false, none, some, leb, find, find-put, put, size,
  arith, =s_refl,
}
use control_center_developme.Login.Protection.{
  blocked_key, bucket_of, check_bucket, count_failure, empty_bucket, fail_bucket, is_blocked,
  LoginAttemptBucket, LoginProtectionPolicy, LoginProtector, normalize_bucket, put_bucket, put_new,
  record_failure_key,
}

-- The protector behind a failure that is counted.
abbrev pub counted : String → ℕ → ℕ → LoginProtector → LoginAttemptBucket → LoginProtector
counted key limit now p bucket = record p {
  buckets = put key (count_failure p.policy limit now bucket) p.buckets;
}

put_known :
    (key : String) (bucket old : LoginAttemptBucket) (now : ℕ) (p : LoginProtector)
    → find key p.buckets ≡ some old
    → put_bucket key bucket now p ≡ (record p { buckets = put key bucket p.buckets }, true)
unfolding put_bucket
put_known key bucket old now p e = rw (e, put_bucket) refl

put_first :
    (key : String) (bucket : LoginAttemptBucket) (now : ℕ) (p : LoginProtector)
    → find key p.buckets ≡ none
    → size p.buckets < p.policy.max_tracked_keys
    → put_bucket key bucket now p ≡ (record p { buckets = put key bucket p.buckets }, true)
unfolding put_bucket put_new
put_first key bucket now p e room =
    let free : leb p.policy.max_tracked_keys (size p.buckets) ≡ false = ground arith in
    rw (e, put_bucket, free, free) refl

-- A failure of a key that is not blocked, if its bucket is stored.
fail_free :
    (key : String) (limit now : ℕ) (p : LoginProtector) (bucket : LoginAttemptBucket)
    → normalize_bucket p.policy now (bucket_of (find key p.buckets)) ≡ bucket
    → bucket.blocked_until ≡ 0
    → put_bucket key (count_failure p.policy limit now bucket) now p
      ≡ (counted key limit now p bucket, true)
    → record_failure_key key limit now p
      ≡ (counted key limit now p bucket, is_blocked (count_failure p.policy limit now bucket) now)
unfolding record_failure_key fail_bucket
fail_free key limit now p bucket n free stored =
    let unblocked : is_blocked bucket now ≡ false = ground arith in
    rw (n, record_failure_key) (rw (unblocked, stored) refl)

-- A failure of a key that has a bucket, within its window.
fail_known :
    (key : String) (limit now : ℕ) (p : LoginProtector) (bucket : LoginAttemptBucket)
    → find key p.buckets ≡ some bucket
    → normalize_bucket p.policy now bucket ≡ bucket
    → bucket.blocked_until ≡ 0
    → record_failure_key key limit now p
      ≡ (counted key limit now p bucket, is_blocked (count_failure p.policy limit now bucket) now)
fail_known key limit now p bucket e n free =
    fail_free key limit now p bucket (rw e n) free
      (put_known key (count_failure p.policy limit now bucket) bucket now p e)

normalize_bucket-empty :
    (policy : LoginProtectionPolicy) (now : ℕ)
    → normalize_bucket policy now empty_bucket ≡ empty_bucket
unfolding normalize_bucket
normalize_bucket-empty policy now = ground arith

-- The first failure of a key, with room for its bucket.
pub fail_first :
    (key : String) (limit now : ℕ) (p : LoginProtector)
    → find key p.buckets ≡ none
    → size p.buckets < p.policy.max_tracked_keys
    → record_failure_key key limit now p ≡ (
      counted key limit now p empty_bucket,
      is_blocked (count_failure p.policy limit now empty_bucket) now,
    )
fail_first key limit now p e room =
    fail_free key limit now p empty_bucket (rw e (normalize_bucket-empty p.policy now)) refl
      (put_first key (count_failure p.policy limit now empty_bucket) now p e room)

-- The key has failed so many times in a window that began at `start`, and is not blocked.
pub record HasFailed (key : String) (start count : ℕ) (p : LoginProtector) : Type 0 where
  pub bucket : LoginAttemptBucket
  pub stored : find key p.buckets ≡ some bucket
  pub begun : bucket.window_started_at ≡ start
  pub count_is : bucket.failures ≡ count
  pub free : bucket.blocked_until ≡ 0

pub normalize_bucket-open :
    (policy : LoginProtectionPolicy) (now : ℕ) (bucket : LoginAttemptBucket)
    → now < bucket.window_started_at + policy.failure_window
    → bucket.blocked_until ≡ 0
    → normalize_bucket policy now bucket ≡ bucket
unfolding normalize_bucket
normalize_bucket-open policy now bucket h free = ground arith

-- A failure below the limit is counted, and does not block.
pub fail_below :
    (key : String) (limit now start count : ℕ) (p : LoginProtector)
    → HasFailed key start count p
    → 0 < start
    → now < start + p.policy.failure_window
    → suc count < limit
    → HasFailed key start (suc count) (record_failure_key key limit now p).0
      × ((record_failure_key key limit now p).0.policy ≡ p.policy)
fail_below key limit now start count p f dated within below =
    let open_window : now < f.bucket.window_started_at + p.policy.failure_window =
      omega (arith, f.begun, within) in
    let step =
      fail_known key limit now p f.bucket f.stored
        (normalize_bucket-open p.policy now f.bucket open_window f.free) f.free in
    rw step (
      record {
        bucket = count_failure p.policy limit now f.bucket;
        stored = rw (find-put, =s_refl) refl;
        begun = unfold count_failure in ground (arith, f.begun, dated);
        count_is = unfold count_failure in ap suc f.count_is;
        free = unfold count_failure in ground (arith, f.count_is, below, f.free);
      },
      refl,
    )

-- A key that has failed but is not blocked is answered so, at any time.
pub asked_free :
    (key : String) (start count now : ℕ) (p : LoginProtector)
    → HasFailed key start count p
    → (blocked_key key now p).1 ≡ false
unfolding check_bucket normalize_bucket blocked_key
asked_free key start count now p f = rw (f.stored, blocked_key) (let free = f.free in ground arith)

-- A key whose bucket is blocked is answered so until the block ends.
pub asked_blocked :
    (key : String) (now : ℕ) (p : LoginProtector) (bucket : LoginAttemptBucket)
    → find key p.buckets ≡ some bucket
    → now < bucket.blocked_until
    → (blocked_key key now p).1 ≡ true
unfolding check_bucket normalize_bucket blocked_key
asked_blocked key now p bucket e h = rw (e, blocked_key) (ground arith)

-- The failure that reaches the limit blocks, until `now` and the duration of a block.
pub fail_at_limit :
    (key : String) (limit now start count : ℕ) (p : LoginProtector)
    → HasFailed key start count p
    → now < start + p.policy.failure_window
    → limit ≡ suc count
    → 0 < p.policy.block_duration
    → ((record_failure_key key limit now p).1 ≡ true)
      × ((bucket : LoginAttemptBucket) × (find key (record_failure_key key limit now p).0.buckets
            ≡ some bucket)
          × (bucket.blocked_until ≡ now + p.policy.block_duration))
fail_at_limit key limit now start count p f within reached lasting =
    let open_window : now < f.bucket.window_started_at + p.policy.failure_window =
      omega (arith, f.begun, within) in
    let step =
      fail_known key limit now p f.bucket f.stored
        (normalize_bucket-open p.policy now f.bucket open_window f.free) f.free in
    rw step (
      unfold count_failure in ground (arith, f.count_is, reached, lasting),
      (
        count_failure p.policy limit now f.bucket,
        rw (find-put, =s_refl) refl,
        unfold count_failure in ground (arith, f.count_is, reached),
      ),
    )
