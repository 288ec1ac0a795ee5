-- ===== src/Login/Protection.antt =====
-- internal/identity/auth/login_protection.go: buckets of failures, one for each account and each
-- source. A method of `*LoginProtector` runs under its mutex and returns the new protector. A bound
-- or a duration that is not positive is 0. The map of buckets is iterated in the order of the store.
use control_center_developme.Prelude.Text.{trim_space}
use control_center_developme.Prelude.{
  ℕ, suc, ◌+◌, String, Bool, true, false, not, ◌&&◌, ◌||◌, Option, none, some, [], ◌∷◌, ltb, leb,
  ◌==◌, ◌=s◌, if◌then◌else◌, Result, ◌>>◌, reject, Store, find, put, delete, size,
}

-- The errors of a policy; the texts are in the source.
pub data PolicyError : Type 0 where
  failure_window_range account_limit_range source_limit_range block_duration_range key_bound_range :
      PolicyError

pub record LoginProtectionPolicy : Type 0 where
  pub failure_window : ℕ
  pub account_failure_limit : ℕ
  pub source_failure_limit : ℕ
  pub block_duration : ℕ
  pub max_tracked_keys : ℕ

-- In nanoseconds.
abbrev pub minute : ℕ
minute = 60000000000

abbrev pub hour : ℕ
hour = 3600000000000

-- DefaultLoginProtectionPolicy
abbrev pub default_login_protection_policy : LoginProtectionPolicy
default_login_protection_policy = record {
  failure_window = 600000000000;
  account_failure_limit = 8;
  source_failure_limit = 30;
  block_duration = 900000000000;
  max_tracked_keys = 10000;
}

-- LoginProtectionPolicy.validate
unfoldable pub validate_policy : LoginProtectionPolicy → Result PolicyError (Unit {0})
validate_policy p = do
  reject (ltb p.failure_window minute || ltb hour p.failure_window) failure_window_range
  reject (ltb p.account_failure_limit 2 || ltb 100 p.account_failure_limit) account_limit_range
  reject (ltb p.source_failure_limit p.account_failure_limit || ltb 1000 p.source_failure_limit)
      source_limit_range
  reject (ltb p.block_duration minute || ltb 86400000000000 p.block_duration) block_duration_range
  reject (ltb p.max_tracked_keys 128 || ltb 1000000 p.max_tracked_keys) key_bound_range

pub record LoginAttemptBucket : Type 0 where
  pub window_started_at : ℕ
  pub failures : ℕ
  pub blocked_until : ℕ
  pub touched_at : ℕ

abbrev pub empty_bucket : LoginAttemptBucket
empty_bucket = record { window_started_at = 0; failures = 0; blocked_until = 0; touched_at = 0 }

pub record LoginProtector : Type 0 where
  pub policy : LoginProtectionPolicy
  pub buckets : Store LoginAttemptBucket

-- newLoginProtector
abbrev pub new_login_protector : LoginProtectionPolicy → LoginProtector
new_login_protector policy = record { policy = policy; buckets = [] }

-- `!bucket.BlockedUntil.IsZero() && now.Before(bucket.BlockedUntil)`
abbrev pub is_blocked : LoginAttemptBucket → ℕ → Bool
is_blocked bucket now = not (bucket.blocked_until == 0) && ltb now bucket.blocked_until

-- `bucket.Failures == 0 && bucket.BlockedUntil.IsZero()`
abbrev pub is_idle : LoginAttemptBucket → Bool
is_idle bucket = bucket.failures == 0 && bucket.blocked_until == 0

-- normalizeBucket
unfoldable pub normalize_bucket :
    LoginProtectionPolicy → ℕ → LoginAttemptBucket → LoginAttemptBucket
normalize_bucket policy now bucket =
    if not (bucket.blocked_until == 0) && not (ltb now bucket.blocked_until)
    then empty_bucket
    else if bucket.blocked_until == 0
        && not (bucket.window_started_at == 0)
        && not (ltb now (bucket.window_started_at + policy.failure_window))
    then empty_bucket
    else bucket

-- blockedLocked, on a bucket that is normalized
unfoldable pub check_bucket :
    String → ℕ → LoginProtector → LoginAttemptBucket → LoginProtector × Bool
check_bucket key now p bucket =
    if is_idle bucket then (record p { buckets = delete key p.buckets }, false) else (
      record p { buckets = put key (record bucket { touched_at = now }) p.buckets },
      is_blocked bucket now,
    )

-- blockedLocked
unfoldable pub blocked_key : String → ℕ → LoginProtector → LoginProtector × Bool
unfolding check_bucket
blocked_key key now p = elim (find key p.buckets) [
  | none ↦ (p, false)
  | some bucket ↦ check_bucket key now p (normalize_bucket p.policy now bucket)
]

-- `!found || normalized.TouchedAt.Before(oldest)`
abbrev pub is_older : ℕ → Option (String × ℕ) → Bool
is_older touched none = true
is_older touched (some (key, oldest)) = ltb touched oldest

-- `oldestKey`, if `found`
abbrev pub found_key : Option (String × ℕ) → Option String
found_key none = none
found_key (some (key, oldest)) = some key

-- The loop of evictOldestEvictableLocked: the key that it deletes, if there is one.
unfoldable pub evict_loop :
    LoginProtectionPolicy → ℕ → Option (String × ℕ) → Store LoginAttemptBucket → Option String
unfolding normalize_bucket
evict_loop policy now oldest [] = found_key oldest
evict_loop policy now oldest ((key, bucket) ∷ rest) =
    let normalized : LoginAttemptBucket = normalize_bucket policy now bucket in
    let skip : Option String = evict_loop policy now oldest rest in
    let take : Option String = evict_loop policy now (some (key, normalized.touched_at)) rest in
    if is_idle normalized
    then some key
    else if is_blocked normalized now
    then skip
    else if is_older normalized.touched_at oldest
    then take
    else skip

-- evictOldestEvictableLocked
unfoldable pub evict_oldest : ℕ → LoginProtector → LoginProtector
evict_oldest now p = elim (evict_loop p.policy now none p.buckets) [
  | none ↦ p
  | some key ↦ record p { buckets = delete key p.buckets }
]

-- putBucketLocked, for a key that has no bucket, behind the eviction
unfoldable pub put_new : String → LoginAttemptBucket → LoginProtector → LoginProtector × Bool
put_new key bucket p =
    if leb p.policy.max_tracked_keys (size p.buckets)
    then (p, false)
    else (record p { buckets = put key bucket p.buckets }, true)

-- putBucketLocked
unfoldable pub put_bucket : String → LoginAttemptBucket → ℕ → LoginProtector → LoginProtector × Bool
unfolding put_new evict_oldest
put_bucket key bucket now p = elim (find key p.buckets) [
  | some old ↦ (record p { buckets = put key bucket p.buckets }, true)
  | none ↦
      put_new key bucket
        (if leb p.policy.max_tracked_keys (size p.buckets) then evict_oldest now p else p)
]

-- `p.buckets[key]`
abbrev pub bucket_of : Option LoginAttemptBucket → LoginAttemptBucket
bucket_of none = empty_bucket
bucket_of (some bucket) = bucket

-- The bucket behind one more failure.
unfoldable pub count_failure :
    LoginProtectionPolicy → ℕ → ℕ → LoginAttemptBucket → LoginAttemptBucket
count_failure policy limit now bucket = record {
  window_started_at = if bucket.window_started_at == 0 then now else bucket.window_started_at;
  failures = suc bucket.failures;
  blocked_until =
      if leb limit (suc bucket.failures) then now + policy.block_duration else bucket.blocked_until;
  touched_at = now;
}

-- recordFailureLocked, on a bucket that is normalized
unfoldable pub fail_bucket :
    String → ℕ → ℕ → LoginProtector → LoginAttemptBucket → LoginProtector × Bool
unfolding put_bucket count_failure
fail_bucket key limit now p bucket =
    if is_blocked bucket now
    then ((put_bucket key (record bucket { touched_at = now }) now p).0, true)
    else let counted : LoginAttemptBucket = count_failure p.policy limit now bucket in
      let stored : LoginProtector × Bool = put_bucket key counted now p in
      (stored.0, not stored.1 || is_blocked counted now)

-- recordFailureLocked
unfoldable pub record_failure_key : String → ℕ → ℕ → LoginProtector → LoginProtector × Bool
unfolding fail_bucket
record_failure_key key limit now p =
    fail_bucket key limit now p (normalize_bucket p.policy now (bucket_of (find key p.buckets)))

-- What the keys take from `crypto/sha256` with `encoding/hex`, of a kind and a value that are
-- joined by a NUL, from `strings.ToLower`, and from `net.ParseIP` with `IP.String`.
pub record KeyPlatform : Type 0 where
  pub protected_login_key : String → String → String
  pub to_lower : String → String
  pub parse_ip : String → Option String

module _ (platform : KeyPlatform) where
  open platform use {protected_login_key, to_lower, parse_ip}

  -- loginAccountProtectionKey, with normalizeUsername
  abbrev pub login_account_protection_key : String → String
  login_account_protection_key username =
      protected_login_key "account" (to_lower (trim_space username))

  abbrev pub canonical_source : Option String → String → String
  canonical_source (some parsed) source_ip = parsed
  canonical_source none source_ip = to_lower source_ip

  abbrev pub or_unknown : String → String
  or_unknown source_ip = if source_ip =s "" then "unknown" else source_ip

  -- loginSourceProtectionKey
  abbrev pub login_source_protection_key : String → String
  login_source_protection_key source_ip =
      let trimmed : String = trim_space source_ip in
      protected_login_key "source" (or_unknown (canonical_source (parse_ip trimmed) trimmed))

  -- LoginProtector.Blocked
  unfoldable pub blocked : String → String → ℕ → LoginProtector → LoginProtector × Bool
  unfolding blocked_key
  blocked username source_ip now p =
      let account : LoginProtector × Bool =
        blocked_key (login_account_protection_key username) now p in
      let source : LoginProtector × Bool =
        blocked_key (login_source_protection_key source_ip) now account.0 in
      (source.0, account.1 || source.1)

  -- LoginProtector.RecordFailure
  unfoldable pub record_failure : String → String → ℕ → LoginProtector → LoginProtector × Bool
  unfolding record_failure_key
  record_failure username source_ip now p =
      let account : LoginProtector × Bool =
        record_failure_key (login_account_protection_key username) p.policy.account_failure_limit
          now p in
      let source : LoginProtector × Bool =
        record_failure_key (login_source_protection_key source_ip)
          account.0.policy.source_failure_limit now account.0 in
      (source.0, account.1 || source.1)

  -- LoginProtector.RecordSuccess
  unfoldable pub record_success : String → LoginProtector → LoginProtector
  record_success username p = record p {
    buckets = delete (login_account_protection_key username) p.buckets;
  }
