-- ===== src/Login/Blocking.antt =====
-- For internal/identity/auth/login_protection.go: sequences of failures of a key, and successes.
use control_center_developme.Prelude.{
  ℕ, suc, ◌+◌, ◌<◌, ◌≡◌, refl, sym, ap, ◌∙◌, String, true, false, none, List, [], ◌∷◌, length, ◌=s◌,
  Store, find, find-put, find-delete, delete, size, arith, All, =s_refl,
}
use mathlib.Core.Path.{subst}
use control_center_developme.Login.Protection.{
  blocked_key, check_bucket, count_failure, empty_bucket, KeyPlatform, LoginAttemptBucket,
  LoginProtectionPolicy, LoginProtector, record_failure_key, record_success,
  login_account_protection_key,
}
use control_center_developme.Login.Failures.{
  asked_blocked, asked_free, counted, fail_at_limit, fail_below, fail_first, HasFailed,
}

-- Failures of a key, at these times.
unfoldable pub record_failures : String → ℕ → List ℕ → LoginProtector → LoginProtector
record_failures key limit [] p = p
record_failures key limit (now ∷ times) p =
    record_failures key limit times (record_failure_key key limit now p).0

failures_below :
    (key : String) (limit start count : ℕ) (times : List ℕ) (p : LoginProtector)
    → HasFailed key start count p
    → 0 < start
    → All (λ now. now < start + p.policy.failure_window) times
    → length times + count < limit
    → HasFailed key start (length times + count) (record_failures key limit times p)
      × ((record_failures key limit times p).policy ≡ p.policy)
unfolding record_failures
failures_below key limit start count [] p f dated within below =
    (subst (λ (n : ℕ). HasFailed key start n p) (omega arith) f, refl)
failures_below key limit start count (now ∷ times) p f dated within below =
    let (g, same) =
      fail_below key limit now start count p f dated within.0 (omega (arith, below)) in
    let window : p.policy.failure_window
        ≡ (record_failure_key key limit now p).0.policy.failure_window =
      ap (λ (q : LoginProtectionPolicy). q.failure_window) (sym same) in
    let (h, kept) =
      failures_below key limit start (suc count) times (record_failure_key key limit now p).0 g
        dated (subst (λ (w : ℕ). All (λ t. t < start + w) times) window within.1)
        (omega (arith, below)) in
    (
      subst
          (λ (n : ℕ).
            HasFailed key start n
              (record_failures key limit times (record_failure_key key limit now p).0))
          (omega arith) h,
      kept ∙ same,
    )

-- What failures of a key up to its limit lead to: `before` is the protector behind all of them but
-- the last, `after` behind the last one.
pub record BlocksAtLimit (key : String) (limit last : ℕ) (before : LoginProtector) : Type 0 where
  pub not_before : (now : ℕ) → (blocked_key key now before).1 ≡ false
  pub at_limit : (record_failure_key key limit last before).1 ≡ true
  pub afterwards :
      (now : ℕ)
      → now < last + before.policy.block_duration
      → (blocked_key key now (record_failure_key key limit last before).0).1 ≡ true

HasFailed-BlocksAtLimit :
    (key : String) (limit last start count : ℕ) (before : LoginProtector)
    → HasFailed key start count before
    → last < start + before.policy.failure_window
    → limit ≡ suc count
    → 0 < before.policy.block_duration
    → BlocksAtLimit key limit last before
HasFailed-BlocksAtLimit key limit last start count before f within reached lasting =
    let (at, blocks) = fail_at_limit key limit last start count before f within reached lasting in
    let (bucket, stored, until) = blocks in
    record {
      not_before = λ now. asked_free key start count now before f;
      at_limit = at;
      afterwards = λ now h.
          asked_blocked key now (record_failure_key key limit last before).0 bucket stored
            (omega (arith, until, h));
    }

-- A key that the protector does not know, with room for it, fails at `start`, at some times and at
-- last, all within the window of failures that begins at `start`, as often as its limit: it is not
-- blocked before the last failure, which blocks it, and it is blocked until the duration of a block
-- has passed.
pub failures-BlocksAtLimit :
    (key : String) (limit start last : ℕ) (times : List ℕ) (p : LoginProtector)
    → find key p.buckets ≡ none
    → size p.buckets < p.policy.max_tracked_keys
    → 0 < start
    → 0 < p.policy.block_duration
    → All (λ now. now < start + p.policy.failure_window) times
    → last < start + p.policy.failure_window
    → limit ≡ 2 + length times
    → BlocksAtLimit key limit last (record_failures key limit (start ∷ times) p)
unfolding record_failures
failures-BlocksAtLimit key limit start last times p new room dated lasting within end reached =
    let step = fail_first key limit start p new room in
    let q : LoginProtector = counted key limit start p empty_bucket in
    let first : HasFailed key start 1 q = record {
      bucket = count_failure p.policy limit start empty_bucket;
      stored = rw (find-put, =s_refl) refl;
      begun = unfold count_failure in ground arith;
      count_is = unfold count_failure in refl;
      free = unfold count_failure in ground (arith, reached);
    } in
    let (failed, same) =
      failures_below key limit start 1 times q first dated within (omega (arith, reached)) in
    rw step (
      HasFailed-BlocksAtLimit key limit last start (length times + 1)
        (record_failures key limit times q) failed
        (rw (ap (λ (policy : LoginProtectionPolicy). policy.failure_window) same) end)
        (omega (arith, reached))
        (rw (ap (λ (policy : LoginProtectionPolicy). policy.block_duration) same) lasting))

same_answer :
    (key : String) (now : ℕ) (p : LoginProtector) (others : Store LoginAttemptBucket)
    → find key others ≡ find key p.buckets
    → (blocked_key key now (record p { buckets = others })).1 ≡ (blocked_key key now p).1
unfolding blocked_key check_bucket
same_answer key now p others h = ground (arith, h)

no_answer :
    (key : String) (now : ℕ) (p : LoginProtector)
    → find key p.buckets ≡ none
    → (blocked_key key now p).1 ≡ false
unfolding blocked_key
no_answer key now p h = ground (arith, h)

-- A success forgets the failures of the account, which is not blocked any more, and changes the
-- answer for no other key.
pub record_success-blocked_key :
    (platform : KeyPlatform) (username key : String) (now : ℕ) (p : LoginProtector)
    → ((blocked_key
          (login_account_protection_key platform username)
          now
          (record_success platform username p)).1
        ≡ false)
      × ((login_account_protection_key platform username =s key) ≡ false
          → (blocked_key key now (record_success platform username p)).1
            ≡ (blocked_key key now p).1)
unfolding record_success
record_success-blocked_key platform username key now p =
    let account = login_account_protection_key platform username in
    (
      no_answer account now (record p { buckets = delete account p.buckets })
          (rw (find-delete, =s_refl) refl),
      λ other. same_answer key now p (delete account p.buckets) (rw (find-delete, other) refl),
    )
