-- ===== src/Job/Retry.antt =====
-- internal/orchestration/job/retry.go: the exponential backoff, and its closed form.
-- A `time.Duration` is an int64. `delay *= 2` is written with its wrap-around, as the bit pattern
-- of the product.
use native.Mathlib.Nat.{pow-suc}
use control_center_developme.Prelude.{
  ℕ, zero, suc, ◌-◌, ◌*◌, ◌/◌, ◌%◌, ◌^◌, ◌≤◌, ◌<◌, min, ◌≡◌, ◌&&◌, arith, ltb, leb, ◌==◌,
  if◌then◌else◌,
}
use control_center_developme.Job.Types.{RetryPolicy}

abbrev pub max_retry_delay : ℕ
max_retry_delay = 9223372036854775807

-- policy.BaseDelay, or one second.
unfoldable pub base_of : RetryPolicy → ℕ
base_of policy = if policy.base_delay == 0 then 1000000000 else policy.base_delay

-- The loop `for i := 1; i < attempt; i++`, with the rounds that are left, and the test behind it.
double_delay : ℕ → ℕ → ℕ → ℕ
double_delay max_delay zero delay =
    if ltb 0 max_delay && ltb max_delay delay then max_delay else delay
double_delay max_delay (suc rounds) delay =
    let rest = double_delay max_delay rounds (delay * 2 % 18446744073709551616) in
    if ltb 0 max_delay && leb max_delay delay
    then max_delay
    else if ltb (max_retry_delay / 2) delay
    then (if ltb 0 max_delay then max_delay else max_retry_delay)
    else rest

unfoldable pub retry_delay : ℕ → RetryPolicy → ℕ
unfolding base_of double_delay
retry_delay attempt policy =
    if ltb 0 policy.max_delay && leb policy.max_delay (base_of policy)
    then policy.max_delay
    else double_delay policy.max_delay (attempt - 1) (base_of policy)

-- What the delay is capped by: an explicit maximum, or the largest duration.
unfoldable pub cap_of : RetryPolicy → ℕ
cap_of policy = if policy.max_delay == 0 then max_retry_delay else policy.max_delay

abbrev cap_for : ℕ → ℕ
cap_for max_delay = if max_delay == 0 then max_retry_delay else max_delay

pow-pos : (n : ℕ) → 1 ≤ 2 ^ n
pow-pos zero = omega arith
pow-pos (suc n) = rw pow-suc (omega (arith, pow-pos n))

le-scale : (n d : ℕ) → d ≤ d * 2 ^ n
le-scale n d = grind (arith, pow-pos n)

scale-suc : (n d : ℕ) → d * 2 ^ suc n ≡ d * 2 * 2 ^ n
scale-suc n d = rw pow-suc (grind arith)

double_delay-eq-min :
    (max_delay rounds delay : ℕ)
    → 0 < delay
    → delay ≤ max_retry_delay
    → max_delay ≤ max_retry_delay
    → double_delay max_delay rounds delay ≡ min (delay * 2 ^ rounds) (cap_for max_delay)
unfolding double_delay
double_delay-eq-min m zero d p b c = ground arith
double_delay-eq-min m (suc n) d p b c =
    rw (scale-suc n d)
      (ground (arith, double_delay-eq-min m n (d * 2 % 18446744073709551616), le-scale n (d * 2)))

-- The delay is the base delay doubled once for each attempt behind the first, capped by the
-- explicit maximum or else by the largest duration, for every attempt and every policy of int64
-- values; no product wraps on the way.
pub retry_delay-eq-min :
    (attempt : ℕ) (policy : RetryPolicy)
    → policy.base_delay ≤ max_retry_delay
    → policy.max_delay ≤ max_retry_delay
    → retry_delay attempt policy ≡ min (base_of policy * 2 ^ (attempt - 1)) (cap_of policy)
unfolding retry_delay cap_of
retry_delay-eq-min attempt policy b c = ground (
  arith,
  double_delay-eq-min policy.max_delay (attempt - 1) (base_of policy),
  le-scale (attempt - 1) (base_of policy),
)
