-- ===== src/RateLimiter/AuthLimiter.antt =====
-- `AuthRateLimiter` of collector/core/rate_limiter.py: consecutive failures lock the account's
-- requests for a while. Times are milliseconds, as in `Bucket`.
pub mod Lockout
use blacklist.Prelude.{ℕ, ◌+◌, ◌-◌, ◌*◌, ◌^◌, Bool, none, ltb, leb, if◌then◌else◌, min}
use blacklist.RateLimiter.Clock.{World, time, sleep}
use blacklist.RateLimiter.Bucket.{RateLimiter, Outcome, acquire}
use blacklist.RateLimiter.Bucket

pub record AuthRateLimiter : Type 0 where
  pub limiter : RateLimiter
  pub max_attempts : ℕ
  pub lockout_duration : ℕ
  pub consecutive_failures : ℕ
  pub locked_until : ℕ

-- `wait_if_needed` returns False for a lock, or what `acquire` returns.
pub data Admission : Type 0 where
  locked : Admission
  acquired : Outcome → Admission

-- The wait that earlier failures add to a request.
unfoldable pub extra_wait : AuthRateLimiter → World → World
extra_wait a w =
    if ltb 0 a.consecutive_failures
    then sleep (min 30_000 (a.consecutive_failures * 5_000)) w
    else w

module _ (jitter : ℕ → ℕ) where
  unfoldable pub init : ℕ → ℕ → ℕ → World → AuthRateLimiter × World
  init rate max_attempts lockout_duration w =
      let (l, w') = Bucket.init jitter rate 1 3 lockout_duration w in
      (
        record {
          limiter = l;
          max_attempts = max_attempts;
          lockout_duration = lockout_duration;
          consecutive_failures = 0;
          locked_until = 0;
        },
        w',
      )

  unfoldable pub wait_if_needed : ℕ → AuthRateLimiter → World → Admission × AuthRateLimiter × World
  wait_if_needed fuel a w =
      let (now, w₁) = time jitter w in
      let (o, l, w₂) = acquire jitter fuel 1 none a.limiter (extra_wait a w₁) in
      if ltb now a.locked_until then (locked, a, w₁) else (acquired o, record a { limiter = l }, w₂)

  unfoldable pub on_failure : AuthRateLimiter → World → AuthRateLimiter × World
  on_failure a w =
      let failures = a.consecutive_failures + 1 in
      let counted = record a {
        consecutive_failures = failures;
        limiter = record (a.limiter) { failure_count = a.limiter.failure_count + 1 };
      } in
      let (now, w') = time jitter w in
      if leb a.max_attempts failures
      then (record counted { locked_until = now + a.lockout_duration }, w')
      else (counted, sleep (min 60_000 (a.limiter.backoff_factor ^ failures * 2_000)) w)

  unfoldable pub reset : AuthRateLimiter → World → AuthRateLimiter × World
  reset a w =
      let (l, w') = Bucket.reset jitter a.limiter w in
      (record a { limiter = l; consecutive_failures = 0; locked_until = 0 }, w')

unfoldable pub on_success : AuthRateLimiter → AuthRateLimiter
on_success a = record a {
  consecutive_failures = 0;
  locked_until = 0;
  limiter = record (a.limiter) { failure_count = 0; current_backoff = 0 };
}
