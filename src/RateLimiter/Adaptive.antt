-- ===== src/RateLimiter/Adaptive.antt =====
-- `AdaptiveRateLimiter` of collector/core/rate_limiter.py: the rate follows the answers. A rate
-- counts thousandths of a request per second, and a product by 1.2 or 0.5 is rounded down to one.
pub mod Traffic
use blacklist.Prelude.{ℕ, ◌+◌, ◌*◌, ◌/◌, Bool, ◌&&◌, Option, ltb, leb, if◌then◌else◌, min, max}
use blacklist.RateLimiter.Clock.{World}
use blacklist.RateLimiter.Bucket.{RateLimiter}
use blacklist.RateLimiter.Bucket

pub record AdaptiveRateLimiter : Type 0 where
  pub limiter : RateLimiter
  pub min_rate : ℕ
  pub max_rate : ℕ
  pub initial_rate : ℕ
  pub success_streak : ℕ
  pub failure_streak : ℕ

abbrev pub rate_adjustment_threshold : ℕ
rate_adjustment_threshold = 10

module _ (jitter : ℕ → ℕ) where
  unfoldable pub init : ℕ → ℕ → ℕ → ℕ → ℕ → ℕ → World → AdaptiveRateLimiter × World
  init initial_rate min_rate max_rate burst_size backoff_factor max_backoff w =
      let (l, w') = Bucket.init jitter initial_rate burst_size backoff_factor max_backoff w in
      (
        record {
          limiter = l;
          min_rate = min_rate;
          max_rate = max_rate;
          initial_rate = initial_rate;
          success_streak = 0;
          failure_streak = 0;
        },
        w',
      )

  unfoldable pub reset : AdaptiveRateLimiter → World → AdaptiveRateLimiter × World
  reset a w =
      let (l, w') = Bucket.reset jitter a.limiter w in
      (
        record a {
          limiter = record l { rate = a.initial_rate };
          success_streak = 0;
          failure_streak = 0;
        },
        w',
      )

-- A full streak below the top rate: 20% faster, and the streak starts again.
unfoldable pub on_success : AdaptiveRateLimiter → AdaptiveRateLimiter
on_success a =
    let l = Bucket.on_success a.limiter in
    let streak = a.success_streak + 1 in
    if leb rate_adjustment_threshold streak && ltb l.rate a.max_rate
    then record a {
      limiter = record l { rate = min a.max_rate (l.rate * 12 / 10) };
      success_streak = 0;
      failure_streak = 0;
    }
    else record a { limiter = l; success_streak = streak; failure_streak = 0 }

unfoldable pub on_failure : Option ℕ → AdaptiveRateLimiter → World → AdaptiveRateLimiter × World
on_failure error_code a w =
    let (l, w') = Bucket.on_failure error_code a.limiter w in
    (
      record a {
        limiter =
            if ltb a.min_rate l.rate then record l { rate = max a.min_rate (l.rate / 2) } else l;
        success_streak = 0;
        failure_streak = a.failure_streak + 1;
      },
      w',
    )

-- `regtech_rate_limiter` with the environment's variables unset.
unfoldable pub regtech_rate_limiter : (ℕ → ℕ) → World → AdaptiveRateLimiter × World
unfolding init
regtech_rate_limiter jitter = init jitter 200 100 500 1 2 300_000
