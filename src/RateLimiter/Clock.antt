-- ===== src/RateLimiter/Clock.antt =====
-- `time.time()` and `time.sleep()` as collector/core/rate_limiter.py uses them. A clock counts
-- milliseconds; `jitter n` is the time that passes before the reading number `n`.
use blacklist.Prelude.{ℕ, ◌+◌, ◌≤◌, arith}

pub record World : Type 0 where
  pub now : ℕ
  pub reads : ℕ

module _ (jitter : ℕ → ℕ) where
  unfoldable pub time : World → ℕ × World
  time w = let t = w.now + jitter w.reads in (t, record { now = t; reads = w.reads + 1 })

  pub time_later : (w : World) → w.now ≤ (time w).0
  unfolding time
  time_later w = omega arith

-- At least the given time passes; what a sleep takes longer is the jitter of the next reading.
unfoldable pub sleep : ℕ → World → World
sleep d w = record w { now = w.now + d }
