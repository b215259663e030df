-- ===== src/Regtech/Request/Limits.antt =====
-- The collector's two limiters in a state in which they let a request through, and calls that keep
-- them so.
use blacklist.Prelude.{ℕ, suc, ◌≤◌, ◌<◌, ◌≡◌, Option, none, arith}
use blacklist.RateLimiter.Clock.{World}
use blacklist.RateLimiter.Bucket.{RateLimiter, granted, wait_if_needed}
use blacklist.RateLimiter.Bucket.Refill.{IsValid}
use blacklist.RateLimiter.Bucket.Rounds.{acquire-settled}
use blacklist.RateLimiter.Adaptive.{AdaptiveRateLimiter, on_success, on_failure}
use blacklist.RateLimiter.Adaptive.Traffic.{IsBounded, step, step-Flows, acquires, succeeds, fails}
use blacklist.Regtech.Request.{Collector}

-- A bucket that serves a request of one token.
pub record IsServing (l : RateLimiter) (w : World) : Type 0 where
  pub valid : IsValid l w
  pub moves : 0 < l.rate
  pub fits : 1 ≤ l.burst_size

pub record IsPaced (a : AdaptiveRateLimiter) (w : World) : Type 0 where
  pub bounded : IsBounded a w
  pub moves : 0 < a.min_rate
  pub fits : 1 ≤ a.limiter.burst_size

pub record IsReady {ℓ} {Item : Type ℓ} (c : Collector Item) (w : World) : Type 0 where
  pub paced : IsPaced c.rate_limiter w
  pub serving : IsServing c.session.auth_rate_limiter.limiter w

pub IsServing-later :
    (l : RateLimiter) (w w' : World) → w.now ≤ w'.now → IsServing l w → IsServing l w'
IsServing-later l w w' later s = omega arith

pub IsPaced-later :
    (a : AdaptiveRateLimiter) (w w' : World) → w.now ≤ w'.now → IsPaced a w → IsPaced a w'
IsPaced-later a w w' later s = omega arith

-- A call that takes a limiter further in time.
pub record Paces (a' : AdaptiveRateLimiter) (w w' : World) : Type 0 where
  pub paced : IsPaced a' w'
  pub later : w.now ≤ w'.now

module _ (jitter : ℕ → ℕ) (rounds : ℕ) where
  abbrev fuel : ℕ
  fuel = suc (suc rounds)

  pub wait_if_needed-granted :
      (l : RateLimiter) (w : World) → IsServing l w → (wait_if_needed jitter fuel l w).0 ≡ granted
  unfolding wait_if_needed
  wait_if_needed-granted l w s = acquire-settled jitter rounds 1 none l w s.valid s.fits s.moves

  pub wait_if_needed-Paces :
      (a : AdaptiveRateLimiter) (w : World)
      → IsPaced a w
      → let (o, l, w') = wait_if_needed jitter fuel a.limiter w in
        Paces (record a { limiter = l }) w w'
  unfolding wait_if_needed step
  wait_if_needed-Paces a w p =
      let f = step-Flows jitter fuel (acquires 1 none) a w p.bounded in
      record {
        paced = record { bounded = f.bounded; moves = p.moves; fits = omega (arith, f.same_burst) };
        later = f.later;
      }

  pub on_failure-Paces :
      (error_code : Option ℕ) (a : AdaptiveRateLimiter) (w : World)
      → IsPaced a w
      → let (a', w') = on_failure error_code a w in Paces a' w w'
  unfolding step on_failure
  on_failure-Paces error_code a w p =
      let f = step-Flows jitter fuel (fails error_code) a w p.bounded in
      record {
        paced = record { bounded = f.bounded; moves = p.moves; fits = omega (arith, f.same_burst) };
        later = f.later;
      }

  pub on_success-Paces :
      (a : AdaptiveRateLimiter) (w : World) → IsPaced a w → Paces (on_success a) w w
  unfolding step on_success
  on_success-Paces a w p =
      let f = step-Flows jitter fuel succeeds a w p.bounded in
      record {
        paced = record {
          bounded = f.bounded;
          moves = ground arith;
          fits = omega (arith, f.same_burst);
        };
        later = omega arith;
      }
