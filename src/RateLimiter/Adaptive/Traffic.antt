-- ===== src/RateLimiter/Adaptive/Traffic.antt =====
-- A history of calls on one `AdaptiveRateLimiter`, and what all of them are granted together.
use blacklist.Prelude.{ℕ, ◌+◌, ◌-◌, ◌*◌, ◌≤◌, ◌≡◌, refl, Option, List, [], ◌∷◌, arith}
use blacklist.RateLimiter.Clock.{World, sleep, time}
use blacklist.RateLimiter.Bucket
use blacklist.RateLimiter.Bucket.{RateLimiter, Outcome, granted, token_unit, acquire, backoff_after}
use blacklist.RateLimiter.Bucket.Refill.{IsValid, sub_mul}
use blacklist.RateLimiter.Bucket.Conformance.{spent, Settles, acquire-Settles}
use blacklist.RateLimiter.Adaptive.{AdaptiveRateLimiter, init, on_success, on_failure}

pub data Call : Type 0 where
  acquires : ℕ → Option ℕ → Call
  succeeds : Call
  fails : Option ℕ → Call
  passes : ℕ → Call

pub record IsBounded (a : AdaptiveRateLimiter) (w : World) : Type 0 where
  pub valid : IsValid a.limiter w
  pub floor : a.min_rate ≤ a.limiter.rate
  pub ceiling : a.limiter.rate ≤ a.max_rate

module _ (jitter : ℕ → ℕ) (fuel : ℕ) where
  -- One call, with the units that it is granted.
  unfoldable pub step : Call → AdaptiveRateLimiter → World → ℕ × AdaptiveRateLimiter × World
  step (acquires n timeout) a w =
      let (o, l, w') = acquire jitter fuel n timeout a.limiter w in
      (spent o n, record a { limiter = l }, w')
  step succeeds a w = (0, on_success a, w)
  step (fails code) a w = let (a', w') = on_failure code a w in (0, a', w')
  step (passes d) a w = (0, a, sleep d w)

  unfoldable pub run : List Call → AdaptiveRateLimiter → World → ℕ × AdaptiveRateLimiter × World
  run [] a w = (0, a, w)
  run (c ∷ calls) a w =
      let (units, a₁, w₁) = step c a w in
      let (rest, a₂, w₂) = run calls a₁ w₁ in (units + rest, a₂, w₂)

-- What a history keeps, and what it may have been granted.
pub record Flows (a a' : AdaptiveRateLimiter) (w w' : World) (units : ℕ) : Type 0 where
  pub bounded : IsBounded a' w'
  pub same_max : a'.max_rate ≡ a.max_rate
  pub same_burst : a'.limiter.burst_size ≡ a.limiter.burst_size
  pub later : w.now ≤ w'.now
  pub stamped : a.limiter.last_refill ≤ a'.limiter.last_refill
  pub accounts :
      units + a'.limiter.tokens + a.limiter.last_refill * a.max_rate
      ≤ a.limiter.tokens + a'.limiter.last_refill * a.max_rate

abbrev pub Flowing : AdaptiveRateLimiter → World → ℕ × AdaptiveRateLimiter × World → Type 0
Flowing a w (units, a', w') = Flows a a' w w' units

mul_mono : (d r m : ℕ) → r ≤ m → d * r ≤ d * m
mul_mono d r m h = grind arith

mul_mono_left : (s t m : ℕ) → s ≤ t → s * m ≤ t * m
mul_mono_left s t m h = grind arith

-- A faster rate lets in more.
faster :
    (u t t' s s' r m : ℕ)
    → r ≤ m
    → s ≤ s'
    → u + t' + s * r ≤ t + s' * r
    → u + t' + s * m ≤ t + s' * m
faster u t t' s s' r m h k e =
    omega (arith, mul_mono (s' - s) r m h, sub_mul s s' r k, sub_mul s s' m k)

module _ (jitter : ℕ → ℕ) (fuel : ℕ) where
  pub step-Flows :
      (c : Call) (a : AdaptiveRateLimiter) (w : World)
      → IsBounded a w
      → Flowing a w (step jitter fuel c a w)
  unfolding step on_success on_failure Bucket.on_success Bucket.on_failure sleep
  step-Flows (acquires n timeout) a w b =
      let (o, l, w') = acquire jitter fuel n timeout a.limiter w in
      let s : Settles a.limiter l w w' (spent o n) =
        acquire-Settles jitter fuel n timeout a.limiter w b.valid in
      record {
        bounded = record { valid = s.valid; floor = omega arith; ceiling = omega arith };
        same_max = refl;
        same_burst = s.config.same_burst;
        later = s.later;
        stamped = s.stamped;
        accounts =
            faster (spent o n) a.limiter.tokens l.tokens a.limiter.last_refill l.last_refill
              a.limiter.rate a.max_rate b.ceiling s.stamped s.accounts;
      }
  step-Flows succeeds a w b = ground arith
  step-Flows (fails code) a w b = ground arith
  step-Flows (passes d) a w b = omega arith

  Flows-append :
      (a a₁ a₂ : AdaptiveRateLimiter) (w w₁ w₂ : World) (u v : ℕ)
      → Flows a a₁ w w₁ u
      → Flows a₁ a₂ w₁ w₂ v
      → Flows a a₂ w w₂ (u + v)
  Flows-append a a₁ a₂ w w₁ w₂ u v f g = record {
    bounded = g.bounded;
    same_max = omega arith;
    same_burst = omega arith;
    later = omega arith;
    stamped = omega arith;
    accounts = ground arith;
  }

  run-Flows :
      (calls : List Call) (a : AdaptiveRateLimiter) (w : World)
      → IsBounded a w
      → Flowing a w (run jitter fuel calls a w)
  unfolding run
  run-Flows [] a w b = omega arith
  run-Flows (c ∷ calls) a w b =
      let (u, a₁, w₁) = step jitter fuel c a w in
      let f : Flows a a₁ w w₁ u = step-Flows c a w b in
      Flows-append a a₁ _ w w₁ _ u _ f (run-Flows calls a₁ w₁ f.bounded)

  -- From a limiter whose rate is in its range and whose tokens fit the bucket, whatever the
  -- history of requests, successes, failures and idle times, and however late each clock reading
  -- is: the units granted are at most the bucket's size and the top rate times the time that has
  -- passed since the last refill, and the rate stays in its range.
  pub run-conforms :
      (calls : List Call) (a : AdaptiveRateLimiter) (w : World)
      → IsBounded a w
      → IsBounded (run jitter fuel calls a w).1 (run jitter fuel calls a w).2
        × ((run jitter fuel calls a w).0
            ≤ a.limiter.burst_size * token_unit
              + ((run jitter fuel calls a w).2.now - a.limiter.last_refill) * a.max_rate)
  run-conforms calls a w b =
      let (u, a', w') = run jitter fuel calls a w in
      let f : Flows a a' w w' u = run-Flows calls a w b in
      (
        f.bounded,
        omega (
          arith,
          sub_mul a.limiter.last_refill w'.now a.max_rate (omega arith),
          mul_mono_left a'.limiter.last_refill w'.now a.max_rate f.bounded.valid.refilled,
        ),
      )

  pub init-IsBounded :
      (initial min_rate max_rate burst factor backoff : ℕ) (w : World)
      → min_rate ≤ initial
      → initial ≤ max_rate
      → IsBounded
          (init jitter initial min_rate max_rate burst factor backoff w).0
          (init jitter initial min_rate max_rate burst factor backoff w).1
  unfolding init Bucket.init time
  init-IsBounded initial min_rate max_rate burst factor backoff w h k = omega arith
