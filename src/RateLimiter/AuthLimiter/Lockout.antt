-- ===== src/RateLimiter/AuthLimiter/Lockout.antt =====
-- What follows on consecutive authentication failures.
use blacklist.Prelude.{ℕ, zero, suc, ◌+◌, ◌≤◌, ◌<◌, ◌≡◌, none, List, [], ◌∷◌, arith}
use blacklist.RateLimiter.Clock.{World, sleep, time}
use blacklist.RateLimiter.Bucket.Refill.{IsValid}
use blacklist.RateLimiter.Bucket.Conformance.{acquire-Settles}
use blacklist.RateLimiter.AuthLimiter.{
  AuthRateLimiter, Admission, locked, acquired, extra_wait, wait_if_needed, on_failure,
}

-- No call in such a history is a success or a reset.
pub data Attempt : Type 0 where
  waits fails : Attempt
  passes : ℕ → Attempt

abbrev admitted : Admission → ℕ
admitted locked = 0
admitted (acquired o) = 1

pub record IsGuarded (a : AuthRateLimiter) (w : World) : Type 0 where
  pub valid : IsValid a.limiter w
  pub lock_ends : a.locked_until ≤ w.now + a.lockout_duration

module _ (jitter : ℕ → ℕ) (fuel : ℕ) where
  -- One attempt, and whether `wait_if_needed` went on to `acquire`.
  unfoldable pub attempt : Attempt → AuthRateLimiter → World → ℕ × AuthRateLimiter × World
  attempt waits a w = let (r, a', w') = wait_if_needed jitter fuel a w in (admitted r, a', w')
  attempt fails a w = let (a', w') = on_failure jitter a w in (0, a', w')
  attempt (passes d) a w = (0, a, sleep d w)

  unfoldable pub run : List Attempt → AuthRateLimiter → World → ℕ × AuthRateLimiter × World
  run [] a w = (0, a, w)
  run (c ∷ cs) a w =
      let (n, a₁, w₁) = attempt c a w in let (m, a₂, w₂) = run cs a₁ w₁ in (n + m, a₂, w₂)

pub record Guards (a a' : AuthRateLimiter) (w w' : World) (n : ℕ) : Type 0 where
  pub guarded : IsGuarded a' w'
  pub later : w.now ≤ w'.now
  pub extends : a.locked_until ≤ a'.locked_until
  pub refused : w'.now < a.locked_until → n ≡ 0

abbrev pub Guarding : AuthRateLimiter → World → ℕ × AuthRateLimiter × World → Type 0
Guarding a w (n, a', w') = Guards a a' w w' n

module _ (jitter : ℕ → ℕ) (fuel : ℕ) where
  attempt-Guards :
      (c : Attempt) (a : AuthRateLimiter) (w : World)
      → IsGuarded a w
      → Guarding a w (attempt jitter fuel c a w)
  unfolding attempt wait_if_needed extra_wait on_failure time sleep
  attempt-Guards waits a w g =
      let w₁ = extra_wait a (time jitter w).1 in
      ground (arith, acquire-Settles jitter fuel 1 none a.limiter w₁)
  attempt-Guards fails a w g = ground arith
  attempt-Guards (passes d) a w g = ground arith

  run-Guards :
      (cs : List Attempt) (a : AuthRateLimiter) (w : World)
      → IsGuarded a w
      → Guarding a w (run jitter fuel cs a w)
  unfolding run
  run-Guards [] a w g = ground arith
  run-Guards (c ∷ cs) a w g =
      let (n, a₁, w₁) = attempt jitter fuel c a w in
      let f : Guards a a₁ w w₁ n = attempt-Guards c a w g in
      ground (arith, run-Guards cs a₁ w₁ f.guarded)

abbrev pub failures : ℕ → List Attempt
failures zero = []
failures (suc n) = fails ∷ failures n

-- A lock of full length has just begun.
abbrev LocksNow : ℕ × AuthRateLimiter × World → Type 0
LocksNow (_, a, w) = a.locked_until ≡ w.now + a.lockout_duration

module _ (jitter : ℕ → ℕ) (fuel : ℕ) where
  failures-lock :
      (n : ℕ) (a : AuthRateLimiter) (w : World)
      → a.max_attempts ≤ a.consecutive_failures + suc n
      → LocksNow (run jitter fuel (failures (suc n)) a w)
        × ((run jitter fuel (failures (suc n)) a w).1.lockout_duration ≡ a.lockout_duration)
  unfolding run attempt on_failure time sleep
  failures-lock zero a w h = ground arith
  failures-lock (suc n) a w h =
      let (a₁, w₁) = on_failure jitter a w in ground (arith, failures-lock n a₁ w₁)

  -- When consecutive failures, the earlier ones counted, have reached the limit, no history of
  -- requests, further failures and idle time that ends before the lock's duration is over has a
  -- request that goes on to `acquire`.
  pub run-lockout :
      (n : ℕ) (cs : List Attempt) (a : AuthRateLimiter) (w : World)
      → IsGuarded a w
      → a.max_attempts ≤ a.consecutive_failures + suc n
      → (run jitter fuel cs
          (run jitter fuel (failures (suc n)) a w).1
          (run jitter fuel (failures (suc n)) a w).2).2.now
        < (run jitter fuel (failures (suc n)) a w).2.now + a.lockout_duration
      → (run jitter fuel cs
          (run jitter fuel (failures (suc n)) a w).1
          (run jitter fuel (failures (suc n)) a w).2).0
        ≡ 0
  run-lockout n cs a w g h late =
      let (_, a₁, w₁) = run jitter fuel (failures (suc n)) a w in
      let first = run-Guards jitter fuel (failures (suc n)) a w g in
      ground (arith, failures-lock n a w h, run-Guards jitter fuel cs a₁ w₁ first.guarded)

  -- A failure that does not lock waits a minute at most.
  pub on_failure-wait :
      (a : AuthRateLimiter) (w : World)
      → a.consecutive_failures + 1 < a.max_attempts
      → ((on_failure jitter a w).1.now ≤ w.now + 60_000)
        × ((on_failure jitter a w).0.locked_until ≡ a.locked_until)
  unfolding on_failure time sleep
  on_failure-wait a w h = ground arith
