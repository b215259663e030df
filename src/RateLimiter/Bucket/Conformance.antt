-- ===== src/RateLimiter/Bucket/Conformance.antt =====
-- What `acquire` grants never exceeds what the bucket held and what came in.
use blacklist.Prelude.{ℕ, zero, suc, ◌+◌, ◌-◌, ◌*◌, ◌≤◌, Option, arith}
use blacklist.RateLimiter.Clock.{World, time, sleep}
use blacklist.RateLimiter.Bucket.{
  RateLimiter, Outcome, granted, token_unit, wait_for, refill_tokens, check_timeout, acquire_loop,
  acquire,
}
use blacklist.RateLimiter.Bucket.Refill.{
  IsValid, SameConfig, Refills, refill_tokens-Refills, spend_lem, check_timeout_later,
}

-- The units that a call takes out of the bucket.
abbrev pub spent : Outcome → ℕ → ℕ
spent granted n = n * token_unit
spent _ n = 0

pub record Settles (l l' : RateLimiter) (w w' : World) (units : ℕ) : Type 0 where
  pub valid : IsValid l' w'
  pub config : SameConfig l l'
  pub later : w.now ≤ w'.now
  pub stamped : l.last_refill ≤ l'.last_refill
  pub accounts : units + l'.tokens + l.last_refill * l.rate ≤ l.tokens + l'.last_refill * l.rate

abbrev pub Settled : RateLimiter → World → ℕ → Outcome × RateLimiter × World → Type 0
Settled l w n (o, l', w') = Settles l l' w w' (spent o n)

module _ (jitter : ℕ → ℕ) where
  pub acquire_loop-Settles :
      (fuel n : ℕ) (timeout : Option ℕ) (start : ℕ) (l : RateLimiter) (w : World)
      → IsValid l w
      → Settled l w n (acquire_loop jitter fuel n timeout start l w)
  unfolding acquire_loop sleep
  acquire_loop-Settles zero n timeout start l w v = omega arith
  acquire_loop-Settles (suc fuel) n timeout start l w v =
      let (l₁, w₁) = refill_tokens jitter l w in
      let (late, w₂) = check_timeout jitter timeout start w₁ in
      let w₃ = sleep (wait_for (n * token_unit - l₁.tokens) l₁.rate) w₂ in
      let r : Refills l l₁ w w₁ = refill_tokens-Refills jitter l w v in
      ground (
        arith,
        r,
        spend_lem jitter n start l₁ w₁,
        check_timeout_later jitter timeout start w₁,
        acquire_loop-Settles fuel n timeout start l₁ w₃,
      )

  -- One call of `acquire` on a valid bucket, whatever its outcome and however often it sleeps:
  -- what it grants and what it leaves come to at most what it found and what came in at the rate.
  pub acquire-Settles :
      (fuel n : ℕ) (timeout : Option ℕ) (l : RateLimiter) (w : World)
      → IsValid l w
      → Settled l w n (acquire jitter fuel n timeout l w)
  unfolding acquire time
  acquire-Settles fuel n timeout l w v =
      let (start, w') = time jitter w in
      ground (arith, acquire_loop-Settles fuel n timeout start l w')
