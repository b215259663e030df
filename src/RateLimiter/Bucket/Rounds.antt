-- ===== src/RateLimiter/Bucket/Rounds.antt =====
-- The loop of `acquire`: how many rounds it takes, and when it does not end.
use blacklist.Prelude.{
  ℕ, zero, suc, ◌-◌, ◌*◌, ◌≤◌, ◌<◌, ◌≡◌, refl, ◌⊎◌, Option, none, some, arith, le→leb,
}
use blacklist.RateLimiter.Clock.{World, time, sleep}
use blacklist.RateLimiter.Bucket.{
  RateLimiter, Outcome, granted, timed_out, out_of_fuel, token_unit, wait_for, refill_tokens,
  check_timeout, acquire_loop, acquire,
}
use blacklist.RateLimiter.Bucket.Refill.{
  IsValid, wait_for-le, refill_tokens-Refills, check_timeout_later,
}

-- The outcomes of a call that ends: without a timeout it is granted.
abbrev pub SettledBy : Option ℕ → Outcome → Type 0
SettledBy none o = o ≡ granted
SettledBy (some _) o = (o ≡ granted) ⊎ (o ≡ timed_out)

module _ (jitter : ℕ → ℕ) where
  -- With the tokens there after the refill, the round grants the request.
  granted_now :
      (fuel n : ℕ) (timeout : Option ℕ) (start : ℕ) (l : RateLimiter) (w : World)
      → n * token_unit ≤ (refill_tokens jitter l w).0.tokens
      → (acquire_loop jitter (suc fuel) n timeout start l w).0 ≡ granted
  unfolding acquire_loop
  granted_now fuel n timeout start l w h =
      rw (le→leb (n * token_unit) (refill_tokens jitter l w).0.tokens h) refl

  -- After the wait that `acquire` computes, the tokens are there.
  enough_after :
      (n : ℕ) (l : RateLimiter) (w : World)
      → IsValid l w
      → n ≤ l.burst_size
      → n * token_unit - l.tokens ≤ (w.now - l.last_refill) * l.rate
      → n * token_unit ≤ (refill_tokens jitter l w).0.tokens
  enough_after n l w v h e = omega (arith, (refill_tokens-Refills jitter l w v).earned)

  enough_after_wait :
      (n : ℕ) (l : RateLimiter) (w : World)
      → l.tokens ≤ l.burst_size * token_unit
      → n ≤ l.burst_size
      → 0 < l.rate
      → l.last_refill ≤ w.now
      → n * token_unit
        ≤ (refill_tokens jitter l (sleep (wait_for (n * token_unit - l.tokens) l.rate) w)).0.tokens
  unfolding sleep
  enough_after_wait n l w f h r later =
      let wait = wait_for (n * token_unit - l.tokens) l.rate in
      enough_after n l _ (record { filled = f; refilled = omega arith }) h
        (grind (arith, wait_for-le (n * token_unit - l.tokens) l.rate r))

  pub acquire_loop-two :
      (fuel n : ℕ) (timeout : Option ℕ) (start : ℕ) (l : RateLimiter) (w : World)
      → IsValid l w
      → n ≤ l.burst_size
      → 0 < l.rate
      → SettledBy timeout (acquire_loop jitter (suc (suc fuel)) n timeout start l w).0
  unfolding acquire_loop check_timeout time
  acquire_loop-two fuel n timeout start l w v h r =
      let (l₁, w₁) = refill_tokens jitter l w in
      let (late, w₂) = check_timeout jitter timeout start w₁ in
      ground (
        arith,
        refill_tokens-Refills jitter l w v,
        check_timeout_later jitter timeout start w₁,
        enough_after_wait n l₁ w₂,
      )

  pub acquire_loop-oversized :
      (fuel n start : ℕ) (l : RateLimiter) (w : World)
      → IsValid l w
      → l.burst_size < n
      → 0 < l.rate
      → (acquire_loop jitter fuel n none start l w).0 ≡ out_of_fuel
  unfolding acquire_loop check_timeout sleep
  acquire_loop-oversized zero n start l w v h r = refl
  acquire_loop-oversized (suc fuel) n start l w v h r =
      let (l₁, w₁) = refill_tokens jitter l w in
      let w₂ = sleep (wait_for (n * token_unit - l₁.tokens) l₁.rate) w₁ in
      ground (arith, refill_tokens-Refills jitter l w v, acquire_loop-oversized fuel n start l₁ w₂)

  IsValid-time : (l : RateLimiter) (w : World) → IsValid l w → IsValid l (time jitter w).1
  unfolding time
  IsValid-time l w v = omega arith

  -- A request that fits a valid bucket with a rate above 0 is settled in at most two rounds:
  -- without a timeout it is granted, with one it is granted or times out.
  pub acquire-settled :
      (fuel n : ℕ) (timeout : Option ℕ) (l : RateLimiter) (w : World)
      → IsValid l w
      → n ≤ l.burst_size
      → 0 < l.rate
      → SettledBy timeout (acquire jitter (suc (suc fuel)) n timeout l w).0
  unfolding acquire
  acquire-settled fuel n timeout l w v h r =
      acquire_loop-two fuel n timeout (time jitter w).0 l (time jitter w).1 (IsValid-time l w v) h r

  -- A request that does not fit a valid bucket, at a rate above 0 and without a timeout, never
  -- returns: no number of rounds is enough.
  pub acquire-oversized :
      (fuel n : ℕ) (l : RateLimiter) (w : World)
      → IsValid l w
      → l.burst_size < n
      → 0 < l.rate
      → (acquire jitter fuel n none l w).0 ≡ out_of_fuel
  unfolding acquire
  acquire-oversized fuel n l w v h r =
      acquire_loop-oversized fuel n (time jitter w).0 l (time jitter w).1 (IsValid-time l w v) h r
