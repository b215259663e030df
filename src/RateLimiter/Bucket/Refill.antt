-- ===== src/RateLimiter/Bucket/Refill.antt =====
-- What `_refill_tokens` and the two branches of one round of `acquire` change.
use blacklist.Prelude.{ℕ, ◌+◌, ◌-◌, ◌*◌, ◌/◌, ◌≤◌, ◌<◌, ◌≡◌, refl, Option, arith, min}
use blacklist.RateLimiter.Clock.{World, time}
use blacklist.RateLimiter.Bucket.{
  RateLimiter, token_unit, wait_for, refill_tokens, spend, check_timeout,
}

pub record IsValid (l : RateLimiter) (w : World) : Type 0 where
  pub filled : l.tokens ≤ l.burst_size * token_unit
  pub refilled : l.last_refill ≤ w.now

-- The fields that only a constructor sets.
pub record SameConfig (l l' : RateLimiter) : Type 0 where
  pub same_rate : l'.rate ≡ l.rate
  pub same_burst : l'.burst_size ≡ l.burst_size

pub sub_mul : (a b r : ℕ) → a ≤ b → (b - a) * r + a * r ≡ b * r
sub_mul a b r h = grind arith

-- A division that rounds up is enough.
pub div_up : (n r : ℕ) → 0 < r → n ≤ (n + r - 1) / r * r
div_up n r h = grind arith

pub wait_for-le : (needed rate : ℕ) → 0 < rate → needed ≤ wait_for needed rate * rate
unfolding wait_for
wait_for-le needed rate h = grind (arith, div_up needed rate)

-- Units come in at the rate while the clock advances, and none appear otherwise.
pub record Refills (l l' : RateLimiter) (w w' : World) : Type 0 where
  pub valid : IsValid l' w'
  pub config : SameConfig l l'
  pub later : w.now ≤ w'.now
  pub stamp : l'.last_refill ≡ w'.now
  pub accounts : l'.tokens + l.last_refill * l.rate ≤ l.tokens + l'.last_refill * l.rate
  pub earned :
      min (l.burst_size * token_unit) (l.tokens + (w.now - l.last_refill) * l.rate) ≤ l'.tokens

module _ (jitter : ℕ → ℕ) where
  pub refill_tokens-Refills :
      (l : RateLimiter) (w : World)
      → IsValid l w
      → Refills l (refill_tokens jitter l w).0 w (refill_tokens jitter l w).1
  unfolding refill_tokens time
  refill_tokens-Refills l w v = record {
    valid = record { filled = omega arith; refilled = omega arith };
    config = record { same_rate = refl; same_burst = refl };
    later = omega arith;
    stamp = refl;
    accounts = omega (arith, sub_mul l.last_refill (w.now + jitter w.reads) l.rate (omega arith));
    earned = grind arith;
  }

  -- Spending `n` tokens takes exactly their units, and leaves the refill stamp.
  pub spend_lem :
      (n start : ℕ) (l : RateLimiter) (w : World)
      → n * token_unit ≤ l.tokens
      → IsValid l w
      → IsValid (spend jitter n start l w).0 (spend jitter n start l w).1
        × SameConfig l (spend jitter n start l w).0
        × (n * token_unit + (spend jitter n start l w).0.tokens ≡ l.tokens)
        × ((spend jitter n start l w).0.last_refill ≡ l.last_refill)
        × (w.now ≤ (spend jitter n start l w).1.now)
  unfolding spend time
  spend_lem n start l w h v = omega arith

  pub check_timeout_later :
      (timeout : Option ℕ) (start : ℕ) (w : World)
      → w.now ≤ (check_timeout jitter timeout start w).1.now
  unfolding check_timeout time
  check_timeout_later timeout start w = ground arith
