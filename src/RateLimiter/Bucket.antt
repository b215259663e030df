-- ===== src/RateLimiter/Bucket.antt =====
-- `RateLimiter` of collector/core/rate_limiter.py. Times are milliseconds and rates thousandths of
-- a request per second, so a token is a million units and `elapsed * rate` is exact.
pub mod Refill
pub mod Rounds
pub mod Conformance
use blacklist.Prelude.{
  ℕ, zero, suc, ◌+◌, ◌-◌, ◌*◌, ◌/◌, ◌^◌, Bool, false, ◌||◌, Option, none, some, List, [], ltb, leb,
  ◌==◌, if◌then◌else◌, min, max, push_bounded,
}
use blacklist.RateLimiter.Clock.{World, time, sleep}

pub record HistoryEntry : Type 0 where
  pub timestamp : ℕ
  pub tokens : ℕ
  pub wait_time : ℕ
  pub remaining_tokens : ℕ

pub record RateLimiter : Type 0 where
  pub rate : ℕ
  pub burst_size : ℕ
  pub backoff_factor : ℕ
  pub max_backoff : ℕ
  pub tokens : ℕ
  pub last_refill : ℕ
  pub failure_count : ℕ
  pub current_backoff : ℕ
  pub last_request_time : ℕ
  pub total_requests : ℕ
  pub total_waits : ℕ
  pub total_wait_time : ℕ
  pub request_history : List HistoryEntry

abbrev pub token_unit : ℕ
token_unit = 1_000_000

abbrev pub history_limit : ℕ
history_limit = 1000

-- How a call of `acquire` ends; `out_of_fuel` stands for a loop that has not ended yet.
pub data Outcome : Type 0 where
  granted timed_out zero_division out_of_fuel : Outcome

-- The least wait, in milliseconds, after which `needed` units have come in.
unfoldable pub wait_for : ℕ → ℕ → ℕ
wait_for needed rate = max 10 ((needed + rate - 1) / rate)

module _ (jitter : ℕ → ℕ) where
  unfoldable pub init : ℕ → ℕ → ℕ → ℕ → World → RateLimiter × World
  init rate burst_size backoff_factor max_backoff w =
      let (t, w') = time jitter w in
      (
        record {
          rate = rate;
          burst_size = burst_size;
          backoff_factor = backoff_factor;
          max_backoff = max_backoff;
          tokens = burst_size * token_unit;
          last_refill = t;
          failure_count = 0;
          current_backoff = 0;
          last_request_time = 0;
          total_requests = 0;
          total_waits = 0;
          total_wait_time = 0;
          request_history = [];
        },
        w',
      )

  unfoldable pub refill_tokens : RateLimiter → World → RateLimiter × World
  refill_tokens l w =
      let (t, w') = time jitter w in
      (
        record l {
          tokens = min (l.burst_size * token_unit) (l.tokens + (t - l.last_refill) * l.rate);
          last_refill = t;
        },
        w',
      )

  -- The branch of `acquire` that has the tokens.
  unfoldable pub spend : ℕ → ℕ → RateLimiter → World → RateLimiter × World
  spend n start l w =
      let (t, w₁) = time jitter w in
      let (t', w₂) = time jitter w₁ in
      let (stamp, w₃) = time jitter w₂ in
      let wait_time = t' - start in
      let waited = ltb 0 wait_time in
      let left = l.tokens - n * token_unit in
      (
        record l {
          tokens = left;
          total_requests = l.total_requests + 1;
          last_request_time = t;
          total_waits = if waited then l.total_waits + 1 else l.total_waits;
          total_wait_time = if waited then l.total_wait_time + wait_time else l.total_wait_time;
          request_history = push_bounded history_limit l.request_history (record {
            timestamp = stamp;
            tokens = n;
            wait_time = wait_time;
            remaining_tokens = left;
          });
        },
        w₃,
      )

  -- The check of the timeout reads the clock only where there is one.
  unfoldable pub check_timeout : Option ℕ → ℕ → World → Bool × World
  check_timeout none start w = (false, w)
  check_timeout (some timeout) start w =
      let (t, w') = time jitter w in (leb timeout (t - start), w')

  -- The `while True` of `acquire`, one unit of fuel for each round.
  unfoldable pub acquire_loop :
      ℕ → ℕ → Option ℕ → ℕ → RateLimiter → World → Outcome × RateLimiter × World
  acquire_loop zero n timeout start l w = (out_of_fuel, l, w)
  acquire_loop (suc fuel) n timeout start l w =
      let (l₁, w₁) = refill_tokens l w in
      let (late, w₂) = check_timeout timeout start w₁ in
      let (l₂, w₃) = spend n start l₁ w₁ in
      let again =
        acquire_loop fuel n timeout start l₁
          (sleep (wait_for (n * token_unit - l₁.tokens) l₁.rate) w₂) in
      if leb (n * token_unit) l₁.tokens
      then (granted, l₂, w₃)
      else (if late
          then (timed_out, l₁, w₂)
          else (if l₁.rate == 0 then (zero_division, l₁, w₂) else again))

  unfoldable pub acquire : ℕ → ℕ → Option ℕ → RateLimiter → World → Outcome × RateLimiter × World
  acquire fuel n timeout l w =
      let (start, w') = time jitter w in acquire_loop fuel n timeout start l w'

  unfoldable pub wait_if_needed : ℕ → RateLimiter → World → Outcome × RateLimiter × World
  wait_if_needed fuel = acquire fuel 1 none

  unfoldable pub reset : RateLimiter → World → RateLimiter × World
  reset l w =
      let (t, w') = time jitter w in
      (
        record l {
          tokens = l.burst_size * token_unit;
          last_refill = t;
          failure_count = 0;
          current_backoff = 0;
        },
        w',
      )

unfoldable pub on_success : RateLimiter → RateLimiter
on_success l =
    if ltb 0 l.failure_count then record l { failure_count = 0; current_backoff = 0 } else l

-- `error_code in [429, 503]`
abbrev pub overloaded : Option ℕ → Bool
overloaded none = false
overloaded (some code) = code == 429 || code == 503

-- The backoff after one more failure. A half second is 500 ms. The OverflowError of a float power
-- after a thousand failures in a row is not modelled.
unfoldable pub backoff_after : RateLimiter → Option ℕ → ℕ
backoff_after l error_code =
    let base = min l.max_backoff (l.backoff_factor ^ (l.failure_count + 1) * 500) in
    if overloaded error_code then min l.max_backoff (base * 2) else base

unfoldable pub on_failure : Option ℕ → RateLimiter → World → RateLimiter × World
unfolding backoff_after
on_failure error_code l w =
    let backoff = backoff_after l error_code in
    (
      record l { failure_count = l.failure_count + 1; current_backoff = backoff },
      if ltb 0 backoff then sleep backoff w else w,
    )
