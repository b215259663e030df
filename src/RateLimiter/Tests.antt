-- ===== src/RateLimiter/Tests.antt =====
-- Limiters with numbers of their own, and the properties on them.
use blacklist.Prelude.{ℕ, ◌+◌, ◌-◌, ◌*◌, ◌≤◌, ◌<◌, ◌≡◌, none, some, List, [], ◌∷◌, arith}
use blacklist.RateLimiter.Clock.{World, time, sleep}
use blacklist.RateLimiter.Bucket.{RateLimiter, granted, out_of_fuel, token_unit, acquire}
use blacklist.RateLimiter.Bucket.Refill.{IsValid}
use blacklist.RateLimiter.Bucket.Rounds.{acquire-settled, acquire-oversized}
use blacklist.RateLimiter.Adaptive.{AdaptiveRateLimiter}
use blacklist.RateLimiter.Adaptive.Traffic
use blacklist.RateLimiter.Adaptive.Traffic.{acquires, succeeds, IsBounded, run-conforms}
use blacklist.RateLimiter.AuthLimiter.{AuthRateLimiter, wait_if_needed, on_failure}
use blacklist.RateLimiter.AuthLimiter.Lockout
use blacklist.RateLimiter.AuthLimiter.Lockout.{waits, IsGuarded, failures, run-lockout}

abbrev world : World
world = record { now = 10_000; reads = 0 }

-- A clock that takes a millisecond for each reading.
abbrev late : ℕ → ℕ
late n = 1

-- An empty bucket for one request, half a request a second.
abbrev bucket : RateLimiter
bucket = record {
  rate = 500;
  burst_size = 1;
  backoff_factor = 2;
  max_backoff = 300_000;
  tokens = 0;
  last_refill = 10_000;
  failure_count = 0;
  current_backoff = 0;
  last_request_time = 0;
  total_requests = 0;
  total_waits = 0;
  total_wait_time = 0;
  request_history = [];
}

bucket-IsValid : IsValid bucket world
bucket-IsValid = record { filled = omega arith; refilled = omega arith }

acquire-settled_example : (acquire late 2 1 none bucket world).0 ≡ granted
acquire-settled_example =
    acquire-settled late 0 1 none bucket world bucket-IsValid (omega arith) (omega arith)

acquire-oversized_example : (acquire late 40 2 none bucket world).0 ≡ out_of_fuel
acquire-oversized_example =
    acquire-oversized late 40 2 bucket world bucket-IsValid (omega arith) (omega arith)

abbrev adaptive : AdaptiveRateLimiter
adaptive = record {
  limiter = bucket;
  min_rate = 100;
  max_rate = 1_000;
  initial_rate = 500;
  success_streak = 0;
  failure_streak = 0;
}

adaptive-IsBounded : IsBounded adaptive world
adaptive-IsBounded = record { valid = bucket-IsValid; floor = omega arith; ceiling = omega arith }

abbrev two_requests : List Traffic.Call
two_requests = acquires 1 none ∷ succeeds ∷ Traffic.fails (some 429) ∷ acquires 1 (some 500) ∷ []

run-conforms_example :
    IsBounded
      (Traffic.run late 5 two_requests adaptive world).1
      (Traffic.run late 5 two_requests adaptive world).2
    × ((Traffic.run late 5 two_requests adaptive world).0
        ≤ 1 * token_unit
          + ((Traffic.run late 5 two_requests adaptive world).2.now - 10_000) * 1_000)
run-conforms_example = run-conforms late 5 two_requests adaptive world adaptive-IsBounded

abbrev account : AuthRateLimiter
account = record {
  limiter = bucket;
  max_attempts = 3;
  lockout_duration = 600_000;
  consecutive_failures = 0;
  locked_until = 0;
}

account-IsGuarded : IsGuarded account world
account-IsGuarded = record { valid = bucket-IsValid; lock_ends = omega arith }

abbrev attempts : List Lockout.Attempt
attempts = waits ∷ Lockout.passes 60_000 ∷ waits ∷ []

in_time :
    (Lockout.run late 5 attempts
      (Lockout.run late 5 (failures 3) account world).1
      (Lockout.run late 5 (failures 3) account world).2).2.now
    < (Lockout.run late 5 (failures 3) account world).2.now + 600_000
unfolding Lockout.run Lockout.attempt wait_if_needed on_failure time sleep
in_time = omega arith

run-lockout_example :
    (Lockout.run late 5 attempts
      (Lockout.run late 5 (failures 3) account world).1
      (Lockout.run late 5 (failures 3) account world).2).0
    ≡ 0
run-lockout_example =
    run-lockout late 5 2 attempts account world account-IsGuarded (omega arith) in_time
