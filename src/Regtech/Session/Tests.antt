-- ===== src/Regtech/Session/Tests.antt =====
-- A site that accepts one user, and a session whose last login it accepted.
use blacklist.Prelude.{
  ℕ, ◌+◌, ◌≡◌, ◌<◌, refl, Bool, true, false, some, [], ◌∷◌, String, str_eq, eq_iff, ◌&&◌,
  if◌then◌else◌, arith,
}
use blacklist.Prelude.Dict.{lookup, insert}
use blacklist.RateLimiter.Clock.{World, time, sleep}
use blacklist.RateLimiter.Bucket.{
  RateLimiter, acquire, acquire_loop, refill_tokens, spend, check_timeout, wait_for,
}
use blacklist.RateLimiter.AuthLimiter.{extra_wait, wait_if_needed, on_failure, on_success}
use blacklist.Regtech.Session.{
  Session, Login, answered, says, accepted, invalidate_session, is_jwt_valid, check_cache,
  perform_login, after_limiter, authenticate, reauthenticate, ensure_authenticated,
}
use blacklist.Regtech.Session.Honesty.{logs_in, ensures, passes, step, run, authenticate_honest}
use blacklist.Regtech.Session.Renewal.{ensure_authenticated_refused}

abbrev bucket : RateLimiter
bucket = record {
  rate = 1000;
  burst_size = 2;
  backoff_factor = 2;
  max_backoff = 60_000;
  tokens = 2000_000;
  last_refill = 0;
  failure_count = 0;
  current_backoff = 0;
  last_request_time = 0;
  total_requests = 0;
  total_waits = 0;
  total_wait_time = 0;
  request_history = [];
}

abbrev session : Session
session = record {
  authenticated = true;
  jwt_expiry = some 3_600_000;
  auth_cache = [];
  last_credentials = some ("kim", "secret");
  cookies = "JSESSIONID=1" ∷ [];
  auth_rate_limiter = record {
    limiter = bucket;
    max_attempts = 3;
    lockout_duration = 300_000;
    consecutive_failures = 0;
    locked_until = 0;
  };
}

abbrev site : String → String → Login
site username password =
    if str_eq username "kim"
    then answered "" "/main" ("JSESSIONID=2" ∷ [])
    else answered "" "/login" []

abbrev contains : String → String → Bool
contains part whole = str_eq part whole

abbrev jitter : ℕ → ℕ
jitter n = 1

-- Two keys are enough here.
abbrev auth_key_of : String → String → String
auth_key_of username password =
    if str_eq username "kim" && str_eq password "secret" then "kim:5f3a" else "lee:90b1"

abbrev start : World
start = record { now = 1000; reads = 0 }

refused :
    (authenticate contains jitter 2 auth_key_of "lee" "guess" (site "lee" "guess") session start).0
    ≡ says false
unfolding authenticate check_cache lookup insert is_jwt_valid perform_login after_limiter accepted
    time sleep acquire acquire_loop refill_tokens spend check_timeout wait_for extra_wait
    wait_if_needed on_failure on_success
refused = refl

still_ahead :
    (time jitter
        (authenticate contains jitter 2 auth_key_of "lee" "guess"
          (site "lee" "guess")
          session
          start).2).0
      + 300_000
    < 3_600_000
unfolding authenticate check_cache lookup insert is_jwt_valid perform_login after_limiter accepted
    time sleep acquire acquire_loop refill_tokens spend check_timeout wait_for extra_wait
    wait_if_needed on_failure on_success
still_ahead = omega arith

ensure_authenticated_refused_example :
    let (r, s', w') =
      authenticate contains jitter 2 auth_key_of "lee" "guess" (site "lee" "guess") session start in
    ensure_authenticated contains jitter 2 auth_key_of site s' w'
    ≡ (says true, s', (time jitter w').1)
ensure_authenticated_refused_example =
    ensure_authenticated_refused contains jitter 2 auth_key_of site "lee" "guess"
      (site "lee" "guess") session start 3_600_000 refl refl refused still_ahead

renewed :
    (ensure_authenticated contains jitter 2 auth_key_of site (invalidate_session session) start).0
    ≡ says true
unfolding ensure_authenticated reauthenticate invalidate_session authenticate check_cache lookup
    insert is_jwt_valid perform_login after_limiter accepted time sleep acquire acquire_loop
    refill_tokens spend check_timeout wait_for extra_wait wait_if_needed on_failure on_success
renewed = refl

own_key :
    (u p : String) → auth_key_of u p ≡ auth_key_of "kim" "secret" → (u ≡ "kim") × (p ≡ "secret")
own_key u p e = ground (arith, eq_iff u "kim", eq_iff p "secret", eq_iff "kim:5f3a" "lee:90b1")

cached_again :
    (authenticate contains jitter 2 auth_key_of "kim" "secret"
      (site "kim" "secret")
      (run contains jitter 2 auth_key_of site
        (logs_in "kim" "secret" ∷ passes 60_000 ∷ logs_in "lee" "guess" ∷ ensures ∷ [])
        session
        start).0
      (run contains jitter 2 auth_key_of site
        (logs_in "kim" "secret" ∷ passes 60_000 ∷ logs_in "lee" "guess" ∷ ensures ∷ [])
        session
        start).1).0
    ≡ says true
unfolding run step ensure_authenticated reauthenticate authenticate check_cache lookup insert
    is_jwt_valid perform_login after_limiter accepted time sleep acquire acquire_loop refill_tokens
    spend check_timeout wait_for extra_wait wait_if_needed on_failure on_success
cached_again = refl

authenticate_honest_example : accepted contains (site "kim" "secret") ≡ true
authenticate_honest_example =
    authenticate_honest contains jitter 2 auth_key_of site
      (logs_in "kim" "secret" ∷ passes 60_000 ∷ logs_in "lee" "guess" ∷ ensures ∷ []) session start
      "kim" "secret" own_key refl cached_again
