-- ===== src/Regtech/Request/Tests.antt =====
-- A site whose first page comes at once, and whose second is empty and comes after a new login.
use blacklist.Prelude.{
  ℕ, ◌+◌, ◌*◌, ◌≡◌, ◌≢◌, ◌<◌, refl, Bool, true, false, Option, none, some, List, [], ◌∷◌, ◌++◌,
  ◌==◌, if◌then◌else◌, String, str_eq, arith,
}
use blacklist.Prelude.Int.{pos}
use blacklist.Prelude.Dict.{lookup, insert}
use blacklist.RateLimiter.Clock.{World, time, sleep}
use blacklist.RateLimiter.Bucket.{
  RateLimiter, acquire, acquire_loop, refill_tokens, spend, check_timeout, wait_for, wait_if_needed,
}
use blacklist.RateLimiter.Bucket
use blacklist.RateLimiter.Adaptive.{on_success, on_failure}
use blacklist.RateLimiter.AuthLimiter.{AuthRateLimiter, extra_wait}
use blacklist.RateLimiter.AuthLimiter
use blacklist.Regtech.{collect_pages, returned, may_continue, member, signals_after, page_data}
use blacklist.Regtech.Response.{
  rpartition, response_text, http_status, utf8_length, is_blank, isdigit, all_digits, int_of_digits,
  response_roundtrip, status_digits,
}
use blacklist.Regtech.Session.{
  answered, accepted, is_jwt_valid, check_cache, perform_login, after_limiter, authenticate,
  reauthenticate, ensure_authenticated, invalidate_session,
}
use blacklist.Regtech.Request.{
  finished, Exchange, Collector, Fetched, answer, fail, after_kind, succeed, parsed_page,
  read_response, read_run, request, check_page_cache, collect_single_page, classify_status,
}
use blacklist.Regtech.Request.Pages.{
  Context, ends, stuck, has_run, prepare_retry, try_page, try_pages,
}
use blacklist.Regtech.Request.Refinement.{page_answers, try_pages_refines}
use blacklist.Regtech.Request.Limits.{IsReady}
use blacklist.Regtech.Request.Progress.{try_pages_progress}

abbrev bucket : RateLimiter
bucket = record {
  rate = 1000;
  burst_size = 2;
  backoff_factor = 2;
  max_backoff = 60_000;
  tokens = 0;
  last_refill = 0;
  failure_count = 0;
  current_backoff = 0;
  last_request_time = 0;
  total_requests = 0;
  total_waits = 0;
  total_wait_time = 0;
  request_history = [];
}

abbrev collector : Collector ℕ
collector = record {
  data_cache = [];
  last_failure_kind = none;
  session = record {
    authenticated = true;
    jwt_expiry = some 3_600_000;
    auth_cache = [];
    last_credentials = some ("user", "secret");
    cookies = "old" ∷ [];
    auth_rate_limiter = record {
      limiter = bucket;
      max_attempts = 3;
      lockout_duration = 300_000;
      consecutive_failures = 0;
      locked_until = 0;
    };
  };
  rate_limiter = record {
    limiter = bucket;
    min_rate = 100;
    max_rate = 1000;
    initial_rate = 1000;
    success_streak = 0;
    failure_streak = 0;
  };
}

abbrev start : World
start = record { now = 0; reads = 0 }

-- `body`, a line break and a status.
abbrev reply : List ℕ → ℕ → ℕ → ℕ → Exchange
reply body a b c = record {
  run = finished (pos 0) (body ++ 10 ∷ status_digits a b c);
  archive_raises = false;
  login = answered "welcome" "/main" ("new" ∷ []);
}

abbrev site : ℕ → ℕ → Exchange
site page attempt =
    if page == 1
    then reply (97 ∷ 98 ∷ []) 2 0 0
    else (if attempt == 1 then reply (99 ∷ []) 3 0 2 else reply (46 ∷ []) 2 0 0)

-- A dot stands for no items; any other code point is an item.
abbrev parse : List ℕ → Option (List ℕ)
parse [] = none
parse (c ∷ text) = if c == 46 then some [] else some (c ∷ text)

abbrev signature : List ℕ → String
signature [] = ""
signature (c ∷ text) = "page"

-- In these texts a part is the whole.
abbrev contains : String → String → Bool
contains part whole = str_eq part whole

abbrev context : Context ℕ
context = record {
  jitter = λ n. 1;
  fuel = 2;
  contains = contains;
  auth_key_of = λ username password. username;
  max_download_bytes = 1000;
  parse = parse;
  cache_key = λ n. if n == 1 then "1" else "2";
  site = site;
  threshold = 3;
}

collected :
    (try_pages context signature none 5 1 [] [] collector start).0 ≡ ends (returned (97 ∷ 98 ∷ []))
unfolding try_pages try_page prepare_retry has_run collect_single_page check_page_cache request
    read_run read_response parsed_page succeed fail after_kind classify_status may_continue member
    signals_after lookup insert time sleep acquire acquire_loop refill_tokens spend check_timeout
    wait_for wait_if_needed on_success on_failure extra_wait rpartition response_text http_status
    utf8_length is_blank isdigit all_digits int_of_digits accepted is_jwt_valid check_cache
    perform_login after_limiter authenticate reauthenticate ensure_authenticated invalidate_session
    Bucket.on_success Bucket.on_failure Bucket.backoff_after AuthLimiter.wait_if_needed
    AuthLimiter.on_success AuthLimiter.on_failure
collected = refl

try_pages_refines_example :
    collect_pages context.threshold
      (page_answers context 5 1 collector start)
      signature
      none
      5
      1
      []
      []
    ≡ returned (97 ∷ 98 ∷ [])
try_pages_refines_example =
    try_pages_refines context signature none 5 1 [] [] collector start (returned (97 ∷ 98 ∷ []))
      collected

collector-IsReady : IsReady collector start
collector-IsReady = ground arith

try_pages_progress_example :
    let r = try_pages context signature none 5 1 [] [] collector start in
    (r.0 ≢ stuck) × IsReady r.1 r.2
try_pages_progress_example =
    try_pages_progress context 0 refl signature none 5 1 [] [] collector start collector-IsReady

response_roundtrip_example :
    let printed = rpartition (((97 ∷ 10 ∷ 98 ∷ []) ++ 10 ∷ status_digits 4 2 9)) in
    (response_text printed ≡ 97 ∷ 10 ∷ 98 ∷ []) × (http_status printed ≡ 4 * 100 + 2 * 10 + 9)
response_roundtrip_example =
    response_roundtrip (97 ∷ 10 ∷ 98 ∷ []) 4 2 9 (omega arith) (omega arith) (omega arith)

abbrev first : Fetched ℕ × Collector ℕ × World
first = collect_single_page context.jitter 1000 parse 2 "1" (site 1 1) collector start

abbrev second_start : World
second_start = record { now = 30_000; reads = 9 }

first_given : first.0 ≡ answer (page_data (97 ∷ 98 ∷ []))
unfolding collect_single_page check_page_cache request read_run read_response parsed_page succeed
    fail lookup insert time sleep acquire acquire_loop refill_tokens spend check_timeout wait_for
    wait_if_needed on_success rpartition response_text http_status utf8_length is_blank isdigit
    all_digits int_of_digits Bucket.on_success
first_given = refl

first_is_early : (time context.jitter second_start).0 < first.2.now + 60_000
unfolding time
first_is_early = omega arith

no_pages_cached : lookup {Value = ℕ × List ℕ} "1" [] ≡ none
unfolding lookup
no_pages_cached = refl
