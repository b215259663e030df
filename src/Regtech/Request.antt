-- ===== src/Regtech/Request.antt =====
-- `_collect_single_page` of collector/core/regtech/page_collection.py: the cache of a minute, the
-- limiter, and what each end of a request does to the limiter, the session and the kind of failure.
--
-- An exchange is what one run of curl gives, whether the archive raises, and what the login gives
-- that may follow. `parse` is `_parse_response_data`, and `cache_key` the text that the code builds
-- from the page, its size and the dates.
pub mod Pages
pub mod Asking
pub mod Refinement
pub mod Limits
pub mod Readiness
pub mod Statuses
pub mod Effects
pub mod Caching
mod Tests
pub mod Logins
pub mod Progress
use blacklist.Prelude.{
  ℕ, zero, suc, ◌+◌, Bool, true, false, ◌&&◌, ◌||◌, Option, none, some, List, [], ◌∷◌, ◌==◌, ltb,
  if◌then◌else◌, String,
}
use blacklist.Prelude.Dict.{lookup, insert}
use blacklist.Prelude.Int.{ℤ, pos, negsuc}
use blacklist.RateLimiter.Clock.{World, time}
use blacklist.RateLimiter.Bucket.{Outcome, granted, timed_out, zero_division, wait_if_needed}
use blacklist.RateLimiter.Bucket
use blacklist.RateLimiter.Adaptive.{AdaptiveRateLimiter, on_success, on_failure}
use blacklist.Regtech.{
  FailureKind, block_suspect, session_expired, download_too_large, curl_error, http_error, Answer,
  page_data, no_page,
}
use blacklist.Regtech.Response.{rpartition, response_text, http_status, utf8_length, is_blank}
use blacklist.Regtech.Session.{Session, Login, invalidate_session}

abbrev pub page_cache_ttl : ℕ
page_cache_ttl = 60_000

-- `run_text_bounded`: the return code and the output, an OSError or SubprocessError, or another
-- exception.
pub data Run : Type 0 where
  finished : ℤ → List ℕ → Run
  os_error other_error : Run

pub record Exchange : Type 0 where
  pub run : Run
  pub archive_raises : Bool
  pub login : Login

pub record Collector {ℓ} (Item : Type ℓ) : Type ℓ where
  pub data_cache : List (String × (ℕ × List Item))
  pub last_failure_kind : Option FailureKind
  pub session : Session
  pub rate_limiter : AdaptiveRateLimiter

-- An answer, or a limiter that never lets the request through.
pub data Fetched {ℓ} (Item : Type ℓ) : Type ℓ where
  answer : Answer Item → Fetched Item
  out_of_fuel : Fetched Item

abbrev is_login_redirect : ℕ → Bool
is_login_redirect status =
    status == 301
    || status == 302
    || status == 303
    || status == 307
    || status == 308
    || status == 401

-- The kind of a response whose status is not 200.
unfoldable pub classify_status : ℕ → FailureKind
classify_status status =
    if is_login_redirect status
    then session_expired
    else (if status == 403 || status == 429 then block_suspect else http_error)

-- `http_status or None`
abbrev pub or_none : ℕ → Option ℕ
or_none zero = none
or_none (suc n) = some (suc n)

abbrev pub is_returncode : ℕ → ℤ → Bool
is_returncode n (pos m) = m == n
is_returncode n (negsuc m) = false

-- `self.invalidate_session()` where the kind asks for it.
unfoldable pub after_kind : FailureKind → Session → Session
after_kind session_expired s = invalidate_session s
after_kind _ s = s

module _ {ℓ} {Item : Type ℓ} where
  -- A request that gives no page.
  unfoldable pub fail :
      FailureKind → Option ℕ → Collector Item → World → Fetched Item × Collector Item × World
  fail kind error_code c w =
      let (l, w') = on_failure error_code c.rate_limiter w in
      (
        answer (no_page (some kind)),
        record c {
          last_failure_kind = some kind;
          session = after_kind kind c.session;
          rate_limiter = l;
        },
        w',
      )

  module _ (jitter : ℕ → ℕ) where
    unfoldable pub succeed :
        String → List Item → Collector Item → World → Fetched Item × Collector Item × World
    succeed cache_key items c w =
        let (now, w') = time jitter w in
        (
          answer (page_data items),
          record c {
            data_cache = insert cache_key (now, items) c.data_cache;
            last_failure_kind = none;
            rate_limiter = on_success c.rate_limiter;
          },
          w',
        )

    unfoldable pub parsed_page :
        String → Option (List Item) → Collector Item → World → Fetched Item × Collector Item × World
    parsed_page cache_key none c w = fail block_suspect none c w
    parsed_page cache_key (some items) c w = succeed cache_key items c w

    -- A cached page that is younger than a minute, and the clock after the check.
    unfoldable pub check_page_cache : Option (ℕ × List Item) → World → Option (List Item) × World
    check_page_cache none w = (none, w)
    check_page_cache (some (cache_time, cached_data)) w =
        let (now, w') = time jitter w in
        (if ltb now (cache_time + page_cache_ttl) then some cached_data else none, w')

    module _ (max_download_bytes : ℕ) (parse : List ℕ → Option (List Item)) where
      -- What follows on an output: its length, the archive, the status and the page.
      unfoldable pub read_response :
          String
          → Bool
          → List ℕ
          → ℕ
          → Collector Item
          → World
          → Fetched Item × Collector Item × World
      read_response cache_key archive_raises text status c w =
          if ltb max_download_bytes (utf8_length text)
          then fail download_too_large none c w
          else (if archive_raises
              then fail http_error none c w
              else (if status == 200
                  then (if is_blank text
                      then fail block_suspect none c w
                      else parsed_page cache_key (parse text) c w)
                  else fail (classify_status status) (or_none status) c w))

      unfoldable pub read_run :
          String → Bool → Run → Collector Item → World → Fetched Item × Collector Item × World
      read_run cache_key archive_raises os_error c w = fail curl_error none c w
      read_run cache_key archive_raises other_error c w = fail http_error none c w
      read_run cache_key archive_raises (finished returncode stdout) c w =
          let printed = rpartition stdout in
          if is_returncode 0 returncode
          then read_response cache_key archive_raises (response_text printed) (http_status printed)
              c w
          else fail (if is_returncode 63 returncode then download_too_large else curl_error) none c
              w

      -- The request once `wait_if_needed` has answered. A division by zero ends in the last
      -- `except`; a False leaves the kind of the failure before.
      unfoldable pub request :
          String
          → Exchange
          → Outcome
          → Collector Item
          → World
          → Fetched Item × Collector Item × World
      request cache_key exchange granted c w =
          read_run cache_key exchange.archive_raises exchange.run c w
      request cache_key exchange timed_out c w = (answer (no_page c.last_failure_kind), c, w)
      request cache_key exchange zero_division c w = fail http_error none c w
      request cache_key exchange Bucket.out_of_fuel c w = (out_of_fuel, c, w)

      unfoldable pub collect_single_page :
          ℕ → String → Exchange → Collector Item → World → Fetched Item × Collector Item × World
      collect_single_page fuel cache_key exchange c w =
          let (cached, w₁) = check_page_cache (lookup cache_key c.data_cache) w in
          let (o, l, w₂) = wait_if_needed jitter fuel c.rate_limiter.limiter w₁ in
          elim cached [
            | some items ↦ (answer (page_data items), c, w₁)
            | none ↦
                request cache_key exchange o
                  (record c { rate_limiter = record (c.rate_limiter) { limiter = l } }) w₂
          ]
