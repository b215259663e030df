-- ===== src/Regtech/Session.antt =====
-- The session of the REGTECH client, collector/core/regtech/auth.py: login with its cache, the
-- local expiry, the invalidation and the login on demand. Times are milliseconds.
--
-- `auth_key_of` builds the cache's key from the user name and the keyed HMAC of the password, and
-- `contains part whole` is Python's `part in whole`.
-- What the login exchange gives is an argument: its answer, or an exception, with the cookies that
-- it leaves.
mod Tests
pub mod Honesty
pub mod Renewal
use blacklist.Prelude.{
  ℕ, zero, suc, ◌+◌, Bool, true, false, ◌&&◌, ◌||◌, Option, none, some, List, [], ltb,
  if◌then◌else◌, String,
}
use blacklist.Prelude.Dict.{lookup, insert}
use blacklist.RateLimiter.Clock.{World, time}
use blacklist.RateLimiter.Bucket.{granted, timed_out, zero_division}
use blacklist.RateLimiter.Bucket
use blacklist.RateLimiter.AuthLimiter.{AuthRateLimiter, Admission, locked, acquired}
use blacklist.RateLimiter.AuthLimiter

abbrev pub cache_ttl : ℕ
cache_ttl = 3_600_000

abbrev pub jwt_lifetime : ℕ
jwt_lifetime = 3_600_000

abbrev pub jwt_margin : ℕ
jwt_margin = 300_000

-- An entry of `_auth_cache` has the time of the login and whether it was accepted.
pub record Session : Type 0 where
  pub authenticated : Bool
  pub jwt_expiry : Option ℕ
  pub auth_cache : List (String × (ℕ × Bool))
  pub last_credentials : Option (String × String)
  pub cookies : List String
  pub auth_rate_limiter : AuthRateLimiter

-- The response to /login/addLogin with its text, URL and cookies, or an exception.
pub data Login : Type 0 where
  answered : String → String → List String → Login
  raised : List String → Login

-- What a call returns; `raises` is the limiter's division by zero.
pub data Reply : Type 0 where
  says : Bool → Reply
  raises out_of_fuel : Reply

unfoldable pub invalidate_session : Session → Session
invalidate_session s = record s {
  authenticated = false;
  jwt_expiry = none;
  auth_cache = [];
  cookies = [];
}

abbrev pub login_cookies : Login → List String
login_cookies (answered text url cookies) = cookies
login_cookies (raised cookies) = cookies

module _ (jitter : ℕ → ℕ) where
  unfoldable pub is_jwt_valid : Option ℕ → World → Bool × World
  is_jwt_valid none w = (false, w)
  is_jwt_valid (some zero) w = (false, w)
  is_jwt_valid (some (suc n)) w =
      let (now, w') = time jitter w in (ltb (now + jwt_margin) (suc n), w')

  -- Whether the cache answers a login.
  unfoldable pub check_cache : Option (ℕ × Bool) → Option ℕ → World → Bool × World
  check_cache none jwt_expiry w = (false, w)
  check_cache (some (cache_time, is_valid)) jwt_expiry w =
      let (now, w₁) = time jitter w in
      let (valid, w₂) = is_jwt_valid jwt_expiry w₁ in
      if ltb now (cache_time + cache_ttl) && is_valid then (valid, w₂) else (false, w₁)

module _ (contains : String → String → Bool) where
  unfoldable pub accepted : Login → Bool
  accepted (answered text url cookies) =
      contains "로그아웃" text || contains "마이페이지" text || contains "/main" url
  accepted (raised cookies) = false

  module _ (jitter : ℕ → ℕ) where
    -- The login exchange, once the limiter has let it through.
    unfoldable pub perform_login : String → Login → Session → World → Reply × Session × World
    perform_login auth_key login s w =
        let (t, w₁) = time jitter w in
        let (t', w₂) = time jitter w₁ in
        let (l, w₃) = AuthLimiter.on_failure jitter s.auth_rate_limiter w in
        let (t'', w₄) = time jitter w₃ in
        if accepted login
        then (
          says true,
          record s {
            authenticated = true;
            auth_cache = insert auth_key (t, true) s.auth_cache;
            jwt_expiry = some (t' + jwt_lifetime);
            cookies = login_cookies login;
            auth_rate_limiter = AuthLimiter.on_success s.auth_rate_limiter;
          },
          w₂,
        )
        else (
          says false,
          record s {
            auth_cache = insert auth_key (t'', false) s.auth_cache;
            cookies = login_cookies login;
            auth_rate_limiter = l;
          },
          w₄,
        )

    unfoldable pub after_limiter :
        String → Login → Admission → Session → World → Reply × Session × World
    after_limiter auth_key login locked s w = (says false, s, w)
    after_limiter auth_key login (acquired granted) s w = perform_login auth_key login s w
    after_limiter auth_key login (acquired timed_out) s w = (says false, s, w)
    after_limiter auth_key login (acquired zero_division) s w = (raises, s, w)
    after_limiter auth_key login (acquired Bucket.out_of_fuel) s w = (out_of_fuel, s, w)

    module _ (fuel : ℕ) (auth_key_of : String → String → String) where
      unfoldable pub authenticate :
          String → String → Login → Session → World → Reply × Session × World
      authenticate username password login s w =
          let auth_key = auth_key_of username password in
          let s₁ = record s { last_credentials = some (username, password) } in
          let (cached, w₁) = check_cache jitter (lookup auth_key s.auth_cache) s.jwt_expiry w in
          let (admission, l, w₂) = AuthLimiter.wait_if_needed jitter fuel s.auth_rate_limiter w₁ in
          if cached
          then (says true, record s₁ { authenticated = true }, w₁)
          else after_limiter auth_key login admission (record s₁ { auth_rate_limiter = l }) w₂

      -- `login` is what the exchange would give for the stored credentials.
      unfoldable pub reauthenticate :
          (String → String → Login)
          → Option (String × String)
          → Session
          → World
          → Reply × Session × World
      reauthenticate site none s w = (says false, s, w)
      reauthenticate site (some (username, password)) s w =
          authenticate username password (site username password) s w

      unfoldable pub ensure_authenticated :
          (String → String → Login) → Session → World → Reply × Session × World
      ensure_authenticated site s w =
          let (valid, w₁) = is_jwt_valid jitter s.jwt_expiry w in
          if s.authenticated
          then (if valid then (says true, s, w₁) else reauthenticate site s.last_credentials s w₁)
          else reauthenticate site s.last_credentials s w
