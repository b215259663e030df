-- ===== src/Auth/Security.antt =====
-- `AuthSecurity` of app/core/auth/security.py, over a Redis client. `digest` stands for
-- `hashlib.sha256(...).hexdigest()` and `casefold` for `str.casefold`. A raised error is `false`
-- or `raises` beside the store as the calls before the error left it.
pub mod Counters
pub mod Lockout
use Prim.Native.String.{◌++◌}
use blacklist.Prelude.{
  ℕ, ◌+◌, ◌-◌, Bool, true, false, Option, none, some, String, List, [], ◌∷◌, leb, ◌==◌,
  if◌then◌else◌, max,
}
use blacklist.Auth.Redis.{
  Key, login_failures, account_failures, revoked_token, Value, count, text, Entry, live, Client,
}

abbrev pub login_failure_limit : ℕ
login_failure_limit = 5

abbrev pub login_lock_seconds : ℕ
login_lock_seconds = 900

pub data Check : Type 0 where
  answer : Bool → Check
  raises : Check

-- `int(value) >= LOGIN_FAILURE_LIMIT`
abbrev pub over_limit : Option Entry → Check
over_limit none = answer false
over_limit (some e) = elim e.value [
  | count n ↦ answer (leb login_failure_limit n)
  | text s ↦ raises
]

-- The loop over the keys goes on while no count is at the limit.
abbrev or_next : Check → Check → Check
or_next (answer true) next = answer true
or_next (answer false) next = next
or_next raises next = raises

module _ (client : Client) where
  open client use {Db, lookup, incr, expire, delete, setex}

  -- The Lua script: EXPIRE only with the first INCR.
  unfoldable pub increment_with_expiry : Key → ℕ → ℕ → Db → Bool × Db
  increment_with_expiry key seconds now d =
      let (n, d') = incr key now d in
      elim n [
        | none ↦ (false, d')
        | some n ↦ if n == 1 then (true, expire key seconds now d') else (true, d')
      ]

  unfoldable pub is_revoked : String → ℕ → Db → Bool
  is_revoked jti now d = elim (live now (lookup d (revoked_token jti))) [
    | none ↦ false
    | some _ ↦ true
  ]

  unfoldable pub revoke : String → ℕ → ℕ → Db → Db
  revoke jti expires_at now = setex (revoked_token jti) (max 1 (expires_at - now)) (count 1) now

  module _ (digest casefold : String → String) where
    unfoldable pub login_key : String → String → Key
    login_key username client_ip = login_failures (digest (casefold username ++ "\0" ++ client_ip))

    unfoldable pub account_login_key : String → Key
    account_login_key username = account_failures (digest (casefold username))

    unfoldable pub is_login_locked : String → String → ℕ → Db → Check
    is_login_locked username client_ip now d =
        or_next (over_limit (live now (lookup d (login_key username client_ip))))
          (over_limit (live now (lookup d (account_login_key username))))

    unfoldable pub record_login_failure : String → String → ℕ → Db → Bool × Db
    record_login_failure username client_ip now d =
        let (done, d') =
          increment_with_expiry (login_key username client_ip) login_lock_seconds now d in
        if done
        then increment_with_expiry (account_login_key username) login_lock_seconds now d'
        else (false, d')

    unfoldable pub clear_login_failures : String → String → Db → Db
    clear_login_failures username client_ip d =
        delete (account_login_key username) (delete (login_key username client_ip) d)
