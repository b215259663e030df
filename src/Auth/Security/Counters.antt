-- ===== src/Auth/Security/Counters.antt =====
-- The failure counters of app/core/auth/security.py: what one failed login does to them.
use blacklist.Prelude.{
  Bool-cases, leb→lt, ℕ, suc, ◌+◌, ◌<◌, ◌≡◌, refl, true, false, Option, none, some, String, arith,
  leb, inl, inr,
}
use blacklist.Auth.Redis.{
  Key, login_failures, account_failures, key_eq, key_eq_refl, key_eq_sound, count, Entry, live,
  Client,
}
use blacklist.Auth.Security.{
  login_lock_seconds, increment_with_expiry, login_key, account_login_key, record_login_failure,
}

abbrev pub counter : ℕ → ℕ → Option Entry
counter n deadline = some (record { value = count n; deadline = some deadline })

-- A failure counter is absent, or a positive number with a deadline.
pub data IsCounter : Option Entry → Type 0 where
  absent : IsCounter none
  counting : (n deadline : ℕ) → IsCounter (counter (suc n) deadline)

module _ (client : Client) where
  open client use {
    Db, lookup, incr, reply-incr, lookup-incr, lookup-expire, lookup-delete, lookup-setex,
  }

  pub record IsCounted (d : Db) : Type 0 where
    pub logins : (s : String) → IsCounter (lookup d (login_failures s))
    pub accounts : (s : String) → IsCounter (lookup d (account_failures s))

  increment-other :
      (k j : Key) (s t : ℕ) (d : Db)
      → key_eq k j ≡ false
      → lookup (increment_with_expiry client k s t d).1 j ≡ lookup d j
  unfolding increment_with_expiry
  increment-other k j s t d h =
      ground (arith, lookup-incr k j t d, lookup-expire k j s t (incr k t d).1)

  increment-first :
      (k : Key) (s t : ℕ) (d : Db)
      → live t (lookup d k) ≡ none
      → ((increment_with_expiry client k s t d).0 ≡ true)
        × (lookup (increment_with_expiry client k s t d).1 k ≡ counter 1 (t + s))
  unfolding increment_with_expiry
  increment-first k s t d h = ground (
    arith,
    reply-incr k t d,
    lookup-incr k k t d,
    lookup-expire k k s t (incr k t d).1,
    key_eq_refl k,
  )

  increment-next :
      (k : Key) (s t n deadline : ℕ) (d : Db)
      → lookup d k ≡ counter (suc n) deadline
      → t < deadline
      → ((increment_with_expiry client k s t d).0 ≡ true)
        × (lookup (increment_with_expiry client k s t d).1 k ≡ counter (suc (suc n)) deadline)
  unfolding increment_with_expiry
  increment-next k s t n deadline d h late = ground (
    arith,
    reply-incr k t d,
    lookup-incr k k t d,
    lookup-expire k k s t (incr k t d).1,
    key_eq_refl k,
  )

  -- On a counter the script succeeds, and leaves one that counts.
  increment-counter :
      (k : Key) (s t : ℕ) (d : Db) (e : Option Entry)
      → lookup d k ≡ e
      → IsCounter e
      → ((increment_with_expiry client k s t d).0 ≡ true)
        × ((n : ℕ) × (deadline : ℕ) × (lookup (increment_with_expiry client k s t d).1 k
              ≡ counter (suc n) deadline))
  increment-counter k s t d _ h absent =
      let (done, new) = increment-first k s t d (rw h refl) in (done, (0, t + s, new))
  increment-counter k s t d _ h (counting n deadline) = elim (Bool-cases (leb deadline t)) [
    | inl over ↦
        let (done, new) = increment-first k s t d (rw (h, over) refl) in (done, (0, t + s, new))
    | inr early ↦
        let (done, new) = increment-next k s t n deadline d h (leb→lt deadline t early) in
        (done, (suc n, deadline, new))
  ]

  increment-IsCounter :
      (k j : Key) (s t : ℕ) (d : Db)
      → IsCounter (lookup d k)
      → IsCounter (lookup d j)
      → IsCounter (lookup (increment_with_expiry client k s t d).1 j)
  increment-IsCounter k j s t d ck cj = elim (Bool-cases (key_eq k j)) [
    | inl same ↦
        let (_, (n, deadline, new)) = increment-counter k s t d _ refl ck in
        rw (← key_eq_sound k j same, new) (counting n deadline)
    | inr other ↦ rw (increment-other k j s t d other) cj
  ]

  module _ (digest casefold : String → String) where
    -- Both scripts run.
    record_login_failure-both :
        (u ip : String) (t : ℕ) (d : Db)
        → IsCounter (lookup d (login_key client digest casefold u ip))
        → record_login_failure client digest casefold u ip t d
          ≡ increment_with_expiry client
              (account_login_key client digest casefold u)
              login_lock_seconds
              t
              (increment_with_expiry client
                (login_key client digest casefold u ip)
                login_lock_seconds
                t
                d).1
    unfolding record_login_failure
    record_login_failure-both u ip t d c = rw (
        (increment-counter (login_key client digest casefold u ip) login_lock_seconds t d _ refl
          c).0)

    pub login_key-IsCounter :
        (u ip : String) (d : Db)
        → IsCounted d
        → IsCounter (lookup d (login_key client digest casefold u ip))
    unfolding login_key
    login_key-IsCounter u ip d c = c.logins _

    account_login_key-IsCounter :
        (u : String) (d : Db)
        → IsCounted d
        → IsCounter (lookup d (account_login_key client digest casefold u))
    unfolding account_login_key
    account_login_key-IsCounter u d c = c.accounts _

    increment-IsCounted :
        (k : Key) (s t : ℕ) (d : Db)
        → IsCounter (lookup d k)
        → IsCounted d
        → IsCounted (increment_with_expiry client k s t d).1
    increment-IsCounted k s t d h c = record {
      logins = λ a. increment-IsCounter k (login_failures a) s t d h (c.logins a);
      accounts = λ a. increment-IsCounter k (account_failures a) s t d h (c.accounts a);
    }

    -- In a store of well-formed counters, counting a failed login never raises, and every counter
    -- stays a number with a deadline.
    pub record_login_failure-IsCounted :
        (u ip : String) (t : ℕ) (d : Db)
        → IsCounted d
        → ((record_login_failure client digest casefold u ip t d).0 ≡ true)
          × IsCounted (record_login_failure client digest casefold u ip t d).1
    record_login_failure-IsCounted u ip t d c =
        let k = login_key client digest casefold u ip in
        let a = account_login_key client digest casefold u in
        let d₁ = (increment_with_expiry client k login_lock_seconds t d).1 in
        let ck = login_key-IsCounter u ip d c in
        let c₁ : IsCounted d₁ = increment-IsCounted k login_lock_seconds t d ck c in
        let ca = account_login_key-IsCounter u d₁ c₁ in
        rw (record_login_failure-both u ip t d ck) (
          (increment-counter a login_lock_seconds t d₁ _ refl ca).0,
          increment-IsCounted a login_lock_seconds t d₁ ca c₁,
        )

    key_eq-login-account :
        (u ip v : String)
        → key_eq
            (login_key client digest casefold u ip)
            (account_login_key client digest casefold v)
          ≡ false
    unfolding login_key account_login_key
    key_eq-login-account u ip v = refl

    pub key_eq-account-login :
        (u ip v : String)
        → key_eq
            (account_login_key client digest casefold v)
            (login_key client digest casefold u ip)
          ≡ false
    unfolding login_key account_login_key
    key_eq-account-login u ip v = refl

    -- The account's counter: a first failure starts it, and a failure before its deadline counts.
    pub record_login_failure-first :
        (u ip : String) (t : ℕ) (d : Db)
        → IsCounted d
        → live t (lookup d (account_login_key client digest casefold u)) ≡ none
        → lookup
            (record_login_failure client digest casefold u ip t d).1
            (account_login_key client digest casefold u)
          ≡ counter 1 (t + login_lock_seconds)
    record_login_failure-first u ip t d c h =
        let k = login_key client digest casefold u ip in
        let a = account_login_key client digest casefold u in
        let d₁ = (increment_with_expiry client k login_lock_seconds t d).1 in
        let same : lookup d₁ a ≡ lookup d a =
          increment-other k a login_lock_seconds t d (key_eq-login-account u ip u) in
        rw (record_login_failure-both u ip t d (login_key-IsCounter u ip d c))
          ((increment-first a login_lock_seconds t d₁ (rw same h)).1)

    pub record_login_failure-next :
        (u ip : String) (t n deadline : ℕ) (d : Db)
        → IsCounted d
        → lookup d (account_login_key client digest casefold u) ≡ counter (suc n) deadline
        → t < deadline
        → lookup
            (record_login_failure client digest casefold u ip t d).1
            (account_login_key client digest casefold u)
          ≡ counter (suc (suc n)) deadline
    record_login_failure-next u ip t n deadline d c h late =
        let k = login_key client digest casefold u ip in
        let a = account_login_key client digest casefold u in
        let d₁ = (increment_with_expiry client k login_lock_seconds t d).1 in
        let same : lookup d₁ a ≡ lookup d a =
          increment-other k a login_lock_seconds t d (key_eq-login-account u ip u) in
        rw (record_login_failure-both u ip t d (login_key-IsCounter u ip d c))
          ((increment-next a login_lock_seconds t n deadline d₁ (rw same h) late).1)
