-- ===== src/Regtech/Session/Honesty.antt =====
-- A cached login stands for one that the site accepted.
use blacklist.Prelude.{
  ℕ, ◌≡◌, Bool, true, false, Option, none, some, List, [], ◌∷◌, arith, String, str_eq, eq_iff, inl,
  inr, refl, subst, if◌then◌else◌, Bool-cases,
}
use blacklist.Prelude.Dict.{lookup, insert, lookup-insert}
use blacklist.RateLimiter.Clock.{World, sleep, time}
use blacklist.RateLimiter.Bucket.{granted, timed_out, zero_division}
use blacklist.RateLimiter.Bucket
use blacklist.RateLimiter.AuthLimiter.{Admission, locked, acquired}
use blacklist.RateLimiter.AuthLimiter
use blacklist.Regtech.Session.{
  Session, Login, Reply, says, accepted, invalidate_session, is_jwt_valid, check_cache,
  perform_login, after_limiter, authenticate, reauthenticate, ensure_authenticated,
}

-- What a client does with a session, and the time that passes.
pub data Call : Type 0 where
  logs_in : String → String → Call
  ensures invalidates : Call
  passes : ℕ → Call

module _ (contains : String → String → Bool) (jitter : ℕ → ℕ) (fuel : ℕ)
    (auth_key_of : String → String → String) (site : String → String → Login) where
  unfoldable pub step : Call → Session → World → Session × World
  step (logs_in username password) s w =
      let (r, s', w') =
        authenticate contains jitter fuel auth_key_of username password (site username password) s
          w in
      (s', w')
  step ensures s w =
      let (r, s', w') = ensure_authenticated contains jitter fuel auth_key_of site s w in (s', w')
  step invalidates s w = (invalidate_session s, w)
  step (passes d) s w = (s, sleep d w)

  unfoldable pub run : List Call → Session → World → Session × World
  run [] s w = (s, w)
  run (c ∷ cs) s w = let (s', w') = step c s w in run cs s' w'

  -- An accepted login has this key.
  abbrev pub Stands : String → Type 0
  Stands key =
      (username : String) × (password : String) × (auth_key_of username password ≡ key)
      × (accepted contains (site username password) ≡ true)

  abbrev pub IsHonest : List (String × (ℕ × Bool)) → Type 0
  IsHonest cache = (key : String) (t : ℕ) → lookup key cache ≡ some (t, true) → Stands key

  -- An entry at `key'` that is true only for an accepted login.
  insert-IsHonest :
      (key' : String) (t' : ℕ) (valid : Bool) (cache : List (String × (ℕ × Bool)))
      → (valid ≡ true → Stands key')
      → IsHonest cache
      → IsHonest (insert key' (t', valid) cache)
  insert-IsHonest key' t' valid cache new h key t e = elim (Bool-cases (str_eq key' key)) [
    | inl same ↦
        subst Stands ((eq_iff key' key).0 same)
          (new (ground (arith, lookup-insert key' key (t', valid) cache)))
    | inr differ ↦ h key t (ground (arith, lookup-insert key' key (t', valid) cache))
  ]

  module _ (username password : String) where
    perform_login-IsHonest :
        (s : Session) (w : World)
        → IsHonest s.auth_cache
        → IsHonest
            (perform_login contains jitter
              (auth_key_of username password)
              (site username password)
              s
              w).1.auth_cache
    unfolding perform_login
    perform_login-IsHonest s w h = elim (Bool-cases (accepted contains (site username password))) [
      | inl fine ↦ rw fine (
          insert-IsHonest (auth_key_of username password) (time jitter w).0 true s.auth_cache
            (λ _. (username, password, refl, fine)) h)
      | inr refused ↦ rw refused (
          insert-IsHonest (auth_key_of username password)
            (time jitter (AuthLimiter.on_failure jitter s.auth_rate_limiter w).1).0 false
            s.auth_cache (λ e. absurd (ground arith)) h)
    ]

    after_limiter-IsHonest :
        (a : Admission) (s : Session) (w : World)
        → IsHonest s.auth_cache
        → IsHonest
            (after_limiter contains jitter
              (auth_key_of username password)
              (site username password)
              a
              s
              w).1.auth_cache
    unfolding after_limiter
    after_limiter-IsHonest locked s w h = h
    after_limiter-IsHonest (acquired granted) s w h = perform_login-IsHonest s w h
    after_limiter-IsHonest (acquired timed_out) s w h = h
    after_limiter-IsHonest (acquired zero_division) s w h = h
    after_limiter-IsHonest (acquired Bucket.out_of_fuel) s w h = h

    authenticate-IsHonest :
        (s : Session) (w : World)
        → IsHonest s.auth_cache
        → IsHonest
            (authenticate contains jitter fuel auth_key_of username password
              (site username password)
              s
              w).1.auth_cache
    unfolding authenticate
    authenticate-IsHonest s w h =
        let auth_key = auth_key_of username password in
        let (cached, w₁) = check_cache jitter (lookup auth_key s.auth_cache) s.jwt_expiry w in
        let (a, l, w₂) = AuthLimiter.wait_if_needed jitter fuel s.auth_rate_limiter w₁ in
        elim (Bool-cases cached) [
          | inl hit ↦ rw hit h
          | inr miss ↦ rw miss (
              after_limiter-IsHonest a
                (record s { last_credentials = some (username, password); auth_rate_limiter = l })
                w₂ h)
        ]

  reauthenticate-IsHonest :
      (c : Option (String × String)) (s : Session) (w : World)
      → IsHonest s.auth_cache
      → IsHonest (reauthenticate contains jitter fuel auth_key_of site c s w).1.auth_cache
  unfolding reauthenticate
  reauthenticate-IsHonest none s w h = h
  reauthenticate-IsHonest (some (username, password)) s w h =
      authenticate-IsHonest username password s w h

  choose-IsHonest :
      (b : Bool) (x y : Reply × Session × World)
      → IsHonest x.1.auth_cache
      → IsHonest y.1.auth_cache
      → IsHonest (if b then x else y).1.auth_cache
  choose-IsHonest true x y h k = h
  choose-IsHonest false x y h k = k

  ensure_authenticated-IsHonest :
      (s : Session) (w : World)
      → IsHonest s.auth_cache
      → IsHonest (ensure_authenticated contains jitter fuel auth_key_of site s w).1.auth_cache
  unfolding ensure_authenticated
  ensure_authenticated-IsHonest s w h =
      let (valid, w₁) = is_jwt_valid jitter s.jwt_expiry w in
      choose-IsHonest s.authenticated _ _
        (choose-IsHonest valid (says true, s, w₁) _ h
          (reauthenticate-IsHonest s.last_credentials s w₁ h))
        (reauthenticate-IsHonest s.last_credentials s w h)

  run-IsHonest :
      (cs : List Call) (s : Session) (w : World)
      → IsHonest s.auth_cache
      → IsHonest (run cs s w).0.auth_cache
  unfolding run step invalidate_session lookup
  run-IsHonest [] s w h = h
  run-IsHonest (logs_in username password ∷ cs) s w h =
      let (r, s', w') =
        authenticate contains jitter fuel auth_key_of username password (site username password) s
          w in
      run-IsHonest cs s' w' (authenticate-IsHonest username password s w h)
  run-IsHonest (ensures ∷ cs) s w h =
      let (r, s', w') = ensure_authenticated contains jitter fuel auth_key_of site s w in
      run-IsHonest cs s' w' (ensure_authenticated-IsHonest s w h)
  run-IsHonest (invalidates ∷ cs) s w h =
      run-IsHonest cs (invalidate_session s) w (λ key t e. absurd (ground arith))
  run-IsHonest (passes d ∷ cs) s w h = run-IsHonest cs s (sleep d w) h

  check_cache-hit :
      (entry : Option (ℕ × Bool)) (expiry : Option ℕ) (w : World)
      → (check_cache jitter entry expiry w).0 ≡ true
      → (t : ℕ) × (entry ≡ some (t, true))
  unfolding check_cache
  check_cache-hit none expiry w e = absurd (ground arith)
  check_cache-hit (some (t, valid)) expiry w e = (t, ground arith)

  pub after_limiter-accepted :
      (auth_key : String) (login : Login) (a : Admission) (s : Session) (w : World)
      → (after_limiter contains jitter auth_key login a s w).0 ≡ says true
      → accepted contains login ≡ true
  unfolding after_limiter perform_login
  after_limiter-accepted auth_key login locked s w e = absurd (ground arith)
  after_limiter-accepted auth_key login (acquired granted) s w e = ground arith
  after_limiter-accepted auth_key login (acquired timed_out) s w e = absurd (ground arith)
  after_limiter-accepted auth_key login (acquired zero_division) s w e = absurd (ground arith)
  after_limiter-accepted auth_key login (acquired Bucket.out_of_fuel) s w e = absurd (ground arith)

  -- A login that is answered True is an accepted one, or the cache has one under its key.
  authenticate-Stands :
      (username password : String) (s : Session) (w : World)
      → IsHonest s.auth_cache
      → (authenticate contains jitter fuel auth_key_of username password
          (site username password)
          s
          w).0
        ≡ says true
      → Stands (auth_key_of username password)
  unfolding authenticate
  authenticate-Stands username password s w h e =
      let auth_key = auth_key_of username password in
      let (cached, w₁) = check_cache jitter (lookup auth_key s.auth_cache) s.jwt_expiry w in
      let (a, l, w₂) = AuthLimiter.wait_if_needed jitter fuel s.auth_rate_limiter w₁ in
      elim (Bool-cases cached) [
        | inl hit ↦
            let (t, found) = check_cache-hit (lookup auth_key s.auth_cache) s.jwt_expiry w hit in
            h auth_key t found
        | inr miss ↦ (
          username,
          password,
          refl,
          after_limiter-accepted auth_key (site username password) a
              (record s { last_credentials = some (username, password); auth_rate_limiter = l }) w₂
              (ground arith),
        )
      ]

  -- After any calls on a session whose cache was empty, with a site that answers a login by its
  -- credentials alone: `authenticate` answers True only for credentials that the site accepts, if
  -- no other credentials have their key.
  pub authenticate_honest :
      (cs : List Call) (s : Session) (w : World) (username password : String)
      → ((u p : String)
          → auth_key_of u p ≡ auth_key_of username password
          → (u ≡ username) × (p ≡ password))
      → s.auth_cache ≡ []
      → (authenticate contains jitter fuel auth_key_of username password
          (site username password)
          (run cs s w).0
          (run cs s w).1).0
        ≡ says true
      → accepted contains (site username password) ≡ true
  unfolding lookup
  authenticate_honest cs s w username password injective empty e =
      let h : IsHonest s.auth_cache = rw empty (λ key t found. absurd (ground arith)) in
      let (s', w') = run cs s w in
      let (u, p, same, fine) =
        authenticate-Stands username password s' w' (run-IsHonest cs s w h) e in
      let (eu, ep) = injective u p same in
      subst (λ x. accepted contains (site x password) ≡ true) eu
        (subst (λ x. accepted contains (site u x) ≡ true) ep fine)
