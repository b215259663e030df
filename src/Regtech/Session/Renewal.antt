-- ===== src/Regtech/Session/Renewal.antt =====
-- When a session is used without a login, and when it takes a new one.
use blacklist.Prelude.{
  ℕ, zero, suc, ◌+◌, ◌<◌, ◌≡◌, refl, Bool, true, false, Option, none, some, arith, String, inl, inr,
  Bool-cases, ◌∙◌,
}
use blacklist.Prelude.Dict.{lookup}
use blacklist.RateLimiter.Clock.{World, time}
use blacklist.RateLimiter.Bucket.{granted, timed_out, zero_division}
use blacklist.RateLimiter.Bucket
use blacklist.RateLimiter.AuthLimiter.{Admission, locked, acquired}
use blacklist.RateLimiter.AuthLimiter
use blacklist.Regtech.Session.{
  Session, Login, says, accepted, invalidate_session, is_jwt_valid, check_cache, perform_login,
  after_limiter, authenticate, reauthenticate, ensure_authenticated, jwt_margin, jwt_lifetime,
}
use blacklist.Regtech.Session.Honesty.{after_limiter-accepted}

pub record IsLive (s : Session) (w : World) : Type 0 where
  pub on : s.authenticated ≡ true
  pub expiry : ℕ
  pub expires : s.jwt_expiry ≡ some expiry
  pub ahead : w.now + jwt_margin < expiry

-- A session that keeps its flag and its expiry.
pub record Keeps (s s' : Session) : Type 0 where
  pub same_flag : s'.authenticated ≡ s.authenticated
  pub same_expiry : s'.jwt_expiry ≡ s.jwt_expiry

module _ (contains : String → String → Bool) (jitter : ℕ → ℕ) where
  is_jwt_valid-ahead :
      (expiry : Option ℕ) (w : World)
      → (is_jwt_valid jitter expiry w).0 ≡ true
      → (e : ℕ) × (expiry ≡ some e) × ((is_jwt_valid jitter expiry w).1.now + jwt_margin < e)
  unfolding is_jwt_valid time
  is_jwt_valid-ahead none w h = absurd (ground arith)
  is_jwt_valid-ahead (some zero) w h = absurd (ground arith)
  is_jwt_valid-ahead (some (suc n)) w h = (suc n, refl, ground arith)

  is_jwt_valid_early :
      (e : ℕ) (w : World)
      → (time jitter w).0 + jwt_margin < e
      → is_jwt_valid jitter (some e) w ≡ (true, (time jitter w).1)
  unfolding is_jwt_valid
  is_jwt_valid_early zero w h = absurd (omega arith)
  is_jwt_valid_early (suc n) w h = ground arith

  check_cache-ahead :
      (entry : Option (ℕ × Bool)) (expiry : Option ℕ) (w : World)
      → (check_cache jitter entry expiry w).0 ≡ true
      → (e : ℕ) × (expiry ≡ some e) × ((check_cache jitter entry expiry w).1.now + jwt_margin < e)
  unfolding check_cache
  check_cache-ahead none expiry w h = absurd (ground arith)
  check_cache-ahead (some (t, valid)) expiry w h =
      let k = is_jwt_valid-ahead expiry (time jitter w).1 (ground arith) in
      (k.0, k.1, ground (arith, k.2))

  after_limiter-IsLive :
      (auth_key : String) (login : Login) (a : Admission) (s : Session) (w : World)
      → (after_limiter contains jitter auth_key login a s w).0 ≡ says true
      → let (r, s', w') = after_limiter contains jitter auth_key login a s w in IsLive s' w'
  unfolding after_limiter perform_login time
  after_limiter-IsLive auth_key login locked s w e = absurd (ground arith)
  after_limiter-IsLive auth_key login (acquired granted) s w e = record {
    on = ground arith;
    expiry = (time jitter (time jitter w).1).0 + jwt_lifetime;
    expires = ground arith;
    ahead = ground arith;
  }
  after_limiter-IsLive auth_key login (acquired timed_out) s w e = absurd (ground arith)
  after_limiter-IsLive auth_key login (acquired zero_division) s w e = absurd (ground arith)
  after_limiter-IsLive auth_key login (acquired Bucket.out_of_fuel) s w e = absurd (ground arith)

  after_limiter-Keeps :
      (auth_key : String) (login : Login) (a : Admission) (s : Session) (w : World)
      → (after_limiter contains jitter auth_key login a s w).0 ≡ says false
      → Keeps s (after_limiter contains jitter auth_key login a s w).1
  unfolding after_limiter perform_login
  after_limiter-Keeps auth_key login locked s w e = ground arith
  after_limiter-Keeps auth_key login (acquired granted) s w e = ground arith
  after_limiter-Keeps auth_key login (acquired timed_out) s w e = ground arith
  after_limiter-Keeps auth_key login (acquired zero_division) s w e = ground arith
  after_limiter-Keeps auth_key login (acquired Bucket.out_of_fuel) s w e = ground arith

  module _ (fuel : ℕ) (auth_key_of : String → String → String) where
    -- A login that is answered True leaves a session with its flag set, whose expiry is more than
    -- the margin ahead.
    pub authenticate-IsLive :
        (username password : String) (login : Login) (s : Session) (w : World)
        → (authenticate contains jitter fuel auth_key_of username password login s w).0 ≡ says true
        → let (r, s', w') =
            authenticate contains jitter fuel auth_key_of username password login s w in
          IsLive s' w'
    unfolding authenticate
    authenticate-IsLive username password login s w e =
        let entry = lookup (auth_key_of username password) s.auth_cache in
        let (cached, w₁) = check_cache jitter entry s.jwt_expiry w in
        let (a, l, w₂) = AuthLimiter.wait_if_needed jitter fuel s.auth_rate_limiter w₁ in
        let s₂ : Session = record s {
          last_credentials = some (username, password);
          auth_rate_limiter = l;
        } in
        elim (Bool-cases cached) [
          | inl hit ↦
              let k = check_cache-ahead entry s.jwt_expiry w hit in
              rw hit (record { on = refl; expiry = k.0; expires = k.1; ahead = k.2 })
          | inr miss ↦
              rw miss
                (after_limiter-IsLive (auth_key_of username password) login a s₂ w₂ (ground arith))
        ]

    authenticate-Keeps :
        (username password : String) (login : Login) (s : Session) (w : World)
        → (authenticate contains jitter fuel auth_key_of username password login s w).0 ≡ says false
        → Keeps s (authenticate contains jitter fuel auth_key_of username password login s w).1
    unfolding authenticate
    authenticate-Keeps username password login s w e =
        let entry = lookup (auth_key_of username password) s.auth_cache in
        let (cached, w₁) = check_cache jitter entry s.jwt_expiry w in
        let (a, l, w₂) = AuthLimiter.wait_if_needed jitter fuel s.auth_rate_limiter w₁ in
        let s₂ : Session = record s {
          last_credentials = some (username, password);
          auth_rate_limiter = l;
        } in
        elim (Bool-cases cached) [
          | inl hit ↦ absurd (ground arith)
          | inr miss ↦
              let k =
                after_limiter-Keeps (auth_key_of username password) login a s₂ w₂ (ground arith) in
              rw miss (record { same_flag = k.same_flag; same_expiry = k.same_expiry })
        ]

    module _ (site : String → String → Login) where
      -- A session is used without a login as long as the margin is not reached.
      pub ensure_authenticated_live :
          (s : Session) (w : World) (e : ℕ)
          → s.authenticated ≡ true
          → s.jwt_expiry ≡ some e
          → (time jitter w).0 + jwt_margin < e
          → ensure_authenticated contains jitter fuel auth_key_of site s w
            ≡ (says true, s, (time jitter w).1)
      unfolding ensure_authenticated
      ensure_authenticated_live s w e on expires h = rw (on, expires, is_jwt_valid_early e w h) refl

      -- When a login on a session whose flag is set is answered False, the next
      -- `ensure_authenticated` answers True without a login, whatever cookies the refused exchange
      -- left, as long as the expiry of the session before is more than the margin ahead.
      pub ensure_authenticated_refused :
          (username password : String) (login : Login) (s : Session) (w : World) (e : ℕ)
          → s.authenticated ≡ true
          → s.jwt_expiry ≡ some e
          → (authenticate contains jitter fuel auth_key_of username password login s w).0
            ≡ says false
          → (time jitter
                (authenticate contains jitter fuel auth_key_of username password login s w).2).0
              + jwt_margin
            < e
          → let (r, s', w') =
              authenticate contains jitter fuel auth_key_of username password login s w in
            ensure_authenticated contains jitter fuel auth_key_of site s' w'
            ≡ (says true, s', (time jitter w').1)
      ensure_authenticated_refused username password login s w e on expires refused h =
          let (r, s', w') =
            authenticate contains jitter fuel auth_key_of username password login s w in
          let k = authenticate-Keeps username password login s w refused in
          ensure_authenticated_live s' w' e (k.same_flag ∙ on) (k.same_expiry ∙ expires) h

      -- After `invalidate_session`, `ensure_authenticated` answers True only when the site accepts
      -- a login with the stored credentials.
      pub ensure_authenticated-invalidate_session :
          (s : Session) (w : World) (username password : String)
          → s.last_credentials ≡ some (username, password)
          → (ensure_authenticated contains jitter fuel auth_key_of site (invalidate_session s) w).0
            ≡ says true
          → accepted contains (site username password) ≡ true
      unfolding ensure_authenticated reauthenticate authenticate invalidate_session check_cache
          lookup
      ensure_authenticated-invalidate_session s w username password c e =
          let (a, l, w₂) = AuthLimiter.wait_if_needed jitter fuel s.auth_rate_limiter w in
          let s₂ : Session = record (invalidate_session s) {
            last_credentials = some (username, password);
            auth_rate_limiter = l;
          } in
          after_limiter-accepted contains jitter fuel auth_key_of site
            (auth_key_of username password) (site username password) a s₂ w₂ (rw c at e)
