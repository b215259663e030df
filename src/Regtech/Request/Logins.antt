-- ===== src/Regtech/Request/Logins.antt =====
-- A login on demand always comes to an answer when the limiter of logins is in a valid state, and
-- leaves it in one.
use blacklist.Prelude.{
  ℕ, suc, ◌≤◌, ◌≡◌, ◌⊎◌, inl, inr, refl, ap, ltb, Bool, true, false, Option, none, some, String,
  arith, if◌then◌else◌,
}
use blacklist.Prelude.Dict.{lookup}
use blacklist.RateLimiter.Clock.{World, time, sleep}
use blacklist.RateLimiter.Bucket.{granted}
use blacklist.RateLimiter.Bucket.Rounds.{acquire-settled}
use blacklist.RateLimiter.Bucket.Conformance.{acquire-Settles}
use blacklist.RateLimiter.AuthLimiter.{
  AuthRateLimiter, Admission, locked, acquired, extra_wait, wait_if_needed, on_failure, on_success,
}
use blacklist.Regtech.Session.{
  Session, Login, Reply, accepted, is_jwt_valid, check_cache, perform_login, after_limiter,
  authenticate, reauthenticate, ensure_authenticated,
}
use blacklist.Regtech.Request.Pages.{has_run}
use blacklist.Regtech.Request.Limits.{IsServing, IsServing-later}

-- A login that has run and leaves its limiter serving.
pub record Logs (w : World) (r : Reply × Session × World) : Type 0 where
  pub ran : has_run r.0 ≡ true
  pub serving : IsServing r.1.auth_rate_limiter.limiter r.2
  pub later : w.now ≤ r.2.now

Logs-later : (w w' : World) (r : Reply × Session × World) → w.now ≤ w'.now → Logs w' r → Logs w r
Logs-later w w' r later l = record {
  ran = l.ran;
  serving = l.serving;
  later = omega (arith, l.later);
}

choose-Logs :
    (b : Bool) (w : World) (x y : Reply × Session × World)
    → Logs w x
    → Logs w y
    → Logs w (if b then x else y)
choose-Logs true w x y h k = h
choose-Logs false w x y h k = k

-- The limiter's answer is a lock or a grant, and it goes on serving.
pub record Admits (w : World) (r : Admission × AuthRateLimiter × World) : Type 0 where
  pub admission : (r.0 ≡ locked) ⊎ (r.0 ≡ acquired granted)
  pub serving : IsServing r.1.limiter r.2
  pub later : w.now ≤ r.2.now

choose-Admits :
    (b : Bool) (w : World) (x y : Admission × AuthRateLimiter × World)
    → Admits w x
    → Admits w y
    → Admits w (if b then x else y)
choose-Admits true w x y h k = h
choose-Admits false w x y h k = k

module _ (jitter : ℕ → ℕ) (rounds : ℕ) where
  wait_if_needed-Admits :
      (a : AuthRateLimiter) (w : World)
      → IsServing a.limiter w
      → Admits w (wait_if_needed jitter (suc (suc rounds)) a w)
  unfolding wait_if_needed extra_wait sleep time
  wait_if_needed-Admits a w s =
      let w₁ = extra_wait a (time jitter w).1 in
      let s₁ : IsServing a.limiter w₁ = IsServing-later a.limiter w w₁ (ground arith) s in
      let k = acquire-Settles jitter (suc (suc rounds)) 1 none a.limiter w₁ s₁.valid in
      let later : w.now ≤ w₁.now = ground arith in
      choose-Admits (ltb (time jitter w).0 a.locked_until) w _ _
        (record {
          admission = inl refl;
          serving = IsServing-later a.limiter w (time jitter w).1 (omega arith) s;
          later = omega arith;
        })
        (record {
          admission = inr (
              ap acquired
                (acquire-settled jitter rounds 1 none a.limiter w₁ s₁.valid s₁.fits s₁.moves));
          serving = record {
            valid = k.valid;
            moves = omega (arith, k.config.same_rate);
            fits = omega (arith, k.config.same_burst);
          };
          later = omega (arith, k.later, later);
        })

  module _ (contains : String → String → Bool) where
    perform_login-Logs :
        (auth_key : String) (login : Login) (s : Session) (w : World)
        → IsServing s.auth_rate_limiter.limiter w
        → Logs w (perform_login contains jitter auth_key login s w)
    unfolding perform_login time on_failure on_success sleep has_run
    perform_login-Logs auth_key login s w v =
        choose-Logs (accepted contains login) w _ _
          (record { ran = refl; serving = omega arith; later = omega arith })
          (record { ran = refl; serving = ground arith; later = ground arith })

    after_limiter-Logs :
        (auth_key : String) (login : Login) (a : Admission) (s : Session) (w : World)
        → (a ≡ locked) ⊎ (a ≡ acquired granted)
        → IsServing s.auth_rate_limiter.limiter w
        → Logs w (after_limiter contains jitter auth_key login a s w)
    unfolding after_limiter has_run
    after_limiter-Logs auth_key login a s w (inl e) v =
        rw e (record { ran = refl; serving = v; later = omega arith })
    after_limiter-Logs auth_key login a s w (inr e) v =
        rw e (perform_login-Logs auth_key login s w v)

    is_jwt_valid_later :
        (expiry : Option ℕ) (w : World) → w.now ≤ (is_jwt_valid jitter expiry w).1.now
    unfolding is_jwt_valid time
    is_jwt_valid_later expiry w = ground arith

    check_cache_later :
        (entry : Option (ℕ × Bool)) (expiry : Option ℕ) (w : World)
        → w.now ≤ (check_cache jitter entry expiry w).1.now
    unfolding check_cache time
    check_cache_later entry expiry w = ground (arith, is_jwt_valid_later expiry (time jitter w).1)

    module _ (auth_key_of : String → String → String) where
      authenticate-Logs :
          (username password : String) (login : Login) (s : Session) (w : World)
          → IsServing s.auth_rate_limiter.limiter w
          → Logs w (
              authenticate contains jitter
                (suc (suc rounds))
                auth_key_of
                username
                password
                login
                s
                w)
      unfolding authenticate has_run
      authenticate-Logs username password login s w v =
          let entry = lookup (auth_key_of username password) s.auth_cache in
          let (cached, w₁) = check_cache jitter entry s.jwt_expiry w in
          let later = check_cache_later entry s.jwt_expiry w in
          let v₁ = IsServing-later s.auth_rate_limiter.limiter w w₁ later v in
          let (a, l, w₂) = wait_if_needed jitter (suc (suc rounds)) s.auth_rate_limiter w₁ in
          let k = wait_if_needed-Admits s.auth_rate_limiter w₁ v₁ in
          let s₂ : Session = record s {
            last_credentials = some (username, password);
            auth_rate_limiter = l;
          } in
          choose-Logs cached w _ _ (record { ran = refl; serving = v₁; later = later })
            (Logs-later w w₂ _ (omega (arith, later, k.later)) (
              after_limiter-Logs (auth_key_of username password) login a s₂ w₂ k.admission
                k.serving))

      module _ (site : String → String → Login) where
        reauthenticate-Logs :
            (credentials : Option (String × String)) (s : Session) (w : World)
            → IsServing s.auth_rate_limiter.limiter w
            → Logs w
                (reauthenticate contains jitter (suc (suc rounds)) auth_key_of site credentials s w)
        unfolding reauthenticate has_run
        reauthenticate-Logs none s w v = record { ran = refl; serving = v; later = omega arith }
        reauthenticate-Logs (some (username, password)) s w v =
            authenticate-Logs username password (site username password) s w v

        pub ensure_authenticated-Logs :
            (s : Session) (w : World)
            → IsServing s.auth_rate_limiter.limiter w
            → Logs w (ensure_authenticated contains jitter (suc (suc rounds)) auth_key_of site s w)
        unfolding ensure_authenticated has_run
        ensure_authenticated-Logs s w v =
            let (valid, w₁) = is_jwt_valid jitter s.jwt_expiry w in
            let later = is_jwt_valid_later s.jwt_expiry w in
            let v₁ = IsServing-later s.auth_rate_limiter.limiter w w₁ later v in
            choose-Logs s.authenticated w _ _
              (choose-Logs valid w _ _ (record { ran = refl; serving = v₁; later = later })
                (Logs-later w w₁ _ later (reauthenticate-Logs s.last_credentials s w₁ v₁)))
              (reauthenticate-Logs s.last_credentials s w v)
