-- ===== src/Auth/Jwt/Sessions.antt =====
-- When a token of app/core/auth/jwt_service.py is accepted, and what ends it.
use blacklist.Prelude.{
  ℕ, ◌+◌, ◌-◌, ◌*◌, ◌≤◌, ◌<◌, ◌≡◌, ◌≢◌, refl, true, false, Option, none, some, String, arith, max,
  ap, sym, ◌∙◌,
}
use blacklist.Prelude.Int.{Numerals}
use blacklist.Auth.Redis.{Client, revoked_token, key_eq_refl, count}
use blacklist.Auth.Passwords.{Bcrypt}
use blacklist.Auth.Security.{is_revoked, revoke}
use blacklist.Auth.AuthState.{Settings, empty_text, current_session_version, rotate_password}
use blacklist.Auth.AuthState
use blacklist.Auth.AuthState.Rotation.{rotate_password-succeeds}
use blacklist.Auth.Jwt.{
  Claim, str, int, Payload, Codec, claims, JwtService, ok, or_default, encode_token, decode_token,
  validate_token, revoke_token,
}

module _ (codec : Codec) (client : Client) (service : JwtService) where
  open codec use {Token, encode, decode, decode-encode, decode_stable, decode_expiry}
  open client use {Db, lookup, lookup-setex}

  decoded :
      (token : Token) (t : ℕ) {p : Payload}
      → decode_token codec client service token t ≡ ok p
      → decode token t ≡ claims p
  unfolding decode_token
  decoded token t h = ground arith

  -- What an accepted token has been checked for.
  pub record Accepts (token : Token) (versions : AuthState.Result ℕ) (t : ℕ) (d : Db) (p : Payload)
      : Type 0 where
    pub reads : decode token t ≡ claims p
    pub jti : String
    pub version : ℕ
    pub has_jti : p.jti ≡ some (str jti)
    pub has_version : p.session_version ≡ some (int version)
    pub current : service.has_session_versions ≡ true → versions ≡ AuthState.ok version
    pub unrevoked : service.has_revocations ≡ true → is_revoked client jti t d ≡ false

  abbrev jti_or : Option Claim → String
  jti_or (some (str s)) = s
  jti_or _ = ""

  abbrev version_or : Option Claim → ℕ
  version_or (some (int v)) = v
  version_or _ = 0

  pub validate_token-Accepts :
      (token : Token) (versions : AuthState.Result ℕ) (t : ℕ) (d : Db) (p : Payload)
      → validate_token codec client service token versions t d ≡ ok p
      → Accepts token versions t d p
  unfolding validate_token decode_token
  validate_token-Accepts token versions t d p h = record {
    reads = ground arith;
    jti = jti_or p.jti;
    version = version_or p.session_version;
    has_jti = ground arith;
    has_version = ground arith;
    current = ground arith;
    unrevoked = ground arith;
  }

  -- A token that `encode_token` has just made for a user and an identifier that are not empty is
  -- accepted until its last second, with the claims it was made for, unless it is revoked or the
  -- session version moves.
  pub validate_token-encode_token :
      (user role jti : String) (hours : Option ℕ) (v now t : ℕ) (d : Db) {token : Token}
      → encode_token codec client service user role hours none (AuthState.ok v) jti now ≡ ok token
      → service.has_session_versions ≡ true
      → empty_text user ≡ false
      → empty_text jti ≡ false
      → now ≤ t
      → t < now + or_default hours service.expiry_hours * 3600
      → is_revoked client jti t d ≡ false
      → validate_token codec client service token (AuthState.ok v) t d
        ≡ ok (record {
          sub = some (str user);
          role = role;
          jti = some (str jti);
          session_version = some (int v);
          iat = now;
          exp = some (int (now + or_default hours service.expiry_hours * 3600));
        })
  unfolding encode_token validate_token decode_token
  validate_token-encode_token user role jti hours v now t d made sv hu hj since until free =
      let e = now + or_default hours service.expiry_hours * 3600 in
      let p : Payload = record {
        sub = some (str user);
        role = role;
        jti = some (str jti);
        session_version = some (int v);
        iat = now;
        exp = some (int e);
      } in
      ground (arith, decode-encode p e t refl since until)

  -- The entry that a revocation writes lives as long as the token.
  is_revoked-revoke :
      (jti : String) (e t₀ t : ℕ) (d d' : Db)
      → lookup d' (revoked_token jti) ≡ lookup (revoke client jti e t₀ d) (revoked_token jti)
      → t < e
      → is_revoked client jti t d' ≡ true
  unfolding is_revoked revoke
  is_revoked-revoke jti e t₀ t d d' kept h =
      let k = revoked_token jti in
      ground (arith, lookup-setex k k (max 1 (e - t₀)) (count 1) t₀ d, key_eq_refl k)

  -- A revoked token is refused for good: in any later store that still has the entry which the
  -- revocation wrote, whatever the session version, and past its expiry too.
  pub validate_token-revoke_token :
      (token : Token) (jti : String) (e t₀ t : ℕ) (versions : AuthState.Result ℕ) (d d₁ d' : Db)
      (q p : Payload)
      → service.has_revocations ≡ true
      → decode token t₀ ≡ claims q
      → q.jti ≡ some (str jti)
      → q.exp ≡ some (int e)
      → revoke_token codec client service token t₀ d ≡ ok d₁
      → lookup d' (revoked_token jti) ≡ lookup d₁ (revoked_token jti)
      → validate_token codec client service token versions t d' ≢ ok p
  unfolding revoke_token decode_token
  validate_token-revoke_token token jti e t₀ t versions d d₁ d' q p hr hq hj he done kept accepted =
      let a : Accepts token versions t d' p =
        validate_token-Accepts token versions t d' p accepted in
      let same : q ≡ p = decode_stable token t₀ t q p hq a.reads in
      let until = decode_expiry token t e p a.reads (ap (λ r. r.exp) (sym same) ∙ he) in
      let written : d₁ ≡ revoke client jti e t₀ d = ground arith in
      let free = a.unrevoked hr in
      let own : jti ≡ a.jti = ground arith in ground (arith, is_revoked-revoke jti e t₀ t d d')

  module _ (numerals : Numerals) (bcrypt : Bcrypt) where
    -- A password change ends every session: a token that was accepted under the settings before
    -- a successful rotation is not accepted under those after it, at any time, in any store.
    pub validate_token-rotate_password :
        (token : Token) (old new salt check_salt : String) (m : Settings) (v t t' : ℕ) (d d' : Db)
        (p q : Payload)
        → service.has_session_versions ≡ true
        → current_session_version numerals bcrypt m ≡ AuthState.ok v
        → (rotate_password numerals bcrypt old new salt check_salt m).0 ≡ AuthState.ok true
        → validate_token codec client service token (current_session_version numerals bcrypt m) t d
          ≡ ok p
        → validate_token codec client service token
            (current_session_version numerals bcrypt
              (rotate_password numerals bcrypt old new salt check_salt m).1)
            t'
            d'
          ≢ ok q
    validate_token-rotate_password token old new salt check_salt m v t t' d d' p q hs hv done before
          after =
        let a : Accepts token (current_session_version numerals bcrypt m) t d p =
          validate_token-Accepts token _ t d p before in
        let m' = (rotate_password numerals bcrypt old new salt check_salt m).1 in
        let b : Accepts token (current_session_version numerals bcrypt m') t' d' q =
          validate_token-Accepts token _ t' d' q after in
        let same : p ≡ q = decode_stable token t t' p q a.reads b.reads in
        let next =
          (rotate_password-succeeds numerals bcrypt old new salt check_salt salt m v hv done).0 in
        let first = a.current hs in
        let second = b.current hs in
        let versions : a.version ≡ b.version =
          ground (arith, ap (λ r. r.session_version) same, a.has_version, b.has_version) in
        ground arith
