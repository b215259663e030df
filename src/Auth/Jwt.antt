-- ===== src/Auth/Jwt.antt =====
-- `JWTService` of app/core/auth/jwt_service.py, over the PyJWT library, the revocation store of
-- `Security` and the session versions of `AuthState`. Times are seconds.
pub mod Sessions
use blacklist.Prelude.{
  ℕ, zero, suc, ◌+◌, ◌*◌, ◌≤◌, ◌<◌, ◌≡◌, Bool, true, false, ◌||◌, not, Option, none, some, String,
  ltb, ◌==◌, if◌then◌else◌, str_eq,
}
use blacklist.Auth.Redis.{Client}
use blacklist.Auth.Security.{is_revoked, revoke}
use blacklist.Auth.AuthState.{empty_text}
use blacklist.Auth.AuthState

-- The value of a claim, as the code tells values apart: `negative` is a number below 0.
pub data Claim : Type 0 where
  str : String → Claim
  int : ℕ → Claim
  negative boolean other : Claim

pub record Payload : Type 0 where
  pub sub : Option Claim
  pub role : String
  pub jti : Option Claim
  pub session_version : Option Claim
  pub iat : ℕ
  pub exp : Option Claim

pub data Decoded : Type 0 where
  claims : Payload → Decoded
  expired_signature invalid_token : Decoded

-- PyJWT with the service's key; the code only passes its tokens on. A token decodes to the claims that were encoded, from the moment
-- of issue to the one before expiry; the claims of a token do not depend on the time, and a token
-- with an expiry is refused from then on.
pub record Codec : Type 1 where
  pub Token : Type 0
  pub encode : Payload → Token
  pub decode : Token → ℕ → Decoded
  pub decode-encode :
      (p : Payload) (e t : ℕ)
      → p.exp ≡ some (int e)
      → p.iat ≤ t
      → t < e
      → decode (encode p) t ≡ claims p
  pub decode_stable :
      (token : Token) (t t' : ℕ) (p q : Payload)
      → decode token t ≡ claims p
      → decode token t' ≡ claims q
      → p ≡ q
  pub decode_expiry :
      (token : Token) (t e : ℕ) (p : Payload)
      → decode token t ≡ claims p
      → p.exp ≡ some (int e)
      → t < e

pub data AuthError : Type 0 where
  token_expired token_invalid missing_subject invalid_subject missing_identifier : AuthError
  missing_session_version token_revoked session_invalidated : AuthError
  no_revocation_service missing_revocation_claims state_unavailable : AuthError

pub data Result {ℓ} (A : Type ℓ) : Type ℓ where
  ok : A → Result A
  err : AuthError → Result A

-- An exception ends the method.
infixl 5 ◌>>=◌ ◌>>◌
abbrev pub ◌>>=◌ {ℓ κ} :
    {Value : Type ℓ} {Next : Type κ} → Result Value → (Value → Result Next) → Result Next
err raised >>= rest = err raised
ok value >>= rest = rest value

abbrev pub ◌>>◌ {κ} : {Next : Type κ} → Result (Unit {0}) → Result Next → Result Next
check >> rest = check >>= λ passed. rest

abbrev pub require : Bool → AuthError → Result (Unit {0})
require true e = ok tt
require false e = err e

-- `raise ValueError` of the constructor is `none`.
pub record JwtService : Type 0 where
  pub has_revocations : Bool
  pub has_session_versions : Bool
  pub expiry_hours : ℕ

unfoldable pub init : String → Bool → Bool → ℕ → Option JwtService
init secret_key has_revocations has_session_versions expiry_hours =
    if empty_text secret_key || ltb expiry_hours 1
    then none
    else some (record {
      has_revocations = has_revocations;
      has_session_versions = has_session_versions;
      expiry_hours = expiry_hours;
    })

unfoldable pub expiry_seconds : JwtService → ℕ
expiry_seconds s = s.expiry_hours * 60 * 60

-- A read of the session version, where an unavailable state is an error.
abbrev pub version_or_error : AuthState.Result ℕ → Result ℕ
version_or_error (AuthState.ok n) = ok n
version_or_error _ = err state_unavailable

abbrev pub chosen_version : Option ℕ → Bool → AuthState.Result ℕ → Result ℕ
chosen_version (some v) has current = ok v
chosen_version none true current = version_or_error current
chosen_version none false current = ok 0

abbrev pub or_default : Option ℕ → ℕ → ℕ
or_default none d = d
or_default (some h) d = h

abbrev pub subject_claim : Option Claim → Result String
subject_claim none = err missing_subject
subject_claim (some (str s)) = if empty_text s then err invalid_subject else ok s
subject_claim (some _) = err invalid_subject

abbrev pub identifier_claim : Option Claim → Result String
identifier_claim (some (str s)) = if empty_text s then err missing_identifier else ok s
identifier_claim _ = err missing_identifier

abbrev pub version_claim : Option Claim → Result ℕ
version_claim (some (int n)) = ok n
version_claim _ = err missing_session_version

-- `isinstance(expires_at, int)`: a truth value is one too, and a negative number ends at once.
abbrev pub expiry_claim : Option Claim → Result ℕ
expiry_claim (some (int n)) = ok n
expiry_claim (some negative) = ok 0
expiry_claim (some boolean) = ok 0
expiry_claim _ = err missing_revocation_claims

abbrev pub revocable_jti : Option Claim → Result String
revocable_jti (some (str s)) = ok s
revocable_jti _ = err missing_revocation_claims

-- The check of the session version reads the state only where the service has one.
abbrev pub check_version : Bool → AuthState.Result ℕ → ℕ → Result (Unit {0})
check_version false current v = ok tt
check_version true (AuthState.ok n) v = require (n == v) session_invalidated
check_version true _ v = err state_unavailable

module _ (codec : Codec) (client : Client) (service : JwtService) where
  open codec use {Token, encode, decode}
  open client use {Db}

  -- `versions` is what `current_session_version(user_id)` returns, `jti` the drawn identifier.
  unfoldable pub encode_token :
      String → String → Option ℕ → Option ℕ → AuthState.Result ℕ → String → ℕ → Result Token
  encode_token user_id role expires_hours session_version versions jti now = do
    version ← chosen_version session_version service.has_session_versions versions
    ok (
        encode (record {
          sub = some (str user_id);
          role = role;
          jti = some (str jti);
          session_version = some (int version);
          iat = now;
          exp = some (int (now + or_default expires_hours service.expiry_hours * 3600));
        }))

  unfoldable pub decode_token : Token → ℕ → Result Payload
  decode_token token now = elim (decode token now) [
    | claims p ↦ ok p
    | expired_signature ↦ err token_expired
    | invalid_token ↦ err token_invalid
  ]

  unfoldable pub validate_token : Token → AuthState.Result ℕ → ℕ → Db → Result Payload
  validate_token token versions now d = do
    payload ← decode_token token now
    subject ← subject_claim payload.sub
    jti ← identifier_claim payload.jti
    version ← version_claim payload.session_version
    require (not service.has_revocations || not (is_revoked client jti now d)) token_revoked
    check_version service.has_session_versions versions version
    ok payload

  unfoldable pub revoke_token : Token → ℕ → Db → Result Db
  revoke_token token now d = do
    require service.has_revocations no_revocation_service
    payload ← decode_token token now
    jti ← revocable_jti payload.jti
    expires_at ← expiry_claim payload.exp
    ok (revoke client jti expires_at now d)
