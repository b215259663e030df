-- ===== src/Auth/Tests.antt =====
-- The properties of authentication on concrete services and settings.
use blacklist.Prelude.{
  ℕ, ◌≡◌, ◌≢◌, refl, Bool, List, ◌||◌, leb, true, false, Option, none, some, String, [], ◌∷◌, arith,
  if◌then◌else◌,
}
use blacklist.Prelude.Int.{pos}
use blacklist.Prelude.Dict.{lookup, insert}
use blacklist.Auth.Redis.{Key, revoked_token, key_eq, count, Entry, live}
use blacklist.Auth.Security.{
  answer, is_login_locked, is_revoked, revoke, over_limit, login_key, login_failure_limit,
}
use blacklist.Auth.Security.Counters.{IsCounted, absent}
use blacklist.Auth.Security.Lockout.{record_all, all_recorded, is_login_locked-record_all}
use blacklist.Auth.Passwords.{hash_password, verify_password}
use blacklist.Auth.AuthState.{
  Setting, Settings, AdminCredentials, password_key, upsert, select, current_session_version,
  default_hash, finish_credentials, get_credentials, write_rotation, rotate_password,
}
use blacklist.Auth.AuthState
use blacklist.Auth.AuthState.Rotation.{rotate_password-succeeds}
use blacklist.Auth.Jwt.{
  Claim, str, int, negative, boolean, other, Payload, Decoded, claims, expired_signature,
  invalid_token, Codec, JwtService, encode_token, decode_token, validate_token, revoke_token,
}
use blacklist.Auth.Jwt
use blacklist.Auth.Jwt.Sessions.{
  validate_token-encode_token, validate_token-revoke_token, validate_token-rotate_password,
}
use blacklist.Auth.Services.{unary, redis, plain_hash, bare}

abbrev empty : Key → Option Entry
empty k = none

empty-IsCounted : IsCounted redis empty
empty-IsCounted = record { logins = λ s. absent; accounts = λ s. absent }

-- Five failures from two addresses, the last one four minutes after the first.
abbrev five_failures : List (String × ℕ)
five_failures =
    ("10.0.0.1", 1_000)
    ∷ ("10.0.0.2", 1_060)
    ∷ ("10.0.0.1", 1_120)
    ∷ ("10.0.0.2", 1_180)
    ∷ ("10.0.0.1", 1_240)
    ∷ []

is_login_locked-record_all_example :
    (all_recorded redis (λ s. s) (λ s. s) "admin" five_failures empty ≡ true)
    × (own : Bool) × (over_limit (
          live 1_500 (
            redis.lookup
              (record_all redis (λ s. s) (λ s. s) "admin" five_failures empty)
              (login_key redis (λ s. s) (λ s. s) "admin" "10.0.0.3")))
        ≡ answer own)
    × (is_login_locked redis
          (λ s. s)
          (λ s. s)
          "admin"
          "10.0.0.3"
          1_500
          (record_all redis (λ s. s) (λ s. s) "admin" five_failures empty)
        ≡ answer (leb login_failure_limit 5 || own))
is_login_locked-record_all_example =
    is_login_locked-record_all redis (λ s. s) (λ s. s) "admin" "10.0.0.1" 1_000
      (("10.0.0.2", 1_060) ∷ ("10.0.0.1", 1_120) ∷ ("10.0.0.2", 1_180) ∷ ("10.0.0.1", 1_240) ∷ [])
      "10.0.0.3" 1_500 empty empty-IsCounted refl
      (omega arith, (omega arith, (omega arith, (omega arith, tt)))) (omega arith)

hashed : hash_password plain_hash "correct horse" "salt" ≡ some "$2b$correct horse"
unfolding hash_password
hashed = refl

abbrev setting : String → String → Setting
setting value kind = record { setting_value = value; setting_type = kind; is_active = true }

abbrev settings : Settings
settings =
    ("admin_username", setting "admin" "string")
    ∷ ("admin_password", setting "$2b$correct horse" "password")
    ∷ ("admin_session_version", setting "1" "integer")
    ∷ []

version_one : current_session_version unary plain_hash settings ≡ AuthState.ok 1
unfolding current_session_version select lookup
version_one = refl

rotated :
    (rotate_password unary plain_hash "correct horse" "battery staple" "salt" "check" settings).0
    ≡ AuthState.ok true
unfolding rotate_password write_rotation hash_password verify_password select lookup
rotated = refl

rotate_password-succeeds_example :
    (current_session_version unary plain_hash
        (rotate_password unary plain_hash "correct horse" "battery staple" "salt" "check"
          settings).1
      ≡ AuthState.ok 2)
    × (hash : String) × (select password_key
          (rotate_password unary plain_hash "correct horse" "battery staple" "salt" "check"
            settings).1
        ≡ some hash)
    × (verify_password plain_hash "battery staple" hash "later" ≡ (true, none))
rotate_password-succeeds_example =
    rotate_password-succeeds unary plain_hash "correct horse" "battery staple" "salt" "check"
      "later" settings 1 version_one rotated

refused :
    (rotate_password unary plain_hash "wrong" "battery staple" "salt" "check" settings).0
    ≢ AuthState.ok true
unfolding rotate_password write_rotation hash_password verify_password select lookup
refused h = ground arith

abbrev first_credentials : AdminCredentials
first_credentials = record {
  username = "admin";
  password_hash = "$2b$correct horse";
  session_version = pos 1;
}

created :
    get_credentials unary plain_hash "admin" "correct horse" "salt" []
    ≡ (AuthState.ok first_credentials, settings)
unfolding get_credentials finish_credentials default_hash hash_password select lookup upsert insert
created = refl

abbrev service : JwtService
service = record { has_revocations = true; has_session_versions = true; expiry_hours = 24 }

abbrev token : Payload
token = record {
  sub = some (str "admin");
  role = "admin";
  jti = some (str "id-1");
  session_version = some (int 1);
  iat = 1_000;
  exp = some (int 87_400);
}

encoded :
    encode_token bare redis service "admin" "admin" none none (AuthState.ok 1) "id-1" 1_000
    ≡ Jwt.ok token
unfolding encode_token
encoded = refl

unrevoked : is_revoked redis "id-1" 2_000 empty ≡ false
unfolding is_revoked
unrevoked = refl

validate_token-encode_token_example :
    validate_token bare redis service token (AuthState.ok 1) 2_000 empty ≡ Jwt.ok token
validate_token-encode_token_example =
    validate_token-encode_token bare redis service "admin" "admin" "id-1" none 1 1_000 2_000 empty
      encoded refl refl refl (omega arith) (omega arith) unrevoked

abbrev revoked_store : Key → Option Entry
revoked_store j =
    if key_eq (revoked_token "id-1") j
    then some (record { value = count 1; deadline = some 87_400 })
    else none

revoked : revoke_token bare redis service token 3_000 empty ≡ Jwt.ok revoked_store
unfolding revoke_token revoke decode_token
revoked = refl

validate_token-revoke_token_example :
    validate_token bare redis service token (AuthState.ok 1) 4_000 revoked_store ≢ Jwt.ok token
validate_token-revoke_token_example =
    validate_token-revoke_token bare redis service token "id-1" 87_400 3_000 4_000 (AuthState.ok 1)
      empty revoked_store revoked_store token token refl refl refl refl revoked refl

accepted :
    validate_token bare redis service token
      (current_session_version unary plain_hash settings)
      2_000
      empty
    ≡ Jwt.ok token
unfolding validate_token decode_token is_revoked current_session_version select lookup
accepted = refl

validate_token-rotate_password_example :
    validate_token bare redis service token
      (current_session_version unary plain_hash
        (rotate_password unary plain_hash "correct horse" "battery staple" "salt" "check"
          settings).1)
      2_500
      empty
    ≢ Jwt.ok token
validate_token-rotate_password_example =
    validate_token-rotate_password bare redis service unary plain_hash token "correct horse"
      "battery staple" "salt" "check" settings 1 2_000 2_500 empty empty token token refl
      version_one rotated accepted
