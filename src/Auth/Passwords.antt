-- ===== src/Auth/Passwords.antt =====
-- `hash_password` and `verify_password` of app/core/auth/security.py, over the bcrypt library.
-- A salt is an argument, as `bcrypt.gensalt()` draws it.
use Prim.Native.String.{len, count}
use text.Mathlib.Text.{starts_with}
use blacklist.Prelude.{
  ℕ, ◌≤◌, ◌≡◌, Bool, true, false, ◌||◌, Option, none, some, String, arith, ltb, if◌then◌else◌,
}

abbrev pub min_password_length : ℕ
min_password_length = 12

abbrev pub max_password_bytes : ℕ
max_password_bytes = 72

-- bcrypt, on texts as their UTF-8 bytes; `prefix n s` is `s` cut after `n` bytes. `checkpw` may
-- raise ValueError. A hash that bcrypt makes begins with its version, and checks its password.
pub record Bcrypt : Type 0 where
  pub hashpw : String → String → String
  pub checkpw : String → String → Option Bool
  pub prefix : ℕ → String → String
  pub hashpw_version : (s salt : String) → starts_with (hashpw s salt) "$2b$" ≡ true
  pub checkpw-hashpw : (s salt : String) → checkpw s (hashpw s salt) ≡ some true
  pub prefix_all : (n : ℕ) (s : String) → len s ≤ n → prefix n s ≡ s

abbrev is_hash : String → Bool
is_hash s = starts_with s "$2a$" || (starts_with s "$2b$" || starts_with s "$2y$")

abbrev or_false : Option Bool → Bool
or_false none = false
or_false (some b) = b

module _ (bcrypt : Bcrypt) where
  open bcrypt use {hashpw, checkpw, prefix, hashpw_version, checkpw-hashpw, prefix_all}

  -- `none` is a raised PasswordPolicyError.
  unfoldable pub hash_password : String → String → Option String
  hash_password password salt =
      if ltb (count password) min_password_length || ltb max_password_bytes (len password)
      then none
      else some (hashpw password salt)

  unfoldable pub verify_password : String → String → String → Bool × Option String
  verify_password candidate configured salt =
      let upgraded = hashpw (prefix max_password_bytes configured) salt in
      if ltb max_password_bytes (len candidate)
      then (false, none)
      else (if is_hash configured
          then (or_false (checkpw candidate configured), none)
          else (or_false (checkpw candidate upgraded), some upgraded))

  -- A password that the policy accepts is verified against its own hash.
  pub verify_password-hash_password :
      (password salt salt' : String) {hash : String}
      → hash_password password salt ≡ some hash
      → verify_password password hash salt' ≡ (true, none)
  unfolding hash_password verify_password
  verify_password-hash_password password salt salt' h =
      ground (arith, hashpw_version password salt, checkpw-hashpw password salt)

  -- A plaintext password of old, of at most 72 bytes, is still verified, and comes back with a
  -- hash to put in its place, against which it is verified from then on.
  pub verify_password_upgrade :
      (password salt salt' : String)
      → is_hash password ≡ false
      → len password ≤ max_password_bytes
      → (verify_password password password salt ≡ (true, some (hashpw password salt)))
        × (verify_password password (hashpw password salt) salt' ≡ (true, none))
  unfolding verify_password
  verify_password_upgrade password salt salt' h fits = ground (
    arith,
    prefix_all max_password_bytes password fits,
    hashpw_version password salt,
    checkpw-hashpw password salt,
  )
