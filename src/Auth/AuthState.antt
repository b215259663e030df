-- ===== src/Auth/AuthState.antt =====
-- `AuthStateService` of app/core/services/auth_state_service.py. A transaction of PostgreSQL works
-- on a copy of the table; `connection_lease` rolls back what has not been committed, so a call
-- returns the table as the last `commit` left it. A raised error is an outcome.
pub mod Rotation
pub mod Bootstrap
use blacklist.Prelude.{
  ℕ, zero, suc, ◌+◌, Bool, true, false, ◌&&◌, ◌||◌, not, Option, none, some, String, List, ◌==◌,
  if◌then◌else◌, str_eq,
}
use blacklist.Prelude.Dict.{lookup, insert}
pub use blacklist.Prelude.Python.{empty_text, or_text}
use blacklist.Prelude.Int.{ℤ, pos, negsuc, successor, Numerals}
use blacklist.Auth.Passwords.{Bcrypt, hash_password, verify_password}

-- A row of `system_settings`, by its `setting_key`.
pub record Setting : Type 0 where
  pub setting_value : String
  pub setting_type : String
  pub is_active : Bool

abbrev pub Settings : Type 0
Settings = List (String × Setting)

abbrev pub username_key : String
username_key = "admin_username"

abbrev pub password_key : String
password_key = "admin_password"

abbrev pub session_version_key : String
session_version_key = "admin_session_version"

pub record AdminCredentials : Type 0 where
  pub username : String
  pub password_hash : String
  pub session_version : ℤ

pub data Result {ℓ} (A : Type ℓ) : Type ℓ where
  ok : A → Result A
  unavailable : Result A
  policy : Result A

-- INSERT ... ON CONFLICT (setting_key) DO UPDATE
unfoldable pub upsert : String → String → String → Settings → Settings
upsert key value setting_type =
    insert key (record { setting_value = value; setting_type = setting_type; is_active = true })

abbrev active_value : Option Setting → Option String
active_value none = none
active_value (some s) = if s.is_active then some s.setting_value else none

-- SELECT setting_value ... WHERE setting_key = key AND is_active = true
unfoldable pub select : String → Settings → Option String
select key m = active_value (lookup key m)

abbrev is_missing : Option String → Bool
is_missing none = true
is_missing (some s) = empty_text s

abbrev has_none : Option String → Bool
has_none none = true
has_none (some s) = false

abbrev or_zero : Option String → String
or_zero none = "0"
or_zero (some s) = s

-- A read whose negative or unreadable value is an error.
abbrev as_version : Option ℤ → Result ℕ
as_version none = unavailable
as_version (some (pos n)) = ok n
as_version (some (negsuc n)) = unavailable

abbrev read_version : (String → Option ℤ) → Option String → Result ℕ
read_version int_of none = ok 0
read_version int_of (some s) = as_version (int_of s)

module _ (numerals : Numerals) (bcrypt : Bcrypt) where
  open numerals use {int_of, str_of}

  unfoldable pub current_session_version : Settings → Result ℕ
  current_session_version m = read_version int_of (select session_version_key m)

  -- `hash_password(default_password) if default_password else ""`
  unfoldable pub default_hash : String → String → Option String
  default_hash password salt =
      if empty_text password then some "" else hash_password bcrypt password salt

  -- The rest of `get_credentials` once user name and hash are known: `stored` are the values that
  -- the transaction read, `work` its copy of the table, and `changed` says whether to commit it.
  unfoldable pub finish_credentials :
      String
      → String
      → Option String
      → Bool
      → Settings
      → Settings
      → Result AdminCredentials × Settings
  finish_credentials username hash version changed work m =
      let create = not (empty_text username) && (not (empty_text hash) && has_none version) in
      let version' = if create then "1" else or_zero version in
      let work' = if create then upsert session_version_key "1" "integer" work else work in
      let after = if create || changed then work' else m in
      elim (int_of version') [
        | none ↦ (unavailable, after)
        | some v ↦
            (ok (record { username = username; password_hash = hash; session_version = v }), after)
      ]

  unfoldable pub get_credentials :
      String → String → String → Settings → Result AdminCredentials × Settings
  get_credentials default_username default_password salt m =
      let stored_name = select username_key m in
      let stored_hash = select password_key m in
      let username = or_text stored_name default_username in
      let named = is_missing stored_name && not (empty_text default_username) in
      let work = if named then upsert username_key username "string" m else m in
      let version = select session_version_key m in
      let made = default_hash default_password salt in
      if is_missing stored_hash
      then elim made [
        | none ↦ (policy, m)
        | some hash ↦
            if empty_text hash
            then finish_credentials username hash version named work m
            else finish_credentials username hash version true
                (upsert password_key hash "password" work) m
      ]
      else finish_credentials username (or_text stored_hash "") version named work m

  -- `cursor.rowcount == 1`: the key is unique, so one row changes or none.
  unfoldable pub upgrade_password_hash : String → String → Settings → Bool × Settings
  upgrade_password_hash expected_password replacement_hash m = elim (lookup password_key m) [
    | none ↦ (false, m)
    | some s ↦
        if s.is_active && str_eq s.setting_value expected_password
        then (true, insert password_key (record s { setting_value = replacement_hash }) m)
        else (false, m)
  ]

  -- The transaction of `rotate_password` after its password check.
  unfoldable pub write_rotation : String → Option ℤ → Settings → Result Bool × Settings
  write_rotation hash none m = (unavailable, m)
  write_rotation hash (some v) m = (
    ok true,
    upsert session_version_key (str_of (successor v)) "integer"
        (upsert password_key hash "password" m),
  )

  unfoldable pub rotate_password :
      String → String → String → String → Settings → Result Bool × Settings
  rotate_password current_password new_password salt check_salt m =
      elim (hash_password bcrypt new_password salt) [
        | none ↦ (policy, m)
        | some hash ↦
            let configured = or_text (select password_key m) "" in
            if empty_text configured
              || not (verify_password bcrypt current_password configured check_salt).0
            then (ok false, m)
            else write_rotation hash (int_of (or_zero (select session_version_key m))) m
      ]
