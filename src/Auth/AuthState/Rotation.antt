-- ===== src/Auth/AuthState/Rotation.antt =====
-- What `rotate_password` and `upgrade_password_hash` leave behind
-- (app/core/services/auth_state_service.py).
use blacklist.Prelude.{
  ℕ, suc, ◌≡◌, ◌≢◌, inl, inr, true, none, some, String, arith, if◌then◌else◌, str_eq, Option-cases,
  ap, ◌∙◌,
}
use blacklist.Prelude.Dict.{lookup-insert}
use blacklist.Prelude.Int.{pos, Numerals}
use blacklist.Auth.Passwords.{Bcrypt, hash_password, verify_password, verify_password-hash_password}
use blacklist.Auth.AuthState.{
  Settings, ok, password_key, session_version_key, upsert, select, or_zero, current_session_version,
  write_rotation, rotate_password,
}

pub select-upsert :
    (k j v t : String) (m : Settings)
    → select j (upsert k v t m) ≡ (if str_eq k j then some v else select j m)
unfolding select upsert
select-upsert k j v t m =
    ground (
      arith,
      lookup-insert k j (record { setting_value = v; setting_type = t; is_active = true }) m,
    )

module _ (numerals : Numerals) (bcrypt : Bcrypt) where
  open numerals use {int_of, str_of, int_of-str_of, int_of_zero}

  -- A stored version that is read is the number whose successor is written.
  version_read :
      (m : Settings) (n : ℕ)
      → current_session_version numerals bcrypt m ≡ ok n
      → int_of (or_zero (select session_version_key m)) ≡ some (pos n)
  unfolding current_session_version
  version_read m n h = ground (arith, int_of_zero)

  write_rotation-reads :
      (hash : String) (n : ℕ) (m : Settings)
      → (current_session_version numerals bcrypt
            (write_rotation numerals bcrypt hash (some (pos n)) m).1
          ≡ ok (suc n))
        × (select password_key (write_rotation numerals bcrypt hash (some (pos n)) m).1 ≡ some hash)
  unfolding write_rotation current_session_version
  write_rotation-reads hash n m =
      let m₁ = upsert password_key hash "password" m in
      let v = str_of (pos (suc n)) in
      ground (
        arith,
        select-upsert session_version_key session_version_key v "integer" m₁,
        select-upsert session_version_key password_key v "integer" m₁,
        select-upsert password_key password_key hash "password" m,
        int_of-str_of (pos (suc n)),
      )

  -- A password change that succeeds, where the session version is readable: the version that
  -- sessions are checked against goes up by one, and the new password is verified against the
  -- stored hash.
  pub rotate_password-succeeds :
      (old new salt check_salt later_salt : String) (m : Settings) (n : ℕ)
      → current_session_version numerals bcrypt m ≡ ok n
      → (rotate_password numerals bcrypt old new salt check_salt m).0 ≡ ok true
      → (current_session_version numerals bcrypt
            (rotate_password numerals bcrypt old new salt check_salt m).1
          ≡ ok (suc n))
        × (hash : String) × (select password_key
              (rotate_password numerals bcrypt old new salt check_salt m).1
            ≡ some hash)
        × (verify_password bcrypt new hash later_salt ≡ (true, none))
  unfolding rotate_password
  rotate_password-succeeds old new salt check_salt later_salt m n h done =
      elim (Option-cases (hash_password bcrypt new salt)) [
        | inl refused ↦ absurd (ground arith)
        | inr (hash, made) ↦
            let written = write_rotation numerals bcrypt hash (some (pos n)) m in
            let end : (rotate_password numerals bcrypt old new salt check_salt m).1 ≡ written.1 =
              ground (arith, version_read m n h) in
            let (version, stored) = write_rotation-reads hash n m in
            (
              ap (current_session_version numerals bcrypt) end ∙ version,
              hash,
              ap (select password_key) end ∙ stored,
              verify_password-hash_password bcrypt new salt later_salt made,
            )
      ]

  -- A password change that does not succeed (a wrong password, one that the policy refuses, a
  -- stored version that is no number) leaves the table as it was.
  pub rotate_password-unchanged :
      (old new salt check_salt : String) (m : Settings)
      → (rotate_password numerals bcrypt old new salt check_salt m).0 ≢ ok true
      → (rotate_password numerals bcrypt old new salt check_salt m).1 ≡ m
  unfolding rotate_password write_rotation
  rotate_password-unchanged old new salt check_salt m h = ground arith
