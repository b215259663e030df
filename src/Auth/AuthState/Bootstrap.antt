-- ===== src/Auth/AuthState/Bootstrap.antt =====
-- `get_credentials` of app/core/services/auth_state_service.py stores the defaults once.
use text.Mathlib.Text.{starts_with}
use blacklist.Prelude.{
  Bool-cases, ◌&&◌, ◌≡◌, refl, inl, inr, Bool, true, false, not, Option, none, some, String, arith,
  if◌then◌else◌, eq_iff, Option-cases, ◌∙◌,
}
use blacklist.Prelude.Int.{ℤ, pos, Numerals}
use blacklist.Auth.Passwords.{Bcrypt, hash_password}
use blacklist.Auth.AuthState.{
  AdminCredentials, Settings, Result, ok, unavailable, policy, username_key, password_key,
  session_version_key, upsert, select, or_text, empty_text, is_missing, finish_credentials,
  default_hash, get_credentials,
}
use blacklist.Auth.AuthState.Rotation.{select-upsert}

no_version : (s : String) → starts_with s "$2b$" ≡ true → s ≡ "" → ⊥
no_version s h e = let h' : starts_with "" "$2b$" ≡ true = rw e at h in cc

abbrev with_name : String → Settings → Settings
with_name name m =
    if is_missing (select username_key m) && not (empty_text name)
    then upsert username_key (or_text (select username_key m) name) "string" m
    else m

module _ (numerals : Numerals) (bcrypt : Bcrypt) where
  open numerals use {int_of, int_of_zero, int_of_one}

  -- With all three settings stored, a call returns them, whatever the defaults, and writes nothing.
  pub get_credentials_stored :
      (name password salt u hash v : String) (z : ℤ) (m : Settings)
      → select username_key m ≡ some u
      → select password_key m ≡ some hash
      → select session_version_key m ≡ some v
      → empty_text u ≡ false
      → empty_text hash ≡ false
      → int_of v ≡ some z
      → get_credentials numerals bcrypt name password salt m
        ≡ (ok (record { username = u; password_hash = hash; session_version = z }), m)
  unfolding get_credentials finish_credentials
  get_credentials_stored name password salt u hash v z m hu hh hv nu nh hz = ground arith

  -- What the next call will read.
  abbrev IsStored : Result AdminCredentials × Settings → Type 0
  IsStored (ok c, m) =
      (select username_key m ≡ some c.username)
      × (select password_key m ≡ some c.password_hash)
      × ((v : String) × (select session_version_key m ≡ some v)
          × (int_of v ≡ some c.session_version))
  IsStored (_, m) = Unit {0}

  created :
      (u hash : String) (changed : Bool) (work m : Settings)
      → empty_text u ≡ false
      → empty_text hash ≡ false
      → finish_credentials numerals bcrypt u hash none changed work m ≡ (
        ok (record { username = u; password_hash = hash; session_version = pos 1 }),
        upsert session_version_key "1" "integer" work,
      )
  unfolding finish_credentials
  created u hash changed work m nu nh = ground (arith, int_of_one)

  found :
      (u hash v : String) (z : ℤ) (changed : Bool) (work m : Settings)
      → int_of v ≡ some z
      → (changed ≡ false → work ≡ m)
      → finish_credentials numerals bcrypt u hash (some v) changed work m
        ≡ (ok (record { username = u; password_hash = hash; session_version = z }), work)
  unfolding finish_credentials
  found u hash v z true work m e same = ground arith
  found u hash v z false work m e same = ground (arith, same refl)

  unreadable :
      (u hash v : String) (changed : Bool) (work m : Settings)
      → int_of v ≡ none
      → (changed ≡ false → work ≡ m)
      → finish_credentials numerals bcrypt u hash (some v) changed work m ≡ (unavailable, work)
  unfolding finish_credentials
  unreadable u hash v true work m e same = ground arith
  unreadable u hash v false work m e same = ground (arith, same refl)

  finish_credentials-IsStored :
      (u hash : String) (version : Option String) (changed : Bool) (work m : Settings)
      → select username_key work ≡ some u
      → select password_key work ≡ some hash
      → select session_version_key work ≡ version
      → empty_text u ≡ false
      → empty_text hash ≡ false
      → (changed ≡ false → work ≡ m)
      → IsStored (finish_credentials numerals bcrypt u hash version changed work m)
  finish_credentials-IsStored u hash none changed work m hu hh hv nu nh same =
      rw (created u hash changed work m nu nh) (
        ground (arith, select-upsert session_version_key username_key "1" "integer" work),
        ground (arith, select-upsert session_version_key password_key "1" "integer" work),
        (
          "1",
          ground (arith, select-upsert session_version_key session_version_key "1" "integer" work),
          int_of_one,
        ),
      )
  finish_credentials-IsStored u hash (some v) changed work m hu hh hv nu nh same =
      elim (Option-cases (int_of v)) [
        | inl bad ↦ rw (unreadable u hash v changed work m bad same) tt
        | inr (z, read) ↦ rw (found u hash v z changed work m read same) (hu, hh, (v, hv, read))
      ]

  made_hash :
      (password salt : String) {hash : String}
      → hash_password bcrypt password salt ≡ some hash
      → empty_text hash ≡ false
  unfolding hash_password
  made_hash password salt {hash} made = elim (Bool-cases (empty_text hash)) [
    | inl e ↦ absurd (
        no_version hash (ground (arith, bcrypt.hashpw_version password salt))
          ((eq_iff hash "").0 e))
    | inr e ↦ e
  ]

  -- The table after the user name is settled.
  name_stored :
      (name : String) (m : Settings)
      → empty_text name ≡ false
      → (select username_key (with_name name m) ≡ some (or_text (select username_key m) name))
        × (select password_key (with_name name m) ≡ select password_key m)
        × (select session_version_key (with_name name m) ≡ select session_version_key m)
        × (empty_text (or_text (select username_key m) name) ≡ false)
        × (is_missing (select username_key m) ≡ false → with_name name m ≡ m)
  name_stored name m nn =
      let u = or_text (select username_key m) name in
      ground (
        arith,
        select-upsert username_key username_key u "string" m,
        select-upsert username_key password_key u "string" m,
        select-upsert username_key session_version_key u "string" m,
      )

  with_default_hash :
      (name password salt hash : String) (m : Settings)
      → is_missing (select password_key m) ≡ true
      → empty_text password ≡ false
      → hash_password bcrypt password salt ≡ some hash
      → get_credentials numerals bcrypt name password salt m
        ≡ finish_credentials numerals bcrypt
            (or_text (select username_key m) name)
            hash
            (select session_version_key m)
            true
            (upsert password_key hash "password" (with_name name m))
            m
  unfolding get_credentials default_hash
  with_default_hash name password salt hash m h np made =
      ground (arith, made_hash password salt made)

  with_stored_hash :
      (name password salt : String) (m : Settings)
      → is_missing (select password_key m) ≡ false
      → get_credentials numerals bcrypt name password salt m
        ≡ finish_credentials numerals bcrypt
            (or_text (select username_key m) name)
            (or_text (select password_key m) "")
            (select session_version_key m)
            (is_missing (select username_key m) && not (empty_text name))
            (with_name name m)
            m
  unfolding get_credentials
  with_stored_hash name password salt m h = rw h refl

  refused :
      (name password salt : String) (m : Settings)
      → is_missing (select password_key m) ≡ true
      → empty_text password ≡ false
      → hash_password bcrypt password salt ≡ none
      → get_credentials numerals bcrypt name password salt m ≡ (policy, m)
  unfolding get_credentials default_hash
  refused name password salt m h np made = ground arith

  present :
      (o : Option String)
      → is_missing o ≡ false
      → (o ≡ some (or_text o "")) × (empty_text (or_text o "") ≡ false)
  present none h = cc
  present (some s) h = ground arith

  -- With a default name and password, a call that returns credentials leaves them in the table,
  -- with the session version, whatever of them it found there.
  get_credentials-IsStored :
      (name password salt : String) (m : Settings)
      → empty_text name ≡ false
      → empty_text password ≡ false
      → IsStored (get_credentials numerals bcrypt name password salt m)
  get_credentials-IsStored name password salt m nn np =
      let u = or_text (select username_key m) name in
      let (hu, hh, hv, nu, same) = name_stored name m nn in
      elim (Bool-cases (is_missing (select password_key m))) [
        | inl lacks ↦ elim (Option-cases (hash_password bcrypt password salt)) [
          | inl weak ↦ rw (refused name password salt m lacks np weak) tt
          | inr (hash, made) ↦
              let work = with_name name m in
              rw (with_default_hash name password salt hash m lacks np made) (
                finish_credentials-IsStored u hash (select session_version_key m) true
                  (upsert password_key hash "password" work) m
                  (ground (arith, select-upsert password_key username_key hash "password" work))
                  (ground (arith, select-upsert password_key password_key hash "password" work))
                  (ground
                    (arith, select-upsert password_key session_version_key hash "password" work))
                  nu (made_hash password salt made) (λ e. cc))
        ]
        | inr has ↦
            let (stored, nh) = present (select password_key m) has in
            rw (with_stored_hash name password salt m has) (
              finish_credentials-IsStored u (or_text (select password_key m) "")
                (select session_version_key m) _ (with_name name m) m hu (hh ∙ stored) hv nu nh
                (λ e. same (ground arith)))
      ]

  -- After a call with defaults that returns a user name and a hash, the next call, with any
  -- defaults, returns the same credentials and writes nothing: the defaults count once.
  pub get_credentials_twice :
      (name password salt name' password' salt' : String) (m m' : Settings) (c : AdminCredentials)
      → empty_text name ≡ false
      → empty_text password ≡ false
      → get_credentials numerals bcrypt name password salt m ≡ (ok c, m')
      → empty_text c.username ≡ false
      → empty_text c.password_hash ≡ false
      → get_credentials numerals bcrypt name' password' salt' m' ≡ (ok c, m')
  get_credentials_twice name password salt name' password' salt' m m' c nn np h nu nh =
      let s : IsStored (ok c, m') = rw h at (get_credentials-IsStored name password salt m nn np) in
      get_credentials_stored name' password' salt' c.username c.password_hash s.2.0
        c.session_version m' s.0 s.1 s.2.1 nu nh s.2.2
