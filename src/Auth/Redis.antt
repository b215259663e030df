-- ===== src/Auth/Redis.antt =====
-- What app/core/auth/security.py uses of its Redis client: `Client` is that service, with the
-- documented effect of each command on the entry of a key. Times are seconds.
use blacklist.Prelude.{
  ℕ, ◌+◌, ◌≡◌, refl, ap, Bool, true, false, Option, none, some, String, leb, if◌then◌else◌, str_eq,
  eq_iff,
}

-- The keys that the code builds. Their prefixes differ, so two keys are equal only if built alike.
pub data Key : Type 0 where
  login_failures account_failures revoked_token : String → Key

abbrev pub key_eq : Key → Key → Bool
key_eq (login_failures a) (login_failures b) = str_eq a b
key_eq (account_failures a) (account_failures b) = str_eq a b
key_eq (revoked_token a) (revoked_token b) = str_eq a b
key_eq _ _ = false

pub key_eq_refl : (k : Key) → key_eq k k ≡ true
key_eq_refl (login_failures a) = (eq_iff a a).1 refl
key_eq_refl (account_failures a) = (eq_iff a a).1 refl
key_eq_refl (revoked_token a) = (eq_iff a a).1 refl

pub key_eq_sound : (k j : Key) → key_eq k j ≡ true → k ≡ j
key_eq_sound (login_failures a) (login_failures b) h = ap login_failures ((eq_iff a b).0 h)
key_eq_sound (account_failures a) (account_failures b) h = ap account_failures ((eq_iff a b).0 h)
key_eq_sound (revoked_token a) (revoked_token b) h = ap revoked_token ((eq_iff a b).0 h)
key_eq_sound _ _ h = cc

-- A value that Python's `int()` reads, or another text.
pub data Value : Type 0 where
  count : ℕ → Value
  text : String → Value

pub record Entry : Type 0 where
  pub value : Value
  pub deadline : Option ℕ

abbrev pub expired : ℕ → Option ℕ → Bool
expired now none = false
expired now (some deadline) = leb deadline now

-- An entry past its deadline is gone.
abbrev pub live : ℕ → Option Entry → Option Entry
live now none = none
live now (some e) = if expired now e.deadline then none else some e

-- INCR starts at 1, keeps the deadline, and refuses a value that is no number.
abbrev pub incremented : Option Entry → Option Entry
incremented none = some (record { value = count 1; deadline = none })
incremented (some e) = elim e.value [
  | count n ↦ some (record e { value = count (n + 1) })
  | text s ↦ some e
]

abbrev pub incr_reply : Option Entry → Option ℕ
incr_reply none = some 1
incr_reply (some e) = elim e.value [ count n ↦ some (n + 1) | text s ↦ none ]

-- EXPIRE does nothing where there is no entry.
abbrev pub with_deadline : ℕ → Option Entry → Option Entry
with_deadline deadline none = none
with_deadline deadline (some e) = some (record e { deadline = some deadline })

pub record Client : Type 1 where
  pub Db : Type 0
  pub lookup : Db → Key → Option Entry
  pub incr : Key → ℕ → Db → Option ℕ × Db
  pub expire : Key → ℕ → ℕ → Db → Db
  pub delete : Key → Db → Db
  pub setex : Key → ℕ → Value → ℕ → Db → Db
  pub reply-incr : (k : Key) (t : ℕ) (d : Db) → (incr k t d).0 ≡ incr_reply (live t (lookup d k))
  pub lookup-incr :
      (k j : Key) (t : ℕ) (d : Db)
      → lookup (incr k t d).1 j
        ≡ (if key_eq k j then incremented (live t (lookup d k)) else lookup d j)
  pub lookup-expire :
      (k j : Key) (s t : ℕ) (d : Db)
      → lookup (expire k s t d) j
        ≡ (if key_eq k j then with_deadline (t + s) (live t (lookup d k)) else lookup d j)
  pub lookup-delete :
      (k j : Key) (d : Db) → lookup (delete k d) j ≡ (if key_eq k j then none else lookup d j)
  pub lookup-setex :
      (k j : Key) (s : ℕ) (v : Value) (t : ℕ) (d : Db)
      → lookup (setex k s v t d) j
        ≡ (if key_eq k j then some (record { value = v; deadline = some (t + s) }) else lookup d j)
