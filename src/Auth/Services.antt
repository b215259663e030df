-- ===== src/Auth/Services.antt =====
-- Concrete services that satisfy the laws of Redis, bcrypt, PyJWT and the numerals.
use Prim.Native.String.{◌++◌, len}
use text.Mathlib.TextPositions.{starts_with-append, len-append}
use blacklist.Prelude.{
  ℕ, zero, suc, ◌+◌, ◌-◌, ◌*◌, ◌/◌, ◌%◌, ◌≤◌, ◌<◌, ◌≡◌, refl, ap, sym, ◌∙◌, false, Option, none,
  some, String, arith, ltb, leb, ◌==◌, str_eq, eq_iff, if◌then◌else◌,
}
use blacklist.Prelude.Int.{ℤ, pos, negsuc, Numerals}
use blacklist.Auth.Redis.{Key, key_eq, Entry, live, incremented, incr_reply, with_deadline, Client}
use blacklist.Auth.Passwords.{Bcrypt}
use blacklist.Auth.Jwt.{
  Claim, str, int, negative, boolean, other, Payload, Decoded, claims, expired_signature,
  invalid_token, Codec,
}

abbrev ones : ℕ → String
ones zero = ""
ones (suc n) = "1" ++ ones n

pub len-ones : (n : ℕ) → len (ones n) ≡ n
len-ones zero = refl
len-ones (suc n) = omega (arith, len-append "1" (ones n), len-ones n)

-- A number as a text: 0 and 1 as they are, and the others by a length.
abbrev str_of : ℤ → String
str_of (pos zero) = "0"
str_of (pos (suc zero)) = "1"
str_of (pos (suc (suc n))) = ones (2 * n + 2)
str_of (negsuc n) = ones (2 * n + 3)

abbrev of_length : ℕ → ℤ
of_length m = if m % 2 == 0 then pos (m / 2 + 1) else negsuc ((m - 3) / 2)

abbrev int_of : String → Option ℤ
int_of s =
    if str_eq s "0"
    then some (pos 0)
    else (if str_eq s "1" then some (pos 1) else some (of_length (len s)))

pub int_of-long : (s : String) → 2 ≤ len s → int_of s ≡ some (of_length (len s))
int_of-long s h = ground (arith, differs "0" refl, differs "1" refl)
  where
    differs : (k : String) → len k ≡ 1 → str_eq s k ≡ false
    differs k one = ground (arith, eq_iff s k, λ (e : s ≡ k). ap len e)

abbrev pub unary : Numerals
unary = record {
  int_of = int_of;
  str_of = str_of;
  int_of-str_of = int_of-str_of;
  int_of_zero = refl;
  int_of_one = refl;
}
  where
    int_of-str_of : (z : ℤ) → int_of (str_of z) ≡ some z
    int_of-str_of (pos zero) = refl
    int_of-str_of (pos (suc zero)) = refl
    int_of-str_of (pos (suc (suc n))) =
        int_of-long (ones (2 * n + 2)) (omega (arith, len-ones (2 * n + 2)))
        ∙ ap some (rw (len-ones (2 * n + 2)) (ground arith))
    int_of-str_of (negsuc n) =
        int_of-long (ones (2 * n + 3)) (omega (arith, len-ones (2 * n + 3)))
        ∙ ap some (rw (len-ones (2 * n + 3)) (ground arith))

abbrev pub redis : Client
redis = record {
  Db = Key → Option Entry;
  lookup = λ d. d;
  incr = λ k t d.
      (incr_reply (live t (d k)), λ j. if key_eq k j then incremented (live t (d k)) else d j);
  expire = λ k s t d j. if key_eq k j then with_deadline (t + s) (live t (d k)) else d j;
  delete = λ k d j. if key_eq k j then none else d j;
  setex = λ k s v t d j.
      if key_eq k j then some (record { value = v; deadline = some (t + s) }) else d j;
  reply-incr = λ k t d. refl;
  lookup-incr = λ k j t d. refl;
  lookup-expire = λ k j s t d. refl;
  lookup-delete = λ k j d. refl;
  lookup-setex = λ k j s v t d. refl;
}

abbrev pub plain_hash : Bcrypt
plain_hash = record {
  hashpw = λ s salt. "$2b$" ++ s;
  checkpw = λ s hash. some (str_eq hash ("$2b$" ++ s));
  prefix = λ n s. s;
  hashpw_version = λ s salt. starts_with-append "$2b$" s;
  checkpw-hashpw = λ s salt. ap some ((eq_iff ("$2b$" ++ s) ("$2b$" ++ s)).1 refl);
  prefix_all = λ n s h. refl;
}

abbrev decoded : Payload → ℕ → Option Claim → Decoded
decoded p t (some (int e)) =
    if ltb t e then (if leb p.iat t then claims p else invalid_token) else expired_signature
decoded p t _ = claims p

pub decoded-claims :
    (p : Payload) (t : ℕ) (exp : Option Claim) (q : Payload) → decoded p t exp ≡ claims q → p ≡ q
decoded-claims p t none q h = ground arith
decoded-claims p t (some (int e)) q h = ground arith
decoded-claims p t (some (str s)) q h = ground arith
decoded-claims p t (some negative) q h = ground arith
decoded-claims p t (some boolean) q h = ground arith
decoded-claims p t (some other) q h = ground arith

abbrev pub bare : Codec
bare = record {
  Token = Payload;
  encode = λ p. p;
  decode = λ p t. decoded p t p.exp;
  decode-encode = λ p e t exp early late. rw exp (ground arith);
  decode_stable =
      λ p t t' q r h k. ground (arith, decoded-claims p t p.exp q h, decoded-claims p t' p.exp r k);
  decode_expiry = expiry;
}
  where
    expiry :
        (p : Payload) (t e : ℕ) (q : Payload)
        → decoded p t p.exp ≡ claims q
        → q.exp ≡ some (int e)
        → t < e
    expiry p t e q h exp =
        let same : p ≡ q = decoded-claims p t p.exp q h in
        let exp' : p.exp ≡ some (int e) = ap (λ (r : Payload). r.exp) same ∙ exp in
        late p t e q (ap (λ o. decoded p t o) (sym exp') ∙ h)
      where
        late : (p : Payload) (t e : ℕ) (q : Payload) → decoded p t (some (int e)) ≡ claims q → t < e
        late p t e q h = ground arith
