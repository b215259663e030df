-- ===== src/Decision/Cache.antt =====
-- Redis as the decision service uses it: SETEX, GET and DEL on texts with a deadline.
use blacklist.Prelude.{
  ℕ, ◌≡◌, Option, none, some, String, List, [], ◌∷◌, arith, leb, str_eq, eq_iff, if◌then◌else◌,
}
use blacklist.Prelude.Dict.{lookup}

pub record Cached {ℓ} (A : Type ℓ) : Type ℓ where
  pub value : A
  pub deadline : ℕ

module _ {ℓ} {A : Type ℓ} where
  -- GET: an entry past its deadline is gone.
  unfoldable pub fresh : ℕ → Option (Cached A) → Option A
  fresh now none = none
  fresh now (some c) = if leb c.deadline now then none else some c.value

  unfoldable pub read : ℕ → String → List (String × Cached A) → Option A
  read now ip cache = fresh now (lookup ip cache)

  unfoldable pub remove : String → List (String × Cached A) → List (String × Cached A)
  remove k [] = []
  remove k ((j, c) ∷ m) = let rest = remove k m in if str_eq j k then rest else (j, c) ∷ rest

  pub lookup-remove :
      (k j : String) (m : List (String × Cached A))
      → lookup j (remove k m) ≡ (if str_eq k j then none else lookup j m)
  unfolding lookup remove
  lookup-remove k j [] = ground (arith, eq_iff k j)
  lookup-remove k j ((i, c) ∷ m) =
      ground (arith, eq_iff k j, eq_iff i k, eq_iff i j, lookup-remove k j m)
