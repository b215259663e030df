-- ===== src/Prelude/Int.antt =====
-- Python's integers, as far as the code compares and prints them.
use Prim.Native.Nat.{ℕ, zero, suc}
use mathlib.Core.Path.{◌≡◌}
use mathlib.Core.Option.{Option, some}
use Prim.Native.String.{String}

-- `negsuc n` is -(n + 1).
pub data ℤ : Type 0 where
  pos : ℕ → ℤ
  negsuc : ℕ → ℤ

abbrev pub successor : ℤ → ℤ
successor (pos n) = pos (suc n)
successor (negsuc zero) = pos 0
successor (negsuc (suc n)) = negsuc n

-- `int()` on a text, which may raise ValueError, and `str()` on a number.
pub record Numerals : Type 0 where
  pub int_of : String → Option ℤ
  pub str_of : ℤ → String
  pub int_of-str_of : (z : ℤ) → int_of (str_of z) ≡ some z
  pub int_of_zero : int_of "0" ≡ some (pos 0)
  pub int_of_one : int_of "1" ≡ some (pos 1)
