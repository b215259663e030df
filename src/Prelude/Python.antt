-- ===== src/Prelude/Python.antt =====
-- Python's truth of texts and numbers, in `x or d` and `not x`.
use Prim.Native.Nat.{ℕ, zero, suc}
use Prim.Native.String.{String}
use mathlib.Core.Bool.{Bool}
use mathlib.Core.Option.{Option, none, some}
use text.Mathlib.Text.{◌==◌ as str_eq}
use blacklist.Prelude.Compare.{if◌then◌else◌}

abbrev pub empty_text : String → Bool
empty_text s = str_eq s ""

abbrev pub or_text : Option String → String → String
or_text none d = d
or_text (some s) d = if empty_text s then d else s

abbrev pub or_number : Option ℕ → ℕ → ℕ
or_number none d = d
or_number (some zero) d = d
or_number (some (suc n)) d = suc n
