-- ===== src/Prelude/Dict.antt =====
-- Dictionaries with texts as keys: association lists, each key once.
use Prim.Native.String.{String}
use mathlib.Core.Path.{◌≡◌, refl}
use mathlib.Core.List.{List, [], ◌∷◌}
use mathlib.Core.Option.{Option, none, some}
use native.Mathlib.Omega.{arith}
use text.Mathlib.Text.{◌==◌ as str_eq}
use text.Mathlib.TextEquality.{eq_iff}
use blacklist.Prelude.Compare.{if◌then◌else◌}

module _ {ℓ} {Value : Type ℓ} where
  unfoldable pub lookup : String → List (String × Value) → Option Value
  lookup key [] = none
  lookup key ((name, value) ∷ rest) = if str_eq name key then some value else lookup key rest

  unfoldable pub insert : String → Value → List (String × Value) → List (String × Value)
  insert key new [] = (key, new) ∷ []
  insert key new ((name, value) ∷ rest) =
      if str_eq name key then (key, new) ∷ rest else (name, value) ∷ insert key new rest

  pub lookup-insert :
      (key other : String) (new : Value) (dict : List (String × Value))
      → lookup other (insert key new dict)
        ≡ (if str_eq key other then some new else lookup other dict)
  unfolding lookup insert
  lookup-insert key other new [] = refl
  lookup-insert key other new ((name, value) ∷ rest) = ground (
    arith,
    lookup-insert key other new rest,
    eq_iff name other,
    eq_iff name key,
    eq_iff key other,
  )
