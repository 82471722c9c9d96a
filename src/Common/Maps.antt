-- ===== src/Common/Maps.antt =====
-- Go's maps with text keys, as lists of pairs. The order of a map's pairs is not observable.
use Prim.Native.String.{String}
use mathlib.Core.Path.{◌≡◌, refl}
use mathlib.Core.Logic.{◌≢◌, ◌⊎◌, inl, inr}
use mathlib.Core.Option.{Option, none, some}
use mathlib.Core.List.{List, [], ◌∷◌}
use native.Mathlib.Omega.{arith}
use text.Mathlib.Text.{◌==◌ as str_eq}
use text.Mathlib.TextEquality.{eq_iff as str_eq_iff}
use eika.Common.Tests.{Bool-cases, if◌then◌else◌}

abbrev pub Map {ℓ} : Type ℓ → Type ℓ
Map Value = List (String × Value)

module _ {ℓ} {Value : Type ℓ} where
  abbrev pub lookup : Map Value → String → Option Value
  lookup [] key = none
  lookup ((k, v) ∷ m) key = let rest = lookup m key in if str_eq k key then some v else rest

  -- `delete(m, key)`
  abbrev pub erase : Map Value → String → Map Value
  erase [] key = []
  erase ((k, v) ∷ m) key = let rest = erase m key in if str_eq k key then rest else (k, v) ∷ rest

  -- `m[key] = value`
  abbrev pub assign : Map Value → String → Value → Map Value
  assign m key value = (key, value) ∷ erase m key

  pub lookup-erase_self : (m : Map Value) (key : String) → lookup (erase m key) key ≡ none
  lookup-erase_self [] key = refl
  lookup-erase_self ((k, v) ∷ m) key = ground (arith, lookup-erase_self m key, str_eq_iff k key)

  pub lookup-erase_ne :
      (m : Map Value) (key other : String)
      → key ≢ other
      → lookup (erase m key) other ≡ lookup m other
  lookup-erase_ne [] key other h = refl
  lookup-erase_ne ((k, v) ∷ m) key other h =
      ground (arith, lookup-erase_ne m key other h, str_eq_iff k key, str_eq_iff k other)

  pub lookup-assign_self :
      (m : Map Value) (key : String) (value : Value) → lookup (assign m key value) key ≡ some value
  lookup-assign_self m key value = ground (arith, str_eq_iff key key)

  pub lookup-assign_ne :
      (m : Map Value) (key other : String) (value : Value)
      → key ≢ other
      → lookup (assign m key value) other ≡ lookup m other
  lookup-assign_ne m key other value h =
      ground (arith, lookup-erase_ne m key other h, str_eq_iff key other)

-- Two texts are the same or not.
pub text-cases : (s t : String) → (s ≡ t) ⊎ (s ≢ t)
text-cases s t = elim (Bool-cases (str_eq s t)) [
  | inl same ↦ inl (ground (arith, str_eq_iff s t))
  | inr other ↦ inr (ground (arith, str_eq_iff s t))
]
