-- ===== src/Common/Results.antt =====
-- Go's pairs of a value and an error, where the value is read only if the error is nil.
use mathlib.Core.Path.{◌≡◌, refl}
use mathlib.Core.Option.{Option, none, some}

pub data Result {ℓ} (Failure : Type 0) (Value : Type ℓ) : Type ℓ where
  err : Failure → Result Failure Value
  ok : Value → Result Failure Value

-- `if err != nil { return err }`
module _ {ℓ κ} {Failure : Type 0} {Value : Type ℓ} {Next : Type κ} where
  infixl 5 ◌>>=◌
  abbrev pub ◌>>=◌ : Result Failure Value → (Value → Result Failure Next) → Result Failure Next
  err failure >>= rest = err failure
  ok value >>= rest = rest value

  -- A sequence that succeeds has a first step that succeeds.
  pub >>=-ok :
      (first : Result Failure Value) (rest : Value → Result Failure Next) {out : Next}
      → (first >>= rest) ≡ ok out
      → (mid : Value) × (first ≡ ok mid) × (rest mid ≡ ok out)
  >>=-ok (ok mid) rest done = (mid, refl, done)
  >>=-ok (err failure) rest done = cc

-- The value of a lookup, and an error where there is none.
abbrev pub or_fail {ℓ} :
    {Failure : Type 0} {Value : Type ℓ} → Failure → Option Value → Result Failure Value
or_fail failure none = err failure
or_fail failure (some value) = ok value
