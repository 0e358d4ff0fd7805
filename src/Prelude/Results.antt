-- ===== src/Prelude/Results.antt =====
-- Fallible code: `Result` with a text for the error, and chains of `?`.
use Prim.Native.String.{String}
use mathlib.Core.Option.{Option, none, some}

pub data Result {ℓ} (A : Type ℓ) : Type ℓ where
  ok : (value : A) → Result A
  err : (error : String) → Result A

-- `?`, after which the rest of the function goes on.
infixl 5 ◌>>=◌
abbrev pub ◌>>=◌ {ℓ κ} : {A : Type ℓ} {B : Type κ} (result : Result A) → (A → Result B) → Result B
ok value >>= rest = rest value
err error >>= rest = err error

-- `ok_or_else`
abbrev pub ok_or {ℓ} : {A : Type ℓ} → Option A → String → Result A
ok_or none error = err error
ok_or (some value) error = ok value
