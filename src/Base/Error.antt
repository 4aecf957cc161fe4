-- ===== src/Base/Error.antt =====
-- Go errors as values, and pure steps that may fail.
use Prim.Native.String.{String}
use mathlib.Core.Option.{Option, none, some}

-- `wrap` keeps its cause, as errors.Wrap and `%w` do; an `errorf` has none.
-- `join_cons e rest` is one element of errors.Join, `join_end` its end.
-- A `panic` is a run-time panic, which stops the program.
pub data Err : Type 0 where
  errorf : String → Err
  not_exist : Err
  wrap : String → Err → Err
  join_cons : Err → Err → Err
  join_end : Err
  panic : String → Err

pub data Result {ℓ} (A : Type ℓ) : Type ℓ where
  ok : A → Result A
  err : Err → Result A

-- errors.Wrap
abbrev pub wrap_err {ℓ} : {A : Type ℓ} → String → Result A → Result A
wrap_err s (ok a) = ok a
wrap_err s (err e) = err (wrap s e)

-- A Go function that returns only an error.
abbrev pub of_error : Option Err → Result (Unit {0})
of_error none = ok tt
of_error (some e) = err e

abbrev pub IsOk {ℓ} : {A : Type ℓ} → Result A → Type 0
IsOk (ok a) = Unit
IsOk (err e) = ⊥
