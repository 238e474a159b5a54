-- ===== src/Mrt/Error.antt =====
-- crates/rbmp-mrt/src/error.rs: the error type of the crate, and the outcome of a call.
use rustybmp.Base.{ℕ, Bool, true, false}
pub use rustybmp.Core.Io.{IoError, unexpected_eof, other}
use rustybmp.Core.Error.{Error, Result, ok, err, panic, stuck}

pub data MrtError : Type 0 where
  io : IoError → MrtError
  too_short : (need have : ℕ) → MrtError
  unsupported_type : (mrt_type subtype : ℕ) → MrtError
  bgp_parse : Error → MrtError
  invalid_prefix_len : ℕ → MrtError

-- `Result<T>` of the crate; `panicked` is a panic of the thread, and `hung` a loop of the model that
-- ran out of fuel.
pub data Outcome {ℓ} (A : Type ℓ) : Type ℓ where
  done : A → Outcome A
  failed : MrtError → Outcome A
  panicked : Outcome A
  hung : Outcome A

infixl 5 ◌>>=◌
abbrev pub ◌>>=◌ {ℓ κ} : {A : Type ℓ} {B : Type κ} → Outcome A → (A → Outcome B) → Outcome B
done a >>= f = f a
failed e >>= f = failed e
panicked >>= f = panicked
hung >>= f = hung

-- `?` on a result of rbmp-core: its errors are converted.
abbrev pub lift {ℓ} : {A : Type ℓ} → Result A → Outcome A
lift (ok a) = done a
lift (err e) = failed (bgp_parse e)
lift panic = panicked
lift stuck = hung

-- The call returns, with a value or with an error.
abbrev pub returns {ℓ} : {A : Type ℓ} → Outcome A → Bool
returns (done a) = true
returns (failed e) = true
returns panicked = false
returns hung = false
