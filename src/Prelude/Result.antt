-- ===== src/Prelude/Result.antt =====
-- Errors as values. `daemon` is `XpoolDaemonError` and `driver_error` is `CudaDriverError`; messages of
-- raised errors are left out.
use mathlib.Core.Path.{◌≡◌, refl}
use mathlib.Core.Bool.{Bool, true, false}

pub data ErrorKind : Type 0 where
  conflict not_found not_ready : ErrorKind

-- A result of the device driver other than success: memory is exhausted, the device is lost for the
-- process, or another.
pub data DriverFailure : Type 0 where
  out_of_memory terminal_failure other_failure : DriverFailure

pub data Error : Type 0 where
  daemon : ErrorKind → Error
  driver_error : DriverFailure → Error
  runtime_error value_error index_error memory_error : Error

-- What a call returns, or the error that it raises.
pub data Result {ℓ} (Value : Type ℓ) : Type ℓ where
  err : Error → Result Value
  ok : Value → Result Value

module _ {ℓ κ} {A : Type ℓ} {B : Type κ} where
  infixl 5 ◌>>=◌
  abbrev pub ◌>>=◌ : Result A → (A → Result B) → Result B
  err e >>= next = err e
  ok a >>= next = next a

  -- Inversion of a bind that succeeds.
  pub >>=-eq-ok :
      (r : Result A) (next : A → Result B) {b : B}
      → (r >>= next) ≡ ok b
      → (a : A) × (r ≡ ok a) × (next a ≡ ok b)
  >>=-eq-ok (err e) next h = cc
  >>=-eq-ok (ok a) next h = (a, refl, h)

infixl 5 ◌>>◌
abbrev pub ◌>>◌ {ℓ} : {B : Type ℓ} → Result (Unit {0}) → Result B → Result B
first >> second = first >>= λ _. second

-- `if not b: raise e`.
abbrev pub require : Bool → Error → Result (Unit {0})
require true e = ok tt
require false e = err e

pub ok-injective {ℓ} : {A : Type ℓ} {a b : A} → ok a ≡ ok b → a ≡ b
ok-injective e = cc

-- A check that passed.
pub require-eq-ok {ℓ} :
    {A : Type ℓ} (b : Bool) (e : Error) (m : Result A) {a : A}
    → (require b e >> m) ≡ ok a
    → (b ≡ true) × (m ≡ ok a)
require-eq-ok true e m h = (refl, h)
require-eq-ok false e m h = cc
