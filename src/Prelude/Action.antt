-- ===== src/Prelude/Action.antt =====
-- Methods that change an object and may raise. What was written before the error stays written.
use mathlib.Core.Path.{◌≡◌, refl}
use mathlib.Core.Bool.{Bool, true, false}
use cross_pool.Prelude.Result.{Error, Result, ok, err}

abbrev pub Action {ℓ κ} : Type ℓ → Type κ → Type (ℓ ⊔ κ)
Action S A = S → Result A × S

module _ {ℓ κ} {S : Type ℓ} {A : Type κ} where
  abbrev pub pure : A → Action S A
  pure a s = (ok a, s)

  abbrev pub raise : Error → Action S A
  raise e s = (err e, s)

  -- A computation that reads the object and leaves it alone.
  abbrev pub reads : (S → Result A) → Action S A
  reads f s = (f s, s)

abbrev pub modify {ℓ} : {S : Type ℓ} → (S → S) → Action S (Unit {0})
modify f s = (ok tt, f s)

abbrev pub require {ℓ} : {S : Type ℓ} → Bool → Error → Action S (Unit {0})
require true e s = (ok tt, s)
require false e s = (err e, s)

module _ {ℓ κ μ} {S : Type ℓ} {A : Type κ} {B : Type μ} where
  abbrev pub and_then : Result A → (A → Action S B) → Action S B
  and_then (ok a) f s = f a s
  and_then (err e) f s = (err e, s)

  infixl 5 ◌>>=◌
  abbrev pub ◌>>=◌ : Action S A → (A → Action S B) → Action S B
  ◌>>=◌ m f s = let (r, t) = m s in and_then r f t

infixl 5 ◌>>◌
abbrev pub ◌>>◌ {ℓ μ} : {S : Type ℓ} {B : Type μ} → Action S (Unit {0}) → Action S B → Action S B
m >> k = m >>= λ _. k

-- A method that either raises before it writes, or returns the object as it leaves it.
abbrev pub update {ℓ} : {S : Type ℓ} → (S → Result S) → Action S (Unit {0})
update f s = elim (f s) [ ok t ↦ (ok tt, t) | err e ↦ (err e, s) ]

-- What holds after a step holds after an action: the rules that proofs about actions use.
module _ {ℓ κ μ ν} {S : Type ℓ} {A : Type κ} {B : Type μ} (P : Result B × S → Type ν) where
  pub reads_ind :
      (f : S → Result A) (k : A → Action S B) (s : S)
      → ((a : A) → f s ≡ ok a → P (k a s))
      → ((e : Error) → P (err e, s))
      → P ((reads f >>= k) s)
  reads_ind f k s go stop = cases (f s) refl
    where
      cases : (r : Result A) → f s ≡ r → P (and_then r k s)
      cases (ok a) e = go a e
      cases (err x) e = stop x

  pub bind_ind :
      (m : Action S A) (k : A → Action S B) (s : S)
      → ((a : A) (t : S) → m s ≡ (ok a, t) → P (k a t))
      → ((e : Error) (t : S) → m s ≡ (err e, t) → P (err e, t))
      → P ((m >>= k) s)
  bind_ind m k s go stop = cases (m s) refl
    where
      cases : (r : Result A × S) → m s ≡ r → P (and_then r.0 k r.1)
      cases (ok a, t) e = go a t e
      cases (err x, t) e = stop x t e

pub update_ind {ℓ ν} :
    {S : Type ℓ} (P : Result (Unit {0}) × S → Type ν) (f : S → Result S) (s : S)
    → ((t : S) → f s ≡ ok t → P (ok tt, t))
    → ((e : Error) → P (err e, s))
    → P (update f s)
update_ind {S} P f s go stop = cases (f s) refl
  where
    cases : (r : Result S) → f s ≡ r → P (elim r [ ok t ↦ (ok tt, t) | err e ↦ (err e, s) ])
    cases (ok t) e = go t e
    cases (err x) e = stop x

-- What both parts of a composition keep.
pub bind_keeps {ℓ κ μ ν} :
    {S : Type ℓ} {A : Type κ} {B : Type μ} (I : S → Type ν) (m : Action S A) (k : A → Action S B)
    (s : S)
    → I (m s).1
    → ((a : A) (t : S) → I t → I (k a t).1)
    → I ((m >>= k) s).1
bind_keeps {S = S} {A = A} {B = B} I m k s first next = cases (m s) first
  where
    cases : (r : Result A × S) → I r.1 → I (and_then r.0 k r.1).1
    cases (ok a, t) i = next a t i
    cases (err x, t) i = i
