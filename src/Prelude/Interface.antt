-- ===== src/Prelude/Interface.antt =====
-- Decided equality as an interface: `==` of Python on the values that the model compares.
use Prim.Native.Nat.{ℕ}
use Prim.Native.String.{String}
use mathlib.Core.Path.{◌≡◌, refl}
use mathlib.Core.Logic.{◌↔◌}
use mathlib.Core.Bool.{Bool, true, false}
use mathlib.Core.Option.{Option, none, some}
use native.Mathlib.Omega.{arith}
use text.Mathlib.Text.{◌==◌ as str_eq}
use text.Mathlib.TextEquality.{eq_iff}
use cross_pool.Prelude.Tests.{nat_beq, nat_beq_iff}

-- The values of `Key` are told apart by a test that decides their paths.
pub record Eq {ℓ} (Key : Type ℓ) : Type ℓ where
  pub beq : (left right : Key) → Bool
  pub beq_iff : (left right : Key) → (beq left right ≡ true) ↔ (left ≡ right)

instance abbrev pub string_eq : Eq String
string_eq = record { beq_iff = eq_iff; beq = str_eq }

module _ {ℓ} {A : Type ℓ} ⦃e : Eq A⦄ where
  infix 50 ◌==◌
  abbrev pub ◌==◌ : A → A → Bool
  a == b = e.beq a b

  pub beq_refl : (a : A) → (a == a) ≡ true
  beq_refl a = (e.beq_iff a a).1 refl

  abbrev pub option_beq : Option A → Option A → Bool
  option_beq (some a) (some b) = a == b
  option_beq (some a) none = false
  option_beq none (some b) = false
  option_beq none none = true

  pub option_beq_iff : (a b : Option A) → (option_beq a b ≡ true) ↔ (a ≡ b)
  option_beq_iff (some a) (some b) = ground (arith, e.beq_iff a b)
  option_beq_iff (some a) none = ground arith
  option_beq_iff none (some b) = ground arith
  option_beq_iff none none = ground arith

  instance abbrev pub option_eq : Eq (Option A)
  option_eq = record { beq = option_beq; beq_iff = option_beq_iff }

instance abbrev pub nat_eq : Eq ℕ
nat_eq = record { beq_iff = nat_beq_iff; beq = nat_beq }
