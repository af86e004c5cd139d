-- ===== src/Storage/Division.antt =====
-- Division that rounds down and up, as adjoints of multiplication, and the blocks that an interval meets.
use cross_pool.Prelude.{ℕ, suc, ◌+◌, ◌-◌, ◌*◌, ◌/◌, ◌≤◌, ◌<◌, ◌≡◌, ◌↔◌, arith, max}
use native.Mathlib.Nat.{le-div_iff_mul-le, div-lt_iff_lt-mul, add-mul}

-- `(a + b - 1) // b`
abbrev pub up_div : ℕ → ℕ → ℕ
up_div a b = (a + b - 1) / b

pub lt-up_div : (x a b : ℕ) → 0 < b → (x < up_div a b) ↔ (x * b < a)
lt-up_div x a b h =
    ground (arith, le-div_iff_mul-le {k = b} {x = suc x} {y = a + b - 1} h, add-mul x 1 b)

pub up_div-le : (x a b : ℕ) → 0 < b → (up_div a b ≤ x) ↔ (a ≤ x * b)
up_div-le x a b h = ground (arith, lt-up_div x a b h)

pub div-lt : (a x b : ℕ) → 0 < b → (a / b < x) ↔ (a < x * b)
div-lt a x b h = div-lt_iff_lt-mul {k = b} {x = a} {y = x} h

pub le-div : (x a b : ℕ) → 0 < b → (x ≤ a / b) ↔ (x * b ≤ a)
le-div x a b h = le-div_iff_mul-le {k = b} {x = x} {y = a} h

pub div-le : (a x b : ℕ) → 0 < b → (a / b ≤ x) ↔ (a < (x + 1) * b)
div-le a x b h = ground (arith, div-lt a (suc x) b h)

-- The block of size `b` that `y` is in.
pub div_unique : (y x b : ℕ) → 0 < b → x * b ≤ y → y < (x + 1) * b → y / b ≡ x
div_unique y x b h low high = omega (arith, (le-div x y b h).1 low, (div-le y x b h).1 high)

-- The blocks of size `b` that meet the interval from `low` to `high`, end excluded, are those from
-- `low / b` to `up_div high b`.
pub blocks_iff :
    (low high x b : ℕ)
    → 0 < b
    → low < high
    → ((low / b ≤ x) × (x < up_div high b)) ↔ ((y : ℕ) × (low ≤ y) × (y < high) × (y / b ≡ x))
blocks_iff low high x b h nonempty = (there, back)
  where
    there : (low / b ≤ x) × (x < up_div high b) → (y : ℕ) × (low ≤ y) × (y < high) × (y / b ≡ x)
    there (a, z) =
        let below = (div-le low x b h).0 a in
        let above = (lt-up_div x high b h).0 z in
        (
          max low (x * b),
          omega arith,
          omega (arith, nonempty, above),
          div_unique (max low (x * b)) x b h (omega arith) (omega (arith, below, h, add-mul x 1 b)),
        )

    back : ((y : ℕ) × (low ≤ y) × (y < high) × (y / b ≡ x)) → (low / b ≤ x) × (x < up_div high b)
    back (y, a, z, e) =
        let below = (div-le y x b h).0 (omega (arith, e)) in
        let above = (le-div x y b h).0 (omega (arith, e)) in
        (
          (div-le low x b h).1 (omega (arith, a, below)),
          (lt-up_div x high b h).1 (omega (arith, z, above)),
        )

pub div-le-up_div : (a c b : ℕ) → 0 < b → a ≤ c → a / b ≤ up_div c b
div-le-up_div a c b h le = omega (
  arith,
  (div-lt a (up_div c b + 1) b h).1 (
      omega
        (arith, le, (up_div-le (up_div c b) c b h).0 (omega arith), add-mul (up_div c b) 1 b, h)),
)
