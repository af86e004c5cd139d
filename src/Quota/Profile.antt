-- ===== src/Quota/Profile.antt =====
-- `PoolProfile` and `ElasticContextStateProfile` of src/xpool/ecs.py, with `ensure_uint64` of
-- src/xpool/utils/integer.py and `align_up` of src/xpool/utils/__init__.py. The values that reach them
-- are natural numbers here; Python also refuses negative ones and Booleans.
use cross_pool.Prelude.{
  ℕ, ◌+◌, ◌-◌, ◌*◌, ◌/◌, ◌%◌, ◌≤◌, ◌<◌, ◌≡◌, not, ◌||◌, List, [], ◌∷◌, all, All, arith, leb, ltb,
  ◌==◌, nat_eq, ltb→lt, subst,
}
use cross_pool.Prelude.Result.{Result, ok, value_error, ◌>>◌, require, require-eq-ok, ok-injective}
use native.Mathlib.Nat.{div-add-mod', mod-lt, mul-mod_left, mul-le-mul_right, mul_comm}

abbrev pub uint64_max : ℕ
uint64_max = 18446744073709551615

-- `ensure_uint64`.
abbrev pub ensure_uint64 : List ℕ → Result (Unit {0})
ensure_uint64 values = require (all (λ v. leb v uint64_max) values) value_error

pub record PoolProfile : Type 0 where
  pub bundle_bytes : ℕ
  pub bundle_capacity : ℕ
  pub floor_bundles : ℕ

-- The checks of a new pool.
unfoldable pub make_pool : ℕ → ℕ → ℕ → Result PoolProfile
make_pool bundle_bytes bundle_capacity floor_bundles = do
  ensure_uint64 (bundle_bytes ∷ bundle_capacity ∷ floor_bundles ∷ [])
  require (not (bundle_bytes == 0 || ltb bundle_capacity floor_bundles)) value_error
  ensure_uint64 (bundle_bytes * bundle_capacity ∷ [])
  ok (record {
    bundle_bytes = bundle_bytes;
    bundle_capacity = bundle_capacity;
    floor_bundles = floor_bundles;
  })

unfoldable pub bytes_for : PoolProfile → ℕ → Result ℕ
bytes_for pool bundles = do
  ensure_uint64 (bundles ∷ [])
  require (leb bundles pool.bundle_capacity) value_error
  ok (bundles * pool.bundle_bytes)

unfoldable pub floor_bytes : List PoolProfile → ℕ
floor_bytes [] = 0
floor_bytes (pool ∷ pools) = pool.floor_bundles * pool.bundle_bytes + floor_bytes pools

unfoldable pub reservation_bytes : List PoolProfile → ℕ
reservation_bytes [] = 0
reservation_bytes (pool ∷ pools) =
    pool.bundle_capacity * pool.bundle_bytes + reservation_bytes pools

-- The checks of a new profile.
unfoldable pub make_profile : List PoolProfile → Result (List PoolProfile)
unfolding floor_bytes reservation_bytes
make_profile pools = do ensure_uint64 (floor_bytes pools ∷ reservation_bytes pools ∷ []); ok pools

unfoldable pub align_up : ℕ → ℕ → Result ℕ
align_up value alignment = do
  require (ltb 0 alignment) value_error
  ok ((value + alignment - 1) / alignment * alignment)

-- A pool that passed its checks.
abbrev pub IsPool : PoolProfile → Type 0
IsPool pool = make_pool pool.bundle_bytes pool.bundle_capacity pool.floor_bundles ≡ ok pool

-- An alignment that succeeds yields a multiple of the boundary that is at least the value and less than
-- one boundary above it.
pub align_up-eq-ok :
    (value alignment aligned : ℕ)
    → align_up value alignment ≡ ok aligned
    → (value ≤ aligned) × (aligned < value + alignment) × (aligned % alignment ≡ 0)
unfolding align_up
align_up-eq-ok value alignment aligned e =
    let (positive, e1) = require-eq-ok (ltb 0 alignment) value_error _ e in
    let pos = ltb→lt 0 alignment positive in
    subst (λ x. (value ≤ x) × (x < value + alignment) × (x % alignment ≡ 0)) (ok-injective e1)
      (
        omega (arith, pos, quotient, below pos),
        omega (arith, pos, quotient, below pos),
        mul-mod_left ((value + alignment - 1) / alignment) alignment,
      )
  where
    quotient :
        (value + alignment - 1) / alignment * alignment + (value + alignment - 1) % alignment
        ≡ value + alignment - 1
    quotient = div-add-mod' (value + alignment - 1) alignment

    below : 0 < alignment → (value + alignment - 1) % alignment < alignment
    below pos = mod-lt (value + alignment - 1) pos

floor-le : (pool : PoolProfile) → IsPool pool → pool.floor_bundles ≤ pool.bundle_capacity
unfolding make_pool
floor-le pool e = ground arith

-- The floor of a profile whose pools have passed their checks is at most its reservation.
pub floor_bytes-le-reservation_bytes :
    (pools : List PoolProfile) → All IsPool pools → floor_bytes pools ≤ reservation_bytes pools
unfolding floor_bytes reservation_bytes
floor_bytes-le-reservation_bytes [] h = omega arith
floor_bytes-le-reservation_bytes (pool ∷ pools) h = omega (
  arith,
  mul-le-mul_right pool.bundle_bytes (floor-le pool h.0),
  floor_bytes-le-reservation_bytes pools h.1,
)

reservation-fits :
    (pool : PoolProfile) → IsPool pool → pool.bundle_bytes * pool.bundle_capacity ≤ uint64_max
unfolding make_pool
reservation-fits pool e = ground arith

bytes_for-inv :
    (pool : PoolProfile) (bundles bytes : ℕ)
    → bytes_for pool bundles ≡ ok bytes
    → (bundles ≤ pool.bundle_capacity) × (bundles * pool.bundle_bytes ≡ bytes)
unfolding bytes_for
bytes_for-inv pool bundles bytes e = ground arith

-- A count that a checked pool accepts costs at most its reservation, which fits 64 bits.
pub bytes_for-eq-ok :
    (pool : PoolProfile) (bundles bytes : ℕ)
    → IsPool pool
    → bytes_for pool bundles ≡ ok bytes
    → (bytes ≤ pool.bundle_bytes * pool.bundle_capacity) × (bytes ≤ uint64_max)
bytes_for-eq-ok pool bundles bytes h e =
    let (le, same) = bytes_for-inv pool bundles bytes e in
    let cost = mul-le-mul_right pool.bundle_bytes le in
    let turned = mul_comm pool.bundle_bytes pool.bundle_capacity in
    (omega (arith, cost, same, turned), omega (arith, cost, same, turned, reservation-fits pool h))
