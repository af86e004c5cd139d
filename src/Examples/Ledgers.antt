-- ===== src/Examples/Ledgers.antt =====
-- Runs of the byte ledgers.
use cross_pool.Prelude.{true, ◌+◌, ◌*◌, ◌%◌, ◌≤◌, ◌<◌, ◌≡◌, refl, [], ◌∷◌, arith}
use cross_pool.Prelude.Result.{ok}
use cross_pool.Quota.Profile.{
  PoolProfile, make_pool, bytes_for, floor_bytes, reservation_bytes, align_up, uint64_max, IsPool,
  align_up-eq-ok, floor_bytes-le-reservation_bytes, bytes_for-eq-ok,
}
use cross_pool.Quota.Ledger.{
  MemoryQuota, try_reserve, release, reserves, releases, limits, uses, IsWithin, uses-IsWithin,
  release-try_reserve,
}

abbrev pool : PoolProfile
pool = record { bundle_bytes = 4; bundle_capacity = 10; floor_bundles = 2 }

pool-IsPool : IsPool pool
unfolding make_pool
pool-IsPool = refl

abbrev ledger : MemoryQuota
ledger = record { limit_bytes = 40; charged_bytes = 8 }

ledger-IsWithin : IsWithin ledger
ledger-IsWithin = (omega arith, omega arith)

uses-IsWithin_example :
    IsWithin (uses (reserves 30 ∷ reserves 3 ∷ releases 50 ∷ limits 12 ∷ []) ledger)
uses-IsWithin_example =
    uses-IsWithin (reserves 30 ∷ reserves 3 ∷ releases 50 ∷ limits 12 ∷ []) ledger ledger-IsWithin

reserved : try_reserve 12 ledger ≡ (ok true, record { limit_bytes = 40; charged_bytes = 20 })
unfolding try_reserve
reserved = refl

release-try_reserve_example :
    release 12 (record { limit_bytes = 40; charged_bytes = 20 }) ≡ (ok tt, ledger)
release-try_reserve_example =
    release-try_reserve 12 ledger (record { limit_bytes = 40; charged_bytes = 20 }) ledger-IsWithin
      reserved

floor_bytes-le-reservation_bytes_example : floor_bytes (pool ∷ []) ≤ reservation_bytes (pool ∷ [])
floor_bytes-le-reservation_bytes_example =
    floor_bytes-le-reservation_bytes (pool ∷ []) (pool-IsPool, tt)

three : bytes_for pool 3 ≡ ok 12
unfolding bytes_for
three = refl

bytes_for-eq-ok_example : (12 ≤ pool.bundle_bytes * pool.bundle_capacity) × (12 ≤ uint64_max)
bytes_for-eq-ok_example = bytes_for-eq-ok pool 3 12 pool-IsPool three

aligned : align_up 13 8 ≡ ok 16
unfolding align_up
aligned = refl

align_up-eq-ok_example : (13 ≤ 16) × (16 < 13 + 8) × (16 % 8 ≡ 0)
align_up-eq-ok_example = align_up-eq-ok 13 8 16 aligned
