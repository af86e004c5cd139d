-- ===== src/Quota/Ledger.antt =====
-- `MemoryQuota` of src/xpool/ecs.py. A refused call leaves the ledger as it was.
use cross_pool.Prelude.{
  ℕ, ◌+◌, ◌-◌, ◌≤◌, ◌≡◌, Bool, true, false, List, [], ◌∷◌, arith, leb, ltb, if◌then◌else◌,
}
use cross_pool.Prelude.Result.{ok, value_error}
use cross_pool.Prelude.Action.{Action, pure, require, modify, ◌>>◌}
use cross_pool.Quota.Profile.{uint64_max}

pub record MemoryQuota : Type 0 where
  pub limit_bytes : ℕ
  pub charged_bytes : ℕ

abbrev Method : Type 0 → Type 0
Method A = Action MemoryQuota A

abbrev in_range : ℕ → Method (Unit {0})
in_range n = require (leb n uint64_max) value_error

-- The subtraction of the source is exact, since what is charged stays within the limit.
unfoldable pub try_reserve : ℕ → Method Bool
try_reserve byte_count = in_range byte_count >> (λ q.
    if ltb (q.limit_bytes - q.charged_bytes) byte_count
    then pure false q
    else pure true (record q { charged_bytes = q.charged_bytes + byte_count }))

unfoldable pub release : ℕ → Method (Unit {0})
release byte_count = in_range byte_count >> (λ q.
    (require (leb byte_count q.charged_bytes) value_error
        >> modify (λ r. record r { charged_bytes = r.charged_bytes - byte_count }))
      q)

unfoldable pub set_limit : ℕ → Method (Unit {0})
set_limit limit_bytes = in_range limit_bytes >> (λ q.
    (require (leb q.charged_bytes limit_bytes) value_error
        >> modify (λ r. record r { limit_bytes = limit_bytes }))
      q)

-- What the owner of a ledger may do with it.
pub data Use : Type 0 where
  reserves releases limits : ℕ → Use

unfoldable pub use_quota : Use → MemoryQuota → MemoryQuota
unfolding try_reserve release set_limit
use_quota (reserves n) q = (try_reserve n q).1
use_quota (releases n) q = (release n q).1
use_quota (limits n) q = (set_limit n q).1

unfoldable pub uses : List Use → MemoryQuota → MemoryQuota
uses [] q = q
uses (u ∷ us) q = uses us (use_quota u q)

-- The charges stay within the limit, and the limit within 64 bits.
abbrev pub IsWithin : MemoryQuota → Type 0
IsWithin q = (q.charged_bytes ≤ q.limit_bytes) × (q.limit_bytes ≤ uint64_max)

use_quota-IsWithin : (u : Use) (q : MemoryQuota) → IsWithin q → IsWithin (use_quota u q)
unfolding use_quota
use_quota-IsWithin (reserves n) q h = ground arith
use_quota-IsWithin (releases n) q h = ground arith
use_quota-IsWithin (limits n) q h = ground arith

-- Whatever is reserved, released and limited, also when a call is refused, a ledger that starts within
-- its limit has charges within its limit, and a limit within 64 bits.
pub uses-IsWithin : (us : List Use) (q : MemoryQuota) → IsWithin q → IsWithin (uses us q)
unfolding uses
uses-IsWithin [] q h = h
uses-IsWithin (u ∷ us) q h = uses-IsWithin us (use_quota u q) (use_quota-IsWithin u q h)

-- On a ledger within its limit, a reservation that succeeds and is then released in full leaves the
-- ledger as it was.
pub release-try_reserve :
    (n : ℕ) (q r : MemoryQuota)
    → IsWithin q
    → try_reserve n q ≡ (ok true, r)
    → release n r ≡ (ok tt, q)
unfolding try_reserve release
release-try_reserve n q r h e = ground arith
