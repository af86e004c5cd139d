-- ===== src/Storage/Backing.antt =====
-- `KvVmmBundle` and `KvVmmBacking` of src/xpool/integrations/sglang/ecs/vmm.py, with the checks of
-- driver results in src/xpool/utils/cuda.py. The device driver is a parameter: it answers each call on
-- a bundle with success or a failure. The tensor views of the storage are left out.

pub mod Books
pub mod Charges
pub mod Uses
pub mod Opened
pub mod Closed
pub mod Mapped
pub mod Rollback
pub mod Frame
pub mod Outcome
use cross_pool.Prelude.{
  ℕ, suc, ◌+◌, ◌-◌, ◌*◌, ◌≡◌, Bool, true, false, not, ◌&&◌, Option, none, some, List, [], ◌∷◌, all,
  length, range_from, is_some, leb, ltb, ◌==◌, nat_eq, if◌then◌else◌,
}
use cross_pool.Prelude.Result.{
  Result, Error, ok, err, driver_error, value_error, runtime_error, index_error, memory_error,
  DriverFailure, out_of_memory, terminal_failure, other_failure,
}
use cross_pool.Prelude.Action.{Action, pure, raise, reads, modify, require, and_then, ◌>>=◌, ◌>>◌}
use cross_pool.Prelude.Dict.{lookup, insert, delete, keys}
use cross_pool.Prelude.Sets.{elem, select, sorted_set}
use cross_pool.Quota.Profile.{PoolProfile, uint64_max, bytes_for}
use cross_pool.Quota.Ledger
use cross_pool.Quota.Ledger.{MemoryQuota}
use cross_pool.Storage.Geometry.{KvVmmLayout}

-- What the driver answers to the calls on each bundle; `none` is CUDA_SUCCESS.
pub record Driver : Type 0 where
  pub create : ℕ → Option DriverFailure
  pub mapping : ℕ → Option DriverFailure
  pub access : ℕ → Option DriverFailure
  pub unmapping : ℕ → Option DriverFailure
  pub releasing : ℕ → Option DriverFailure
  pub handle : ℕ → ℕ

abbrev check_driver : Option DriverFailure → Result (Unit {0})
check_driver none = ok tt
check_driver (some failure) = err (driver_error failure)

abbrev is_terminal_device_error : Error → Bool
is_terminal_device_error (driver_error terminal_failure) = true
is_terminal_device_error _ = false

abbrev is_exhausted : Error → Bool
is_exhausted (driver_error out_of_memory) = true
is_exhausted _ = false

pub record KvVmmBundle : Type 0 where
  pub handle : ℕ
  pub mapped : Bool

-- The part of a backing that changes, and the ledger that it shares with other backings.
pub record Store : Type 0 where
  pub base : ℕ
  pub bundles : List (ℕ × KvVmmBundle)
  pub quota : MemoryQuota

abbrev pub Method : Type 0 → Type 0
Method A = Action Store A

-- A call on the shared ledger.
abbrev pub on_quota {ℓ} : {A : Type ℓ} → Action MemoryQuota A → Action Store A
on_quota m s = let (r, q) = m s.quota in (r, record s { quota = q })

abbrev pub put_bundle : ℕ → KvVmmBundle → Method (Unit {0})
put_bundle id bundle = modify (λ s. record s { bundles = insert id bundle s.bundles })

abbrev pub drop_bundle : ℕ → Method (Unit {0})
drop_bundle id = modify (λ s. record s { bundles = delete id s.bundles })

-- `KvVmmBundle.close`, on the bundle that is stored under its number.
unfoldable pub close_bundle : Driver → ℕ → KvVmmBundle → Method (Unit {0})
close_bundle driver id bundle =
    (if bundle.mapped
      then reads (λ _. check_driver (driver.unmapping id))
        >> put_bundle id (record bundle { mapped = false })
      else pure tt)
    >> reads (λ _. check_driver (driver.releasing id))

-- `self.bundles[bundle_id].close(...)`, `del` and the refund.
abbrev pub close_held : Driver → ℕ → ℕ → Option KvVmmBundle → Method (Unit {0})
close_held driver bundle_bytes id none = raise index_error
close_held driver bundle_bytes id (some bundle) = do
  close_bundle driver id bundle
  drop_bundle id
  on_quota (Ledger.release bundle_bytes)

unfoldable pub discard : Driver → ℕ → ℕ → Method (Unit {0})
unfolding close_bundle
discard driver bundle_bytes id s = close_held driver bundle_bytes id (lookup id s.bundles) s

unfoldable pub discard_all : Driver → ℕ → List ℕ → Method (Unit {0})
unfolding discard
discard_all driver bundle_bytes [] = pure tt
discard_all driver bundle_bytes (id ∷ ids) =
    discard driver bundle_bytes id >> discard_all driver bundle_bytes ids

-- The calls that back one bundle. It is retained from its creation on.
abbrev create_bundle : Driver → ℕ → Method (Unit {0})
create_bundle driver id = do
  reads (λ _. check_driver (driver.create id))
  put_bundle id (record { handle = driver.handle id; mapped = false })

abbrev map_bundle : Driver → ℕ → Method (Unit {0})
map_bundle driver id = do
  reads (λ _. check_driver (driver.mapping id))
  put_bundle id (record { handle = driver.handle id; mapped = true })
  reads (λ _. check_driver (driver.access id))

-- The bundles acquired so far, the last one first.
pub record Progress : Type 0 where
  pub acquired : List ℕ
  pub store : Store

abbrev pub on_store {ℓ} : {A : Type ℓ} → Action Store A → Action Progress A
on_store m p = let (r, s) = m p.store in (r, record p { store = s })

-- The `for` of `try_map`.
unfoldable pub acquire : Driver → List ℕ → Action Progress (Unit {0})
acquire driver [] = pure tt
acquire driver (id ∷ ids) = do
  on_store (create_bundle driver id)
  modify (λ p. record p { acquired = id ∷ p.acquired })
  on_store (map_bundle driver id)
  acquire driver ids

-- The `except` of `try_map`, after the refund of what was not acquired.
abbrev pub recover : Driver → ℕ → List ℕ → Error → Method Bool
recover driver bundle_bytes acquired e =
    if is_terminal_device_error e
    then raise e
    else (discard_all driver bundle_bytes acquired
        >> (if is_exhausted e then pure false else raise e))

abbrev pub settle : Driver → ℕ → ℕ → Result (Unit {0}) → Progress → Result Bool × Store
settle driver bundle_bytes missing (ok _) p = (ok true, p.store)
settle driver bundle_bytes missing (err e) p =
    (on_quota (Ledger.release ((missing - length p.acquired) * bundle_bytes))
        >> recover driver bundle_bytes p.acquired e)
      p.store

unfoldable pub map_missing : Driver → ℕ → List ℕ → Method Bool
unfolding acquire discard_all
map_missing driver bundle_bytes missing s =
    let (r, p) = acquire driver missing (record { acquired = []; store = s }) in
    settle driver bundle_bytes (length missing) r p

abbrev pub require_open : Method (Unit {0})
require_open s = require (not (s.base == 0)) runtime_error s

abbrev pub missing_of : List ℕ → Store → List ℕ
missing_of ids s = select (λ id. not (elem id (keys s.bundles))) (sorted_set ids)

abbrev map_granted : Driver → ℕ → List ℕ → Bool → Method Bool
map_granted driver bundle_bytes missing granted =
    if granted then map_missing driver bundle_bytes missing else pure false

unfoldable pub map_absent : PoolProfile → Driver → List ℕ → Method Bool
unfolding map_missing
map_absent pool driver ids s =
    (on_quota (Ledger.try_reserve (length (missing_of ids s) * pool.bundle_bytes))
        >>= map_granted driver pool.bundle_bytes (missing_of ids s))
      s

unfoldable pub try_map : PoolProfile → Driver → List ℕ → Method Bool
unfolding map_absent sorted_set
try_map pool driver ids = do
  require (all (λ id. leb id uint64_max) ids) value_error
  require (all (λ id. ltb id pool.bundle_capacity) ids) value_error
  require_open
  map_absent pool driver ids

-- The `for` of `unmap`, which adds up what it released.
unfoldable pub unmap_all : Driver → ℕ → List ℕ → ℕ → Method ℕ
unmap_all driver bundle_bytes [] released = pure released
unmap_all driver bundle_bytes (id ∷ ids) released =
    discard driver bundle_bytes id >> unmap_all driver bundle_bytes ids (released + bundle_bytes)

abbrev pub unpinned : PoolProfile → ℕ → Bool
unpinned pool id = leb pool.floor_bundles id && ltb id pool.bundle_capacity

abbrev pub held_of : List ℕ → Store → List ℕ
held_of ids s = select (λ id. elem id (keys s.bundles)) (sorted_set ids)

unfoldable pub unmap_held : PoolProfile → Driver → List ℕ → Method ℕ
unfolding unmap_all
unmap_held pool driver ids s = unmap_all driver pool.bundle_bytes (held_of ids s) 0 s

unfoldable pub unmap : PoolProfile → Driver → List ℕ → Method ℕ
unfolding unmap_held sorted_set
unmap pool driver ids = do
  require (all (λ id. leb id uint64_max) ids) value_error
  require (all (unpinned pool) ids) value_error
  require_open
  unmap_held pool driver ids

abbrev pub backed_bytes : PoolProfile → Store → ℕ
backed_bytes pool s = length s.bundles * pool.bundle_bytes

-- A value that is only computed for its error.
abbrev and_check {ℓ} : {A : Type ℓ} → Result A → Result (Unit {0}) → Result (Unit {0})
and_check (err e) next = err e
and_check (ok _) next = next

-- The driver also answers the call that frees the address range.
abbrev pub range_freed : PoolProfile → Option DriverFailure → Result (Unit {0})
range_freed pool range = and_check (bytes_for pool pool.bundle_capacity) (check_driver range)

abbrev pub free_range : PoolProfile → Option DriverFailure → Method (Unit {0})
free_range pool range = reads (λ _. range_freed pool range) >> modify (λ s. record s { base = 0 })

unfoldable pub close : PoolProfile → Driver → Option DriverFailure → Method (Unit {0})
close pool driver range s =
    if s.base == 0
    then pure tt s
    else (discard_all driver pool.bundle_bytes (keys s.bundles) >> free_range pool range) s

-- The end of the constructor, once the address range is reserved: the floor is mapped, and a backing
-- that fails without a bundle is closed again.
abbrev require_floor : Bool → Method (Unit {0})
require_floor mapped = require mapped memory_error

abbrev close_unbacked : PoolProfile → Driver → Option DriverFailure → Error → Method (Unit {0})
close_unbacked pool driver range e s =
    if length s.bundles == 0 && not (is_terminal_device_error e)
    then (close pool driver range >> raise e) s
    else raise e s

abbrev built :
    PoolProfile
    → Driver
    → Option DriverFailure
    → Result (Unit {0}) × Store
    → Result (Unit {0}) × Store
built pool driver range (ok _, s) = (ok tt, s)
built pool driver range (err e, s) = close_unbacked pool driver range e s

unfoldable pub new_backing :
    PoolProfile → Driver → Option DriverFailure → ℕ → MemoryQuota → Result (Unit {0}) × Store
unfolding try_map close
new_backing pool driver range base quota = built pool driver range (
    (try_map pool driver (range_from 0 pool.floor_bundles) >>= require_floor)
      (record { base = base; bundles = []; quota = quota }))
