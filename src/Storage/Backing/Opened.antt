-- ===== src/Storage/Backing/Opened.antt =====
-- The charges of `KvVmmBacking.__init__` in src/xpool/integrations/sglang/ecs/vmm.py.
use cross_pool.Prelude.{
  ℕ, inl, inr, Bool, true, false, not, ◌&&◌, Option, [], length, range_from, arith, ◌==◌, nat_eq,
  Bool-cases,
}
use cross_pool.Prelude.Result.{Result, ok, err, DriverFailure}
use cross_pool.Prelude.Action.{raise, bind_keeps, ◌>>=◌}
use cross_pool.Prelude.Keys.{HasDistinctKeys}
use cross_pool.Quota.Profile.{PoolProfile}
use cross_pool.Quota.Ledger.{MemoryQuota, IsWithin}
use cross_pool.Storage.Backing.{
  Driver, Store, is_terminal_device_error, try_map, close, require_floor, built, new_backing,
}
use cross_pool.Storage.Backing.Books.{IsBooked}
use cross_pool.Storage.Backing.Uses.{try_map-IsBooked, close-IsBooked}

module _ (pool : PoolProfile) (driver : Driver) (range : Option DriverFailure) (base : ℕ)
    (quota : MemoryQuota) where
  abbrev reserved : Store
  reserved = record { base = base; bundles = []; quota = quota }

  reserved-IsBooked : IsWithin quota → IsBooked pool.bundle_bytes quota.charged_bytes reserved
  unfolding HasDistinctKeys
  reserved-IsBooked h = record { distinct = tt; charge = omega arith; within = h }

  built-IsBooked :
      (r : Result (Unit {0})) (s : Store)
      → IsBooked pool.bundle_bytes quota.charged_bytes s
      → IsBooked pool.bundle_bytes quota.charged_bytes (built pool driver range (r, s)).1
  built-IsBooked (ok done) s h = h
  built-IsBooked (err e) s h =
      elim (Bool-cases (length s.bundles == 0 && not (is_terminal_device_error e))) [
        | inr kept ↦ rw kept h
        | inl unbacked ↦ rw unbacked (
            bind_keeps (IsBooked pool.bundle_bytes quota.charged_bytes) (close pool driver range)
              (λ _. raise e) s (close-IsBooked pool driver quota.charged_bytes range s h)
              (λ _ t k. k))
      ]

  -- Whatever the driver answers while a backing is built on a ledger within its limit, also when the
  -- construction fails, the ledger is then charged with exactly the bundles that are retained, beside
  -- what it was charged with before, and is within its limit.
  pub new_backing-IsBooked :
      IsWithin quota
      → IsBooked pool.bundle_bytes quota.charged_bytes (new_backing pool driver range base quota).1
  unfolding new_backing
  new_backing-IsBooked h =
      let mapped =
        try_map-IsBooked pool driver quota.charged_bytes (range_from 0 pool.floor_bundles) reserved
          (reserved-IsBooked h) in
      let r = (try_map pool driver (range_from 0 pool.floor_bundles) >>= require_floor) reserved in
      built-IsBooked r.0 r.1 (
        bind_keeps (IsBooked pool.bundle_bytes quota.charged_bytes)
          (try_map pool driver (range_from 0 pool.floor_bundles)) require_floor reserved mapped
          (λ b t k. require_kept b t k))
    where
      require_kept :
          (b : Bool) (t : Store)
          → IsBooked pool.bundle_bytes quota.charged_bytes t
          → IsBooked pool.bundle_bytes quota.charged_bytes (require_floor b t).1
      require_kept true t k = k
      require_kept false t k = k
