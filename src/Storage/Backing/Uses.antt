-- ===== src/Storage/Backing/Uses.antt =====
-- What may be done with a backing, in any order and whatever the driver answers.
use cross_pool.Prelude.{
  ℕ, ◌+◌, ◌-◌, ◌*◌, ◌≤◌, ◌≡◌, ◌≢◌, ◌⊎◌, ◌∙◌, refl, Bool, true, false, not, List, [], ◌∷◌, length,
  all, arith, leb, ltb, ◌==◌, nat_eq, if◌then◌else◌, Bool-cases, inl, inr, ap, Option,
}
use cross_pool.Prelude.Result.{Result, Error, ok, err, DriverFailure, runtime_error, value_error}
use cross_pool.Prelude.Action.{
  Action, pure, raise, reads, modify, require, and_then, ◌>>◌, bind_keeps,
}
use cross_pool.Prelude.Dict.{keys}
use cross_pool.Quota.Profile.{PoolProfile, uint64_max}
use cross_pool.Quota.Ledger
use cross_pool.Quota.Ledger.{MemoryQuota, IsWithin, try_reserve}
use cross_pool.Storage.Backing.{
  Driver, Store, Progress, on_quota, discard, discard_all, missing_of, map_missing, settle, recover,
  is_terminal_device_error, is_exhausted, map_granted, map_absent, unmap_held, try_map, unmap_all,
  unmap, unpinned, held_of, close, range_freed, free_range,
}
use cross_pool.Storage.Backing.Books.{
  IsBooked, release-IsBooked, discard-IsBooked, discard_all-IsBooked,
}
use cross_pool.Storage.Backing.Charges.{
  IsFresh, missing_of-IsFresh, IsAcquired, acquire-IsAcquired, recast-IsBooked,
}

-- A check keeps the object.
pub require_keeps {ℓ} :
    {S A : Type 0} (I : S → Type ℓ) (b : Bool) (e : Error) (m : Action S A) (s : S)
    → I s
    → (b ≡ true → I (m s).1)
    → I ((require b e >> m) s).1
require_keeps I true e m s i next = next refl
require_keeps I false e m s i next = i

pub try_reserve-cases :
    (n : ℕ) (q : MemoryQuota)
    → IsWithin q
    → ((r : Result Bool) × (try_reserve n q ≡ (r, q)) × (r ≢ ok true))
      ⊎ ((try_reserve n q ≡ (ok true, record q { charged_bytes = q.charged_bytes + n }))
          × (q.charged_bytes + n ≤ q.limit_bytes))
unfolding try_reserve
try_reserve-cases n q h = elim (Bool-cases (leb n uint64_max)) [
  | inr big ↦ inl (err value_error, rw big refl, λ e. cc)
  | inl small ↦ elim (Bool-cases (ltb (q.limit_bytes - q.charged_bytes) n)) [
    | inl short ↦ inl (ok false, rw (small, short) refl, λ e. cc)
    | inr enough ↦ inr (rw (small, enough) refl, ground arith)
  ]
]

module _ (pool : PoolProfile) (driver : Driver) (other : ℕ) where
  recover-IsBooked :
      (acquired : List ℕ) (e : Error) (s : Store)
      → IsBooked pool.bundle_bytes other s
      → IsBooked pool.bundle_bytes other (recover driver pool.bundle_bytes acquired e s).1
  recover-IsBooked acquired e s h = elim (Bool-cases (is_terminal_device_error e)) [
    | inl terminal ↦ rw terminal h
    | inr other_error ↦ rw other_error (
        bind_keeps (IsBooked pool.bundle_bytes other)
          (discard_all driver pool.bundle_bytes acquired)
          (λ _. if is_exhausted e then pure false else raise e) s
          (discard_all-IsBooked pool.bundle_bytes other driver acquired s h)
          (λ _ t i. elim (Bool-cases (is_exhausted e)) [ inl x ↦ rw x i | inr x ↦ rw x i ]))
  ]

  settle-IsBooked :
      (missing : ℕ) (r : Result (Unit {0})) (p : Progress)
      → IsAcquired pool.bundle_bytes other driver missing (r, p)
      → IsBooked pool.bundle_bytes other (settle driver pool.bundle_bytes missing r p).1
  settle-IsBooked missing (ok u) p h =
      recast-IsBooked other
        (let full = h.all_of refl in
          ap (λ n. n * pool.bundle_bytes + other) {y = 0} (omega arith) ∙ omega arith)
        h.booked
  settle-IsBooked missing (err e) p h =
      bind_keeps (IsBooked pool.bundle_bytes other)
        (on_quota (Ledger.release ((missing - length p.acquired) * pool.bundle_bytes)))
        (λ _. recover driver pool.bundle_bytes p.acquired e) p.store
        (release-IsBooked pool.bundle_bytes other
          ((missing - length p.acquired) * pool.bundle_bytes) p.store h.booked)
        (λ _ t. recover-IsBooked p.acquired e t)

  map_missing-IsBooked :
      (missing : List ℕ) (s : Store)
      → IsFresh missing s
      → IsBooked pool.bundle_bytes (length missing * pool.bundle_bytes + other) s
      → IsBooked pool.bundle_bytes other (map_missing driver pool.bundle_bytes missing s).1
  unfolding map_missing
  map_missing-IsBooked missing s fresh h = settle-IsBooked (length missing) _ _ (
      acquire-IsAcquired pool.bundle_bytes other driver (length missing) missing [] s (omega arith)
        fresh h)

  pub map_absent-IsBooked :
      (ids : List ℕ) (s : Store)
      → IsBooked pool.bundle_bytes other s
      → IsBooked pool.bundle_bytes other (map_absent pool driver ids s).1
  unfolding map_absent
  map_absent-IsBooked ids s h = elim (try_reserve-cases bytes s.quota h.within) [
    | inl (r, e, refused) ↦ rw e (answered r refused)
    | inr (e, fits) ↦ rw e (
        map_missing-IsBooked (missing_of ids s) granted fresh (record {
          distinct = h.distinct;
          charge = omega (arith, h.charge);
          within = (fits, h.within.1);
        }))
  ]
    where
      bytes : ℕ
      bytes = length (missing_of ids s) * pool.bundle_bytes

      granted : Store
      granted = record s {
        quota = record s.quota { charged_bytes = s.quota.charged_bytes + bytes };
      }

      fresh : IsFresh (missing_of ids s) granted
      fresh =
          let f = missing_of-IsFresh ids s in record { ascending = f.ascending; absent = f.absent }

      answered :
          (r : Result Bool)
          → r ≢ ok true
          → IsBooked pool.bundle_bytes other
              (and_then r (map_granted driver pool.bundle_bytes (missing_of ids s)) s).1
      answered (err e) refused = h
      answered (ok true) refused = absurd (refused refl)
      answered (ok false) refused = h

  pub try_map-IsBooked :
      (ids : List ℕ) (s : Store)
      → IsBooked pool.bundle_bytes other s
      → IsBooked pool.bundle_bytes other (try_map pool driver ids s).1
  unfolding try_map
  try_map-IsBooked ids s h =
      require_keeps (IsBooked pool.bundle_bytes other) (all (λ id. leb id uint64_max) ids)
        value_error _ s h
        λ _.
          require_keeps (IsBooked pool.bundle_bytes other)
            (all (λ id. ltb id pool.bundle_capacity) ids) value_error _ s h
            λ _.
              require_keeps (IsBooked pool.bundle_bytes other) (not (s.base == 0)) runtime_error
                (map_absent pool driver ids) s h λ _. map_absent-IsBooked ids s h

  unmap_all-IsBooked :
      (ids : List ℕ) (released : ℕ) (s : Store)
      → IsBooked pool.bundle_bytes other s
      → IsBooked pool.bundle_bytes other (unmap_all driver pool.bundle_bytes ids released s).1
  unfolding unmap_all
  unmap_all-IsBooked [] released s h = h
  unmap_all-IsBooked (id ∷ ids) released s h =
      bind_keeps (IsBooked pool.bundle_bytes other) (discard driver pool.bundle_bytes id)
        (λ _. unmap_all driver pool.bundle_bytes ids (released + pool.bundle_bytes)) s
        (discard-IsBooked pool.bundle_bytes other id driver s h)
        (λ _ t. unmap_all-IsBooked ids (released + pool.bundle_bytes) t)

  pub unmap-IsBooked :
      (ids : List ℕ) (s : Store)
      → IsBooked pool.bundle_bytes other s
      → IsBooked pool.bundle_bytes other (unmap pool driver ids s).1
  unfolding unmap unmap_held
  unmap-IsBooked ids s h =
      require_keeps (IsBooked pool.bundle_bytes other) (all (λ id. leb id uint64_max) ids)
        value_error _ s h
        λ _.
          require_keeps (IsBooked pool.bundle_bytes other) (all (unpinned pool) ids) value_error _ s
            h
            λ _.
              require_keeps (IsBooked pool.bundle_bytes other) (not (s.base == 0)) runtime_error
                (unmap_held pool driver ids) s h λ _. unmap_all-IsBooked (held_of ids s) 0 s h

  pub close-IsBooked :
      (range : Option DriverFailure) (s : Store)
      → IsBooked pool.bundle_bytes other s
      → IsBooked pool.bundle_bytes other (close pool driver range s).1
  unfolding close
  close-IsBooked range s h = elim (Bool-cases (s.base == 0)) [
    | inl closed ↦ rw closed h
    | inr open_range ↦ rw open_range (
        bind_keeps (IsBooked pool.bundle_bytes other)
          (discard_all driver pool.bundle_bytes (keys s.bundles)) (λ _. free_range pool range) s
          (discard_all-IsBooked pool.bundle_bytes other driver (keys s.bundles) s h)
          (λ _ t. freed t))
  ]
    where
      freed :
          (t : Store)
          → IsBooked pool.bundle_bytes other t
          → IsBooked pool.bundle_bytes other (free_range pool range t).1
      freed t i =
          bind_keeps (IsBooked pool.bundle_bytes other) (reads (λ _. range_freed pool range))
            (λ _. modify (λ u. record u { base = 0 })) t i
            (λ _ u k. record { distinct = k.distinct; charge = k.charge; within = k.within })

-- One call on a backing, with what the driver answers to it.
pub data Call : Type 0 where
  maps unmaps : List ℕ → Driver → Call
  closes : Driver → Option DriverFailure → Call

unfoldable pub call : PoolProfile → Call → Store → Store
unfolding try_map unmap close
call pool (maps ids driver) s = (try_map pool driver ids s).1
call pool (unmaps ids driver) s = (unmap pool driver ids s).1
call pool (closes driver range) s = (close pool driver range s).1

unfoldable pub calls : PoolProfile → List Call → Store → Store
unfolding call
calls pool [] s = s
calls pool (c ∷ cs) s = calls pool cs (call pool c s)

call-IsBooked :
    (pool : PoolProfile) (other : ℕ) (c : Call) (s : Store)
    → IsBooked pool.bundle_bytes other s
    → IsBooked pool.bundle_bytes other (call pool c s)
unfolding call
call-IsBooked pool other (maps ids driver) s = try_map-IsBooked pool driver other ids s
call-IsBooked pool other (unmaps ids driver) s = unmap-IsBooked pool driver other ids s
call-IsBooked pool other (closes driver range) s = close-IsBooked pool driver other range s

-- A store whose ledger is charged with exactly the bundles that the backing retains, beside what others
-- have charged, and within its limit, stays so, whatever is mapped, unmapped and closed, and whatever
-- the driver answers to each call.
pub calls-IsBooked :
    (pool : PoolProfile) (other : ℕ) (cs : List Call) (s : Store)
    → IsBooked pool.bundle_bytes other s
    → IsBooked pool.bundle_bytes other (calls pool cs s)
unfolding calls
calls-IsBooked pool other [] s h = h
calls-IsBooked pool other (c ∷ cs) s h =
    calls-IsBooked pool other cs (call pool c s) (call-IsBooked pool other c s h)
