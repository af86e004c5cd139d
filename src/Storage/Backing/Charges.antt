-- ===== src/Storage/Backing/Charges.antt =====
-- The ledger through whole calls of a backing, with every failure of the driver.
use cross_pool.Prelude.{
  ℕ, suc, ◌+◌, ◌-◌, ◌*◌, ◌≤◌, ◌<◌, ◌≡◌, true, false, not, List, [], ◌∷◌, length, arith, is_some,
  Option-cases, nat_eq, inl, inr, ap,
}
use cross_pool.Prelude.Result.{Result, Error, ok, err, driver_error}
use cross_pool.Prelude.Action.{◌>>◌}
use cross_pool.Prelude.Dict.{lookup, lookup-insert, keys}
use cross_pool.Prelude.Keys.{elem-keys}
use cross_pool.Prelude.Sets.{
  elem, sorted_set, elem-select, IsAscending, sorted_set-IsAscending, select-IsAscending,
}
use native.Mathlib.Nat.{add-mul}
use cross_pool.Storage.Backing.{
  Driver, KvVmmBundle, Store, Progress, on_store, put_bundle, acquire, map_bundle, missing_of,
}
use cross_pool.Storage.Backing.Books.{
  IsBooked, IsHeld, put_held-IsBooked, put_new-IsBooked, put_bundle-IsHeld,
}

-- Bundles that are to be acquired: not held, and increasing.
pub record IsFresh (ids : List ℕ) (s : Store) : Type 0 where
  pub ascending : IsAscending ids
  pub absent : (id : ℕ) → elem id ids ≡ true → is_some (lookup id s.bundles) ≡ false

pub missing_of-IsFresh : (ids : List ℕ) (s : Store) → IsFresh (missing_of ids s) s
missing_of-IsFresh ids s = record {
  ascending =
      select-IsAscending (λ id. not (elem id (keys s.bundles))) (sorted_set ids)
        (sorted_set-IsAscending ids);
  absent = λ id e. ground (
    arith,
    elem-select (λ i. not (elem i (keys s.bundles))) id (sorted_set ids),
    elem-keys id s.bundles,
  );
}

-- What is to be acquired next stays fresh when a smaller bundle is put.
pub put_bundle-IsFresh :
    (id : ℕ) (ids : List ℕ) (bundle : KvVmmBundle) (s : Store)
    → IsFresh ids s
    → ((x : ℕ) → elem x ids ≡ true → id < x)
    → IsFresh ids (put_bundle id bundle s).1
put_bundle-IsFresh id ids bundle s h below = record {
  ascending = h.ascending;
  absent = λ x e. rw (lookup-insert id x bundle s.bundles) (grind (arith, below x e, h.absent x e));
}

pub IsFresh-below :
    (id : ℕ) (ids : List ℕ) (s : Store)
    → IsFresh (id ∷ ids) s
    → (x : ℕ) → elem x ids ≡ true
    → id < x
unfolding IsAscending
IsFresh-below id ids s h = h.ascending.0

pub IsFresh-tail : (id : ℕ) (ids : List ℕ) (s : Store) → IsFresh (id ∷ ids) s → IsFresh ids s
unfolding IsAscending elem
IsFresh-tail id ids s h = record {
  ascending = h.ascending.1;
  absent = λ x e. h.absent x (ground arith);
}

pub IsFresh-head :
    (id : ℕ) (ids : List ℕ) (s : Store)
    → IsFresh (id ∷ ids) s
    → is_some (lookup id s.bundles) ≡ false
unfolding elem
IsFresh-head id ids s h = h.absent id (ground arith)

pub recast-IsBooked :
    {bundle_bytes extra : ℕ} (other : ℕ) {s : Store}
    → extra ≡ other
    → IsBooked bundle_bytes extra s
    → IsBooked bundle_bytes other s
recast-IsBooked other e h = rw e at h

module _ (bundle_bytes other : ℕ) (driver : Driver) (total : ℕ) where
  -- What `acquire` has booked when it stops: the bundles that it acquired, and the bytes of those that
  -- it did not.
  pub record IsAcquired (r : Result (Unit {0}) × Progress) : Type 0 where
    pub some_of : length r.1.acquired ≤ total
    pub booked :
        IsBooked bundle_bytes ((total - length r.1.acquired) * bundle_bytes + other) r.1.store
    pub all_of : r.0 ≡ ok tt → length r.1.acquired ≡ total

  stopped :
      (left : ℕ) (acquired : List ℕ) (e : Error) (s : Store)
      → length acquired + left ≡ total
      → IsBooked bundle_bytes (left * bundle_bytes + other) s
      → IsAcquired (err e, record { acquired = acquired; store = s })
  stopped left acquired e s count h = record {
    some_of = omega arith;
    booked =
        recast-IsBooked ((total - length acquired) * bundle_bytes + other)
          (ap (λ n. n * bundle_bytes + other) (omega arith)) h;
    all_of = λ same. cc;
  }

  -- The rest of the loop once a bundle is created.
  created :
      (id : ℕ) (ids acquired : List ℕ) (t : Store)
      → length acquired + suc (length ids) ≡ total
      → IsFresh ids t
      → ((x : ℕ) → elem x ids ≡ true → id < x)
      → IsHeld id t
      → IsBooked bundle_bytes (length ids * bundle_bytes + other) t
      → ((u : Store)
          → IsFresh ids u
          → IsBooked bundle_bytes (length ids * bundle_bytes + other) u
          → IsAcquired (acquire driver ids (record { acquired = id ∷ acquired; store = u })))
      → IsAcquired (
          (on_store (map_bundle driver id) >> acquire driver ids)
            (record { acquired = id ∷ acquired; store = t }))
  created id ids acquired t n fresh below held h rest = elim (Option-cases (driver.mapping id)) [
    | inr (f, e) ↦ rw e (stopped (length ids) (id ∷ acquired) (driver_error f) t (omega arith) h)
    | inl e ↦ elim (Option-cases (driver.access id)) [
      | inr (f, a) ↦
          rw (e, a)
            (stopped (length ids) (id ∷ acquired) (driver_error f) (put_bundle id bundle t).1
              (omega arith) put)
      | inl a ↦
          rw (e, a)
            (rest (put_bundle id bundle t).1 (put_bundle-IsFresh id ids bundle t fresh below) put)
    ]
  ]
    where
      bundle : KvVmmBundle
      bundle = record { handle = driver.handle id; mapped = true }

      put : IsBooked bundle_bytes (length ids * bundle_bytes + other) (put_bundle id bundle t).1
      put = put_held-IsBooked bundle_bytes (length ids * bundle_bytes + other) id bundle t held h

  pub acquire-IsAcquired :
      (ids acquired : List ℕ) (s : Store)
      → length acquired + length ids ≡ total
      → IsFresh ids s
      → IsBooked bundle_bytes (length ids * bundle_bytes + other) s
      → IsAcquired (acquire driver ids (record { acquired = acquired; store = s }))
  unfolding acquire
  acquire-IsAcquired [] acquired s n fresh h = record {
    some_of = omega arith;
    booked =
        recast-IsBooked ((total - length acquired) * bundle_bytes + other)
          (ap (λ n. n * bundle_bytes + other) (omega arith)) h;
    all_of = λ same. omega arith;
  }
  acquire-IsAcquired (id ∷ ids) acquired s n fresh h = elim (Option-cases (driver.create id)) [
    | inr (f, e) ↦ rw e (stopped (suc (length ids)) acquired (driver_error f) s n h)
    | inl e ↦ rw e (
        created id ids acquired (put_bundle id bundle s).1 n
          (put_bundle-IsFresh id ids bundle s (IsFresh-tail id ids s fresh)
            (IsFresh-below id ids s fresh))
          (IsFresh-below id ids s fresh) (put_bundle-IsHeld id bundle s)
          (put_new-IsBooked bundle_bytes (length ids * bundle_bytes + other) id bundle s
            (IsFresh-head id ids s fresh)
            (recast-IsBooked (bundle_bytes + (length ids * bundle_bytes + other))
              (omega (arith, add-mul 1 (length ids) bundle_bytes)) h))
          (λ u. acquire-IsAcquired ids (id ∷ acquired) u (omega (arith, n))))
  ]
    where
      bundle : KvVmmBundle
      bundle = record { handle = driver.handle id; mapped = false }
