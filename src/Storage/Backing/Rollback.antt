-- ===== src/Storage/Backing/Rollback.antt =====
-- A mapping that the backing refuses leaves no trace.
use cross_pool.Prelude.{
  ℕ, ◌+◌, ◌-◌, ◌*◌, ◌≡◌, ◌≢◌, ◌∙◌, refl, Bool, true, false, not, inl, inr, Option, none, some,
  Option-cases, is_some, List, [], ◌∷◌, length, all, arith, leb, ltb, ◌==◌, nat_eq, if◌then◌else◌,
  Bool-cases, ap, subst, sym,
}
use cross_pool.Prelude.Result.{Result, Error, ok, err, value_error, runtime_error}
use cross_pool.Prelude.Action.{Action, pure, raise, require, and_then, ◌>>◌, bind_ind}
use cross_pool.Prelude.Dict.{lookup, insert, delete}
use cross_pool.Prelude.Keys.{insert_twice, delete-insert_new}
use cross_pool.Quota.Profile.{PoolProfile, uint64_max}
use cross_pool.Quota.Ledger
use cross_pool.Quota.Ledger.{MemoryQuota, IsWithin, release}
use cross_pool.Storage.Backing.{
  Driver, KvVmmBundle, Store, Progress, on_quota, put_bundle, drop_bundle, acquire, close_bundle,
  close_held, discard, discard_all, missing_of, map_missing, settle, recover,
  is_terminal_device_error, is_exhausted, map_granted, map_absent, try_map,
}
use cross_pool.Storage.Backing.Books.{IsBooked, close_bundle-state}
use cross_pool.Storage.Backing.Charges.{
  IsFresh, IsFresh-head, IsFresh-tail, IsFresh-below, put_bundle-IsFresh, missing_of-IsFresh,
}
use cross_pool.Storage.Backing.Uses.{try_reserve-cases, try_map-IsBooked}

-- `s` is `first` with the acquired bundles added one by one, the last one first in the list.
unfoldable Extends : List ℕ → Store → Store → Type 0
Extends [] first s =
    (s.bundles ≡ first.bundles)
    × (s.base ≡ first.base)
    × (s.quota.limit_bytes ≡ first.quota.limit_bytes)
Extends (id ∷ ids) first s =
    (before : Store) × (bundle : KvVmmBundle) × (is_some (lookup id before.bundles) ≡ false)
    × (s.bundles ≡ insert id bundle before.bundles)
    × (s.base ≡ before.base)
    × (s.quota.limit_bytes ≡ before.quota.limit_bytes)
    × Extends ids first before

-- Writing the last bundle again.
Extends-put :
    (id : ℕ) (ids : List ℕ) (bundle : KvVmmBundle) (first s : Store)
    → Extends (id ∷ ids) first s
    → Extends (id ∷ ids) first (put_bundle id bundle s).1
unfolding Extends
Extends-put id ids bundle first s (before, old, new, same, base, limit, rest) = (
  before,
  bundle,
  new,
  ap (insert id bundle) same ∙ insert_twice id old bundle before.bundles,
  base,
  limit,
  rest,
)

Extends-new :
    (id : ℕ) (ids : List ℕ) (bundle : KvVmmBundle) (first s : Store)
    → is_some (lookup id s.bundles) ≡ false
    → Extends ids first s
    → Extends (id ∷ ids) first (put_bundle id bundle s).1
unfolding Extends
Extends-new id ids bundle first s new h = (s, bundle, new, refl, refl, refl, h)

module _ (first : Store) (driver : Driver) where
  acquire-Extends :
      (ids acquired : List ℕ) (s : Store)
      → IsFresh ids s
      → Extends acquired first s
      → let p = (acquire driver ids (record { acquired = acquired; store = s })).1 in
        Extends p.acquired first p.store
  unfolding acquire
  acquire-Extends [] acquired s fresh h = h
  acquire-Extends (id ∷ ids) acquired s fresh h = elim (Option-cases (driver.create id)) [
    | inr (f, e) ↦ rw e h
    | inl e ↦ elim (Option-cases (driver.mapping id)) [
      | inr (f, m) ↦ rw (e, m) created
      | inl m ↦ elim (Option-cases (driver.access id)) [
        | inr (f, a) ↦ rw (e, m, a) mapped
        | inl a ↦
            rw (e, m, a)
              (acquire-Extends ids (id ∷ acquired) (put_bundle id full (put_bundle id empty s).1).1
                (put_bundle-IsFresh id ids full _
                  (put_bundle-IsFresh id ids empty s (IsFresh-tail id ids s fresh)
                    (IsFresh-below id ids s fresh))
                  (IsFresh-below id ids s fresh))
                mapped)
      ]
    ]
  ]
    where
      empty : KvVmmBundle
      empty = record { handle = driver.handle id; mapped = false }

      full : KvVmmBundle
      full = record { handle = driver.handle id; mapped = true }

      created : Extends (id ∷ acquired) first (put_bundle id empty s).1
      created = Extends-new id acquired empty first s (IsFresh-head id ids s fresh) h

      mapped : Extends (id ∷ acquired) first (put_bundle id full (put_bundle id empty s).1).1
      mapped = Extends-put id acquired full first (put_bundle id empty s).1 created

-- A refund changes the charge alone.
release-limit : (bytes : ℕ) (q : MemoryQuota) → (release bytes q).1.limit_bytes ≡ q.limit_bytes
unfolding release
release-limit bytes q = ground arith

release-Extends :
    (ids : List ℕ) (bytes : ℕ) (first s : Store)
    → Extends ids first s
    → Extends ids first (on_quota (Ledger.release bytes) s).1
unfolding Extends
release-Extends [] bytes first s (same, base, limit) =
    (same, base, release-limit bytes s.quota ∙ limit)
release-Extends (id ∷ ids) bytes first s (before, bundle, new, same, base, limit, rest) =
    (before, bundle, new, same, base, release-limit bytes s.quota ∙ limit, rest)

close_bundle-Extends :
    (id : ℕ) (ids : List ℕ) (driver : Driver) (bundle : KvVmmBundle) (first s : Store)
    → Extends (id ∷ ids) first s
    → Extends (id ∷ ids) first (close_bundle driver id bundle s).1
close_bundle-Extends id ids driver bundle first s h = elim (close_bundle-state driver id bundle s) [
  | inl same ↦ rw same h
  | inr put ↦ rw put (Extends-put id ids (record bundle { mapped = false }) first s h)
]

drop-Extends :
    (id : ℕ) (ids : List ℕ) (first s : Store)
    → Extends (id ∷ ids) first s
    → Extends ids first (drop_bundle id s).1
unfolding Extends
drop-Extends id ids first s (before, bundle, new, same, base, limit, rest) =
    shift ids (ap (delete id) same ∙ delete-insert_new id bundle before.bundles new) base limit rest
  where
    shift :
        (ids : List ℕ)
        → delete id s.bundles ≡ before.bundles
        → s.base ≡ before.base
        → s.quota.limit_bytes ≡ before.quota.limit_bytes
        → Extends ids first before
        → Extends ids first (drop_bundle id s).1
    shift [] d b l (e1, e2, e3) = (d ∙ e1, b ∙ e2, l ∙ e3)
    shift (x ∷ xs) d b l (o, u, n, e1, e2, e3, r) = (o, u, n, d ∙ e1, b ∙ e2, l ∙ e3, r)

-- Closing the last bundle, where it succeeds, undoes its addition.
discard-Extends :
    (id : ℕ) (ids : List ℕ) (driver : Driver) (bundle_bytes : ℕ) (first s : Store)
    → Extends (id ∷ ids) first s
    → (discard driver bundle_bytes id s).0 ≡ ok tt
    → Extends ids first (discard driver bundle_bytes id s).1
unfolding discard
discard-Extends id ids driver bundle_bytes first s h done = cases (lookup id s.bundles) done
  where
    cases :
        (o : Option KvVmmBundle)
        → (close_held driver bundle_bytes id o s).0 ≡ ok tt
        → Extends ids first (close_held driver bundle_bytes id o s).1
    cases none = λ e. cc
    cases (some bundle) =
        bind_ind (λ r. r.0 ≡ ok tt → Extends ids first r.1) (close_bundle driver id bundle)
          (λ _. drop_bundle id >> on_quota (Ledger.release bundle_bytes)) s
          (λ _ t closed _. release-Extends ids bundle_bytes first (drop_bundle id t).1 (
            drop-Extends id ids first t (
              let after = close_bundle-Extends id ids driver bundle first s h in
              rw closed at after)))
          (λ e t closed same. cc)

discard_all-Extends :
    (ids : List ℕ) (driver : Driver) (bundle_bytes : ℕ) (first s : Store)
    → Extends ids first s
    → (discard_all driver bundle_bytes ids s).0 ≡ ok tt
    → Extends [] first (discard_all driver bundle_bytes ids s).1
unfolding discard_all
discard_all-Extends [] driver bundle_bytes first s h = λ _. h
discard_all-Extends (id ∷ ids) driver bundle_bytes first s h =
    bind_ind (λ r. r.0 ≡ ok tt → Extends [] first r.1) (discard driver bundle_bytes id)
      (λ _. discard_all driver bundle_bytes ids) s
      (λ _ t closed done.
        discard_all-Extends ids driver bundle_bytes first t
          (let after =
              discard-Extends id ids driver bundle_bytes first s h (ap (λ r. r.0) closed) in
            rw closed at after)
          done)
      (λ e t closed same. cc)

pub require_ok :
    {S A : Type 0} (P : S → Type 0) (b : Bool) (e : Error) (m : Action S A) (s : S) {a : A}
    → ((m s).0 ≡ ok a → P (m s).1)
    → ((require b e >> m) s).0 ≡ ok a
    → P ((require b e >> m) s).1
require_ok P true e m s next = next
require_ok P false e m s next = λ same. cc

-- Once a call that answers `False` has released what it acquired, the store extends the first one by
-- nothing.
module _ (pool : PoolProfile) (driver : Driver) where
  recover-false :
      (acquired : List ℕ) (e : Error) (first s : Store)
      → Extends acquired first s
      → (recover driver pool.bundle_bytes acquired e s).0 ≡ ok false
      → Extends [] first (recover driver pool.bundle_bytes acquired e s).1
  recover-false acquired e first s h = elim (Bool-cases (is_terminal_device_error e)) [
    | inl terminal ↦ rw terminal (λ same. cc)
    | inr other ↦ rw other (
        bind_ind (λ r. r.0 ≡ ok false → Extends [] first r.1)
          (discard_all driver pool.bundle_bytes acquired)
          (λ _. if is_exhausted e then pure false else raise e) s
          (λ _ t closed. elim (Bool-cases (is_exhausted e)) [
            | inl x ↦ rw x (λ _. undone t closed)
            | inr x ↦ rw x (λ same. cc)
          ])
          (λ x t closed same. cc))
  ]
    where
      undone :
          (t : Store)
          → discard_all driver pool.bundle_bytes acquired s ≡ (ok tt, t)
          → Extends [] first t
      undone t closed =
          let after =
            discard_all-Extends acquired driver pool.bundle_bytes first s h
              (ap (λ r. r.0) closed) in
          rw closed at after

  settle-false :
      (missing : ℕ) (r : Result (Unit {0})) (p : Progress) (first : Store)
      → Extends p.acquired first p.store
      → (settle driver pool.bundle_bytes missing r p).0 ≡ ok false
      → Extends [] first (settle driver pool.bundle_bytes missing r p).1
  settle-false missing (ok u) p first h = λ same. cc
  settle-false missing (err e) p first h =
      bind_ind (λ r. r.0 ≡ ok false → Extends [] first r.1)
        (on_quota (Ledger.release ((missing - length p.acquired) * pool.bundle_bytes)))
        (λ _. recover driver pool.bundle_bytes p.acquired e) p.store
        (λ _ t closed. recover-false p.acquired e first t (
          subst (λ r. Extends p.acquired first r.1) closed
            (release-Extends p.acquired ((missing - length p.acquired) * pool.bundle_bytes) first
              p.store h)))
        (λ x t closed same. cc)

  map_absent-false :
      (ids : List ℕ) (s : Store)
      → IsWithin s.quota
      → (map_absent pool driver ids s).0 ≡ ok false
      → Extends [] s (map_absent pool driver ids s).1
  unfolding map_absent map_missing Extends
  map_absent-false ids s within = elim (try_reserve-cases bytes s.quota within) [
    | inl (r, e, refused) ↦ rw e (answered r refused)
    | inr (e, fits) ↦ rw e (
        settle-false (length (missing_of ids s)) _ _ s
          (acquire-Extends s driver (missing_of ids s) [] granted fresh (refl, refl, refl)))
  ]
    where
      bytes : ℕ
      bytes = length (missing_of ids s) * pool.bundle_bytes

      granted : Store
      granted = record s {
        quota = record s.quota { charged_bytes = s.quota.charged_bytes + bytes };
      }

      fresh : IsFresh (missing_of ids s) granted
      fresh =
          let f = missing_of-IsFresh ids s in record { ascending = f.ascending; absent = f.absent }

      answered :
          (r : Result Bool)
          → r ≢ ok true
          → (and_then r (map_granted driver pool.bundle_bytes (missing_of ids s)) s).0 ≡ ok false
          → Extends [] s (and_then r (map_granted driver pool.bundle_bytes (missing_of ids s)) s).1
      answered (err e) refused same = cc
      answered (ok true) refused same = absurd (refused refl)
      answered (ok false) refused same = (refl, refl, refl)

  try_map-false :
      (ids : List ℕ) (s : Store)
      → IsWithin s.quota
      → (try_map pool driver ids s).0 ≡ ok false
      → Extends [] s (try_map pool driver ids s).1
  unfolding try_map
  try_map-false ids s within =
      require_ok (Extends [] s) (all (λ id. leb id uint64_max) ids) value_error _ s (
        require_ok (Extends [] s) (all (λ id. ltb id pool.bundle_capacity) ids) value_error _ s (
          require_ok (Extends [] s) (not (s.base == 0)) runtime_error (map_absent pool driver ids) s
            (map_absent-false ids s within)))

store_ext :
    (s t : Store)
    → t.bundles ≡ s.bundles
    → t.base ≡ s.base
    → t.quota.limit_bytes ≡ s.quota.limit_bytes
    → t.quota.charged_bytes ≡ s.quota.charged_bytes
    → t ≡ s
store_ext s t a b c d = ground arith

-- On a store whose ledger is charged with what it retains, a mapping that answers `False`, because the
-- ledger refuses it or because the device ran out of memory part-way, leaves the bundles and the ledger
-- as they were.
pub try_map-eq-false :
    (pool : PoolProfile) (driver : Driver) (ids : List ℕ) (other : ℕ) (s t : Store)
    → IsBooked pool.bundle_bytes other s
    → try_map pool driver ids s ≡ (ok false, t)
    → t ≡ s
unfolding Extends
try_map-eq-false pool driver ids other s t h e =
    let undone = try_map-false pool driver ids s h.within (ap (λ r. r.0) e) in
    let booked = try_map-IsBooked pool driver other ids s h in
    let after : IsBooked pool.bundle_bytes other t =
      subst (λ r. IsBooked pool.bundle_bytes other r.1) e booked in
    let kept : Extends [] s t = subst (λ r. Extends [] s r.1) e undone in
    store_ext s t kept.0 kept.1 kept.2
      (after.charge ∙ ap (λ bs. length bs * pool.bundle_bytes + other) kept.0 ∙ sym h.charge)
