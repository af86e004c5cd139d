-- ===== src/Storage/Backing/Outcome.antt =====
-- What a call of a backing that succeeds has done.
use cross_pool.Prelude.{
  ℕ, ◌-◌, ◌*◌, ◌≡◌, ◌∙◌, refl, Bool, true, false, not, inl, inr, some, Option-cases, is_some, List,
  [], ◌∷◌, length, all, arith, leb, ltb, ◌==◌, nat_eq, if◌then◌else◌, Bool-cases, ap, subst, ◌⊎◌,
  ◌≢◌,
}
use cross_pool.Prelude.Result.{Result, Error, ok, err, value_error, runtime_error}
use cross_pool.Prelude.Action.{pure, raise, bind_ind}
use cross_pool.Prelude.Dict.{lookup, lookup-insert, keys}
use cross_pool.Prelude.Keys.{elem-keys}
use cross_pool.Prelude.Sets.{elem, sorted_set, elem-select, elem-sorted_set}
use cross_pool.Quota.Profile.{PoolProfile, uint64_max}
use cross_pool.Quota.Ledger
use cross_pool.Storage.Backing.{
  Driver, KvVmmBundle, Store, Progress, on_quota, put_bundle, acquire, discard_all, missing_of,
  map_missing, settle, recover, is_terminal_device_error, is_exhausted, map_granted, map_absent,
  try_map,
}
use cross_pool.Storage.Backing.Rollback.{require_ok}
use cross_pool.Storage.Backing.Frame.{put_bundle-Keeps}

-- The bundle is backed by memory that the device maps.
abbrev pub IsMapped : ℕ → Store → Type 0
IsMapped id s =
    (handle : ℕ) × (lookup id s.bundles ≡ some (record { handle = handle; mapped = true }))

module _ (driver : Driver) (id : ℕ) where
  acquire-IsMapped :
      (ids acquired : List ℕ) (s : Store)
      → elem id ids ≡ true ⊎ IsMapped id s
      → (acquire driver ids (record { acquired = acquired; store = s })).0 ≡ ok tt
      → IsMapped id (acquire driver ids (record { acquired = acquired; store = s })).1.store
  unfolding acquire elem
  acquire-IsMapped [] acquired s h = λ _. elim h [ inl e ↦ cc | inr held ↦ held ]
  acquire-IsMapped (other ∷ ids) acquired s h = elim (Option-cases (driver.create other)) [
    | inr (f, e) ↦ rw e (λ same. cc)
    | inl e ↦ elim (Option-cases (driver.mapping other)) [
      | inr (f, m) ↦ rw (e, m) (λ same. cc)
      | inl m ↦ elim (Option-cases (driver.access other)) [
        | inr (f, a) ↦ rw (e, m, a) (λ same. cc)
        | inl a ↦ rw (e, m, a) (acquire-IsMapped ids (other ∷ acquired) after next)
      ]
    ]
  ]
    where
      empty : KvVmmBundle
      empty = record { handle = driver.handle other; mapped = false }

      full : KvVmmBundle
      full = record { handle = driver.handle other; mapped = true }

      after : Store
      after = (put_bundle other full (put_bundle other empty s).1).1

      next : elem id ids ≡ true ⊎ IsMapped id after
      next = elim (Bool-cases (other == id)) [
        | inl same ↦ inr (
          driver.handle other,
          rw (lookup-insert other id full (put_bundle other empty s).1.bundles, same) refl,
        )
        | inr apart ↦ elim h [
          | inl e ↦ inl (ground arith)
          | inr (handle, held) ↦ inr (
            handle,
            put_bundle-Keeps id other full (put_bundle other empty s).1 apart
                ∙ put_bundle-Keeps id other empty s apart
                ∙ held,
          )
        ]
      ]

  recover-not_true :
      (bundle_bytes : ℕ) (acquired : List ℕ) (e : Error) (s : Store)
      → (recover driver bundle_bytes acquired e s).0 ≢ ok true
  recover-not_true bundle_bytes acquired e s = elim (Bool-cases (is_terminal_device_error e)) [
    | inl terminal ↦ rw terminal (λ same. cc)
    | inr other ↦ rw other (
        bind_ind (λ r. r.0 ≢ ok true) (discard_all driver bundle_bytes acquired)
          (λ _. if is_exhausted e then pure false else raise e) s
          (λ _ t closed. elim (Bool-cases (is_exhausted e)) [
            | inl x ↦ rw x (λ same. cc)
            | inr x ↦ rw x (λ same. cc)
          ])
          (λ x t closed same. cc))
  ]

  settle-IsMapped :
      (bundle_bytes missing : ℕ) (r : Result (Unit {0})) (p : Progress)
      → (r ≡ ok tt → IsMapped id p.store)
      → (settle driver bundle_bytes missing r p).0 ≡ ok true
      → IsMapped id (settle driver bundle_bytes missing r p).1
  settle-IsMapped bundle_bytes missing (ok u) p h = λ _. h refl
  settle-IsMapped bundle_bytes missing (err e) p h =
      bind_ind (λ r. r.0 ≡ ok true → IsMapped id r.1)
        (on_quota (Ledger.release ((missing - length p.acquired) * bundle_bytes)))
        (λ _. recover driver bundle_bytes p.acquired e) p.store
        (λ _ t closed same. absurd (recover-not_true bundle_bytes p.acquired e t same))
        (λ x t closed same. cc)

  map_missing-IsMapped :
      (bundle_bytes : ℕ) (missing : List ℕ) (s : Store)
      → elem id missing ≡ true ⊎ IsMapped id s
      → (map_missing driver bundle_bytes missing s).0 ≡ ok true
      → IsMapped id (map_missing driver bundle_bytes missing s).1
  unfolding map_missing
  map_missing-IsMapped bundle_bytes missing s h =
      settle-IsMapped bundle_bytes (length missing) _ _ (acquire-IsMapped missing [] s h)

  map_absent-IsMapped :
      (pool : PoolProfile) (ids : List ℕ) (s : Store)
      → elem id (missing_of ids s) ≡ true ⊎ IsMapped id s
      → (map_absent pool driver ids s).0 ≡ ok true
      → IsMapped id (map_absent pool driver ids s).1
  unfolding map_absent
  map_absent-IsMapped pool ids s h =
      bind_ind (λ r. r.0 ≡ ok true → IsMapped id r.1)
        (on_quota (Ledger.try_reserve (length (missing_of ids s) * pool.bundle_bytes)))
        (map_granted driver pool.bundle_bytes (missing_of ids s)) s
        (λ granted t e. elim (Bool-cases granted) [
          | inl g ↦
              rw g (map_missing-IsMapped pool.bundle_bytes (missing_of ids s) t (reserved t e))
          | inr g ↦ rw g (λ same. cc)
        ])
        (λ x t e same. cc)
    where
      reserved :
          {r : Result Bool} (t : Store)
          → on_quota (Ledger.try_reserve (length (missing_of ids s) * pool.bundle_bytes)) s ≡ (r, t)
          → elem id (missing_of ids s) ≡ true ⊎ IsMapped id t
      reserved t e = elim h [
        | inl asked ↦ inl asked
        | inr (handle, held) ↦ inr (
          handle,
          subst (λ x. lookup id x.bundles ≡ some (record { handle = handle; mapped = true }))
              (ap (λ r. r.1) e) held,
        )
      ]

pub try_map-IsMapped :
    (pool : PoolProfile) (driver : Driver) (ids : List ℕ) (s : Store) (id : ℕ)
    → elem id (missing_of ids s) ≡ true ⊎ IsMapped id s
    → (try_map pool driver ids s).0 ≡ ok true
    → IsMapped id (try_map pool driver ids s).1
unfolding try_map
try_map-IsMapped pool driver ids s id there =
    require_ok (IsMapped id) (all (λ i. leb i uint64_max) ids) value_error _ s (
      require_ok (IsMapped id) (all (λ i. ltb i pool.bundle_capacity) ids) value_error _ s (
        require_ok (IsMapped id) (not (s.base == 0)) runtime_error (map_absent pool driver ids) s
          (map_absent-IsMapped driver id pool ids s there)))

-- A mapping that answers `True` leaves every bundle that it was asked for mapped, where the bundles
-- that were held before are.
pub try_map-eq-true :
    (pool : PoolProfile) (driver : Driver) (ids : List ℕ) (s t : Store) (id : ℕ)
    → ((held : ℕ) → is_some (lookup held s.bundles) ≡ true → IsMapped held s)
    → try_map pool driver ids s ≡ (ok true, t)
    → elem id ids ≡ true
    → IsMapped id t
try_map-eq-true pool driver ids s t id sound e asked =
    subst (λ r. IsMapped id r.1) e (try_map-IsMapped pool driver ids s id there (ap (λ r. r.0) e))
  where
    there : elem id (missing_of ids s) ≡ true ⊎ IsMapped id s
    there = elim (Bool-cases (is_some (lookup id s.bundles))) [
      | inl held ↦ inr (sound id held)
      | inr new ↦ inl (
          ground (
            arith,
            elem-select (λ i. not (elem i (keys s.bundles))) id (sorted_set ids),
            elem-sorted_set id ids,
            elem-keys id s.bundles,
          ))
    ]
