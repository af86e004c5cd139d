-- ===== src/Storage/Backing/Frame.antt =====
-- Which bundles a call of a backing touches, however it ends.
use cross_pool.Prelude.{
  ℕ, ◌+◌, ◌-◌, ◌*◌, ◌≤◌, ◌≡◌, ◌∙◌, refl, Bool, true, false, not, inl, inr, Option, none, some,
  Option-cases, is_some, List, [], ◌∷◌, length, all, arith, leb, ltb, ◌==◌, nat_eq, if◌then◌else◌,
  Bool-cases, and_true, ◌<◌,
}
use cross_pool.Prelude.Result.{Result, Error, ok, err, value_error, runtime_error}
use cross_pool.Prelude.Action.{pure, raise, ◌>>◌, bind_keeps}
use cross_pool.Prelude.Dict.{lookup, lookup-insert, lookup-delete, keys}
use cross_pool.Prelude.Keys.{elem-keys}
use cross_pool.Prelude.Sets.{elem, sorted_set, elem-select, elem-sorted_set}
use cross_pool.Quota.Profile.{PoolProfile, uint64_max}
use cross_pool.Quota.Ledger
use cross_pool.Quota.Ledger.{MemoryQuota}
use cross_pool.Storage.Backing.{
  Driver, KvVmmBundle, Store, Progress, on_quota, put_bundle, drop_bundle, acquire, close_bundle,
  close_held, discard, discard_all, missing_of, map_missing, settle, recover,
  is_terminal_device_error, is_exhausted, map_granted, map_absent, try_map, unmap_all, unmap_held,
  held_of, unmap, unpinned,
}
use cross_pool.Storage.Backing.Books.{close_bundle-state}
use cross_pool.Storage.Backing.Uses.{require_keeps}

-- The bundle stored under a number is what it was.
abbrev pub Keeps : ℕ → Store → Store → Type 0
Keeps id s t = lookup id t.bundles ≡ lookup id s.bundles

pub all-elem :
    (p : ℕ → Bool) (ids : List ℕ) (id : ℕ) → all p ids ≡ true → elem id ids ≡ true → p id ≡ true
unfolding elem
all-elem p [] id h e = cc
all-elem p (x ∷ xs) id h e = elim (Bool-cases (x == id)) [
  | inl same ↦ let it : x ≡ id = ground arith in rw it at (and_true (p x) (all p xs) h).0
  | inr other ↦ all-elem p xs id (and_true (p x) (all p xs) h).1 (ground arith)
]

module _ (id : ℕ) where
  pub put_bundle-Keeps :
      (other : ℕ) (bundle : KvVmmBundle) (s : Store)
      → (other == id) ≡ false
      → Keeps id s (put_bundle other bundle s).1
  put_bundle-Keeps other bundle s apart = rw (lookup-insert other id bundle s.bundles, apart) refl

  drop_bundle-Keeps :
      (other : ℕ) (s : Store) → (other == id) ≡ false → Keeps id s (drop_bundle other s).1
  drop_bundle-Keeps other s apart = rw (lookup-delete other id s.bundles, apart) refl

  discard-Keeps :
      (driver : Driver) (bundle_bytes other : ℕ) (s : Store)
      → (other == id) ≡ false
      → Keeps id s (discard driver bundle_bytes other s).1
  unfolding discard
  discard-Keeps driver bundle_bytes other s apart = cases (lookup other s.bundles)
    where
      closed : (bundle : KvVmmBundle) → Keeps id s (close_bundle driver other bundle s).1
      closed bundle = elim (close_bundle-state driver other bundle s) [
        | inl same ↦ rw same refl
        | inr put ↦ rw put (put_bundle-Keeps other (record bundle { mapped = false }) s apart)
      ]

      cases : (o : Option KvVmmBundle) → Keeps id s (close_held driver bundle_bytes other o s).1
      cases none = refl
      cases (some bundle) =
          bind_keeps (Keeps id s) (close_bundle driver other bundle)
            (λ _. drop_bundle other >> on_quota (Ledger.release bundle_bytes)) s (closed bundle)
            (λ _ t same. drop_bundle-Keeps other t apart ∙ same)

  pub discard_all-Keeps :
      (driver : Driver) (bundle_bytes : ℕ) (ids : List ℕ) (s : Store)
      → elem id ids ≡ false
      → Keeps id s (discard_all driver bundle_bytes ids s).1
  unfolding discard_all elem
  discard_all-Keeps driver bundle_bytes [] s apart = refl
  discard_all-Keeps driver bundle_bytes (other ∷ ids) s apart =
      bind_keeps (Keeps id s) (discard driver bundle_bytes other)
        (λ _. discard_all driver bundle_bytes ids) s
        (discard-Keeps driver bundle_bytes other s (ground arith))
        (λ _ t same. discard_all-Keeps driver bundle_bytes ids t (ground arith) ∙ same)

  -- What `acquire` writes are the bundles that it acquires, and those are of its list.
  acquire-Keeps :
      (driver : Driver) (ids acquired : List ℕ) (s : Store)
      → elem id ids ≡ false
      → elem id acquired ≡ false
      → let p = (acquire driver ids (record { acquired = acquired; store = s })).1 in
        Keeps id s p.store × (elem id p.acquired ≡ false)
  unfolding acquire elem
  acquire-Keeps driver [] acquired s apart before = (refl, before)
  acquire-Keeps driver (other ∷ ids) acquired s apart before =
      elim (Option-cases (driver.create other)) [
        | inr (f, e) ↦ rw e (refl, before)
        | inl e ↦ elim (Option-cases (driver.mapping other)) [
          | inr (f, m) ↦ rw (e, m) (created, ground arith)
          | inl m ↦ elim (Option-cases (driver.access other)) [
            | inr (f, a) ↦ rw (e, m, a) (mapped, ground arith)
            | inl a ↦
                rw (e, m, a)
                  (let (same, none_of) =
                      acquire-Keeps driver ids (other ∷ acquired)
                        (put_bundle other full (put_bundle other empty s).1).1 (ground arith)
                        (ground arith) in
                    (same ∙ mapped, none_of))
          ]
        ]
      ]
    where
      empty : KvVmmBundle
      empty = record { handle = driver.handle other; mapped = false }

      full : KvVmmBundle
      full = record { handle = driver.handle other; mapped = true }

      created : Keeps id s (put_bundle other empty s).1
      created = put_bundle-Keeps other empty s (ground arith)

      mapped : Keeps id s (put_bundle other full (put_bundle other empty s).1).1
      mapped = put_bundle-Keeps other full (put_bundle other empty s).1 (ground arith) ∙ created

  recover-Keeps :
      (driver : Driver) (bundle_bytes : ℕ) (acquired : List ℕ) (e : Error) (s : Store)
      → elem id acquired ≡ false
      → Keeps id s (recover driver bundle_bytes acquired e s).1
  recover-Keeps driver bundle_bytes acquired e s apart =
      elim (Bool-cases (is_terminal_device_error e)) [
        | inl terminal ↦ rw terminal refl
        | inr other ↦ rw other (
            bind_keeps (Keeps id s) (discard_all driver bundle_bytes acquired)
              (λ _. if is_exhausted e then pure false else raise e) s
              (discard_all-Keeps driver bundle_bytes acquired s apart)
              (λ _ t same. elim (Bool-cases (is_exhausted e)) [
                | inl x ↦ rw x same
                | inr x ↦ rw x same
              ]))
      ]

  settle-Keeps :
      (driver : Driver) (bundle_bytes missing : ℕ) (r : Result (Unit {0})) (p : Progress)
      → elem id p.acquired ≡ false
      → Keeps id p.store (settle driver bundle_bytes missing r p).1
  settle-Keeps driver bundle_bytes missing (ok u) p apart = refl
  settle-Keeps driver bundle_bytes missing (err e) p apart =
      bind_keeps (Keeps id p.store)
        (on_quota (Ledger.release ((missing - length p.acquired) * bundle_bytes)))
        (λ _. recover driver bundle_bytes p.acquired e) p.store refl
        (λ _ t same. recover-Keeps driver bundle_bytes p.acquired e t apart ∙ same)

  map_missing-Keeps :
      (driver : Driver) (bundle_bytes : ℕ) (missing : List ℕ) (s : Store)
      → elem id missing ≡ false
      → Keeps id s (map_missing driver bundle_bytes missing s).1
  unfolding map_missing elem
  map_missing-Keeps driver bundle_bytes missing s apart =
      let (same, none_of) = acquire-Keeps driver missing [] s apart refl in
      settle-Keeps driver bundle_bytes (length missing) _ _ none_of ∙ same

  map_absent-Keeps :
      (pool : PoolProfile) (driver : Driver) (ids : List ℕ) (s : Store)
      → elem id (missing_of ids s) ≡ false
      → Keeps id s (map_absent pool driver ids s).1
  unfolding map_absent
  map_absent-Keeps pool driver ids s apart =
      bind_keeps (Keeps id s)
        (on_quota (Ledger.try_reserve (length (missing_of ids s) * pool.bundle_bytes)))
        (map_granted driver pool.bundle_bytes (missing_of ids s)) s refl
        (λ granted t same. elim (Bool-cases granted) [
          | inl yes_ ↦
              rw yes_ (map_missing-Keeps driver pool.bundle_bytes (missing_of ids s) t apart ∙ same)
          | inr no_ ↦ rw no_ same
        ])

  pub try_map_only :
      (pool : PoolProfile) (driver : Driver) (ids : List ℕ) (s : Store)
      → (all (λ i. ltb i pool.bundle_capacity) ids ≡ true → elem id (missing_of ids s) ≡ false)
      → Keeps id s (try_map pool driver ids s).1
  unfolding try_map
  try_map_only pool driver ids s apart =
      require_keeps (Keeps id s) (all (λ i. leb i uint64_max) ids) value_error _ s refl λ _.
        require_keeps (Keeps id s) (all (λ i. ltb i pool.bundle_capacity) ids) value_error _ s refl
          λ fits.
            require_keeps (Keeps id s) (not (s.base == 0)) runtime_error
              (map_absent pool driver ids) s refl
              λ _. map_absent-Keeps pool driver ids s (apart fits)

  -- However a mapping ends, a bundle that was held is left as it was.
  pub try_map-Keeps :
      (pool : PoolProfile) (driver : Driver) (ids : List ℕ) (s : Store)
      → is_some (lookup id s.bundles) ≡ true
      → Keeps id s (try_map pool driver ids s).1
  try_map-Keeps pool driver ids s held = try_map_only pool driver ids s λ _. ground (
    arith,
    elem-select (λ i. not (elem i (keys s.bundles))) id (sorted_set ids),
    elem-keys id s.bundles,
  )

  -- A mapping adds no bundle from the capacity on.
  pub try_map-beyond :
      (pool : PoolProfile) (driver : Driver) (ids : List ℕ) (s : Store)
      → pool.bundle_capacity ≤ id
      → Keeps id s (try_map pool driver ids s).1
  try_map-beyond pool driver ids s beyond = try_map_only pool driver ids s λ fits.
      elim (Bool-cases (elem id ids)) [
        | inl asked ↦
            absurd
              (let p = all-elem (λ i. ltb i pool.bundle_capacity) ids id fits asked in ground arith)
        | inr apart ↦ ground (
          arith,
          elem-select (λ i. not (elem i (keys s.bundles))) id (sorted_set ids),
          elem-sorted_set id ids,
        )
      ]

  pub unmap_all-Keeps :
      (driver : Driver) (bundle_bytes : ℕ) (ids : List ℕ) (released : ℕ) (s : Store)
      → elem id ids ≡ false
      → Keeps id s (unmap_all driver bundle_bytes ids released s).1
  unfolding unmap_all elem
  unmap_all-Keeps driver bundle_bytes [] released s apart = refl
  unmap_all-Keeps driver bundle_bytes (other ∷ ids) released s apart =
      bind_keeps (Keeps id s) (discard driver bundle_bytes other)
        (λ _. unmap_all driver bundle_bytes ids (released + bundle_bytes)) s
        (discard-Keeps driver bundle_bytes other s (ground arith))
        (λ _ t same.
          unmap_all-Keeps driver bundle_bytes ids (released + bundle_bytes) t (ground arith) ∙ same)

  unmap_only :
      (pool : PoolProfile) (driver : Driver) (ids : List ℕ) (s : Store)
      → elem id (held_of ids s) ≡ false
      → Keeps id s (unmap pool driver ids s).1
  unfolding unmap unmap_held
  unmap_only pool driver ids s apart =
      require_keeps (Keeps id s) (all (λ i. leb i uint64_max) ids) value_error _ s refl λ _.
        require_keeps (Keeps id s) (all (unpinned pool) ids) value_error _ s refl λ _.
          require_keeps (Keeps id s) (not (s.base == 0)) runtime_error (unmap_held pool driver ids)
            s refl λ _. unmap_all-Keeps driver pool.bundle_bytes (held_of ids s) 0 s apart

  -- However an unmapping ends, a bundle that it was not asked to release is left as it was.
  pub unmap-Keeps :
      (pool : PoolProfile) (driver : Driver) (ids : List ℕ) (s : Store)
      → elem id ids ≡ false
      → Keeps id s (unmap pool driver ids s).1
  unmap-Keeps pool driver ids s apart = unmap_only pool driver ids s (
      ground (
        arith,
        elem-select (λ i. elem i (keys s.bundles)) id (sorted_set ids),
        elem-sorted_set id ids,
      ))

  -- An unmapping adds no bundle.
  pub unmap-absent :
      (pool : PoolProfile) (driver : Driver) (ids : List ℕ) (s : Store)
      → is_some (lookup id s.bundles) ≡ false
      → Keeps id s (unmap pool driver ids s).1
  unmap-absent pool driver ids s new = unmap_only pool driver ids s (
      ground (
        arith,
        elem-select (λ i. elem i (keys s.bundles)) id (sorted_set ids),
        elem-keys id s.bundles,
      ))

-- However an unmapping ends, a bundle of the floor is left as it was.
pub unmap-floor :
    (pool : PoolProfile) (driver : Driver) (ids : List ℕ) (s : Store) (id : ℕ)
    → id < pool.floor_bundles
    → Keeps id s (unmap pool driver ids s).1
unfolding unmap
unmap-floor pool driver ids s id pinned = elim (Bool-cases (elem id ids)) [
  | inr apart ↦ unmap-Keeps id pool driver ids s apart
  | inl asked ↦ elim (Bool-cases (all (unpinned pool) ids)) [
    | inl free ↦ absurd (let p = all-elem (unpinned pool) ids id free asked in ground arith)
    | inr refused ↦
        require_keeps (Keeps id s) (all (λ i. leb i uint64_max) ids) value_error _ s refl
          (λ _. rw refused refl)
  ]
]
