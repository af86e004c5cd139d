-- ===== src/Storage/Backing/Mapped.antt =====
-- Which bundles a backing has mapped, while its calls of `try_map` return.
use cross_pool.Prelude.{
  ℕ, ◌+◌, ◌≡◌, ◌∙◌, refl, inl, inr, Bool, true, false, not, is_some, List, [], ◌∷◌, all, arith, leb,
  ◌==◌, nat_eq, Bool-cases, ap, subst, sym,
}
use mathlib.Core.Bool.{true≢false}
use cross_pool.Prelude.Result.{ok, value_error, runtime_error}
use cross_pool.Prelude.Action.{bind_ind}
use cross_pool.Prelude.Dict.{keys}
use cross_pool.Prelude.Keys.{elem-keys}
use cross_pool.Prelude.Sets.{elem, sorted_set, elem-select, elem-sorted_set}
use cross_pool.Quota.Profile.{PoolProfile, uint64_max}
use cross_pool.Storage.Backing.{
  Driver, Store, discard, unmap_all, unmap_held, held_of, unmap, unpinned, missing_of, try_map,
}
use cross_pool.Storage.Backing.Books.{IsBooked}
use cross_pool.Storage.Backing.Rollback.{require_ok, try_map-eq-false}
use cross_pool.Storage.Backing.Frame.{
  Keeps, try_map_only, unmap-Keeps, unmap-absent, unmap_all-Keeps,
}
use cross_pool.Storage.Backing.Outcome.{IsMapped, try_map-IsMapped}
use cross_pool.Storage.Backing.Closed.{IsAbsent, discard-Drops}

-- Every bundle that is retained is mapped, but for those of a retirement.
abbrev pub AllMapped : List ℕ → Store → Type 0
AllMapped pending s =
    (b : ℕ) → elem b (keys s.bundles) ≡ true → elem b pending ≡ false → IsMapped b s

-- A bundle that is left as it was is mapped if it was.
kept-IsMapped :
    (pending : List ℕ) (s t : Store) (b : ℕ)
    → AllMapped pending s
    → Keeps b s t
    → elem b (keys t.bundles) ≡ true
    → elem b pending ≡ false
    → IsMapped b t
kept-IsMapped pending s t b sound same held apart =
    let before =
      elem-keys b s.bundles ∙ ap is_some (sym same) ∙ sym (elem-keys b t.bundles) ∙ held in
    let (handle, mapped) = sound b before apart in (handle, same ∙ mapped)

module _ (pool : PoolProfile) (driver : Driver) where
  pub try_map-AllMapped :
      (other : ℕ) (ids pending : List ℕ) (s : Store) (answer : Bool)
      → IsBooked pool.bundle_bytes other s
      → AllMapped pending s
      → (try_map pool driver ids s).0 ≡ ok answer
      → AllMapped pending (try_map pool driver ids s).1
  try_map-AllMapped other ids pending s false booked sound e =
      subst (AllMapped pending)
        (sym (
          try_map-eq-false pool driver ids other s (try_map pool driver ids s).1 booked
            (ap (λ x. (x, (try_map pool driver ids s).1)) e)))
        sound
  try_map-AllMapped other ids pending s true booked sound e = λ b held apart.
      elim (Bool-cases (elem b (missing_of ids s))) [
        | inl asked ↦ try_map-IsMapped pool driver ids s b (inl asked) e
        | inr there ↦
            kept-IsMapped pending s (try_map pool driver ids s).1 b sound
              (try_map_only b pool driver ids s (λ _. there)) held apart
      ]

  -- Whatever the driver answers, the bundles that are not asked for stay mapped.
  pub unmap-AllMapped :
      (ids : List ℕ) (s : Store) → AllMapped ids s → AllMapped ids (unmap pool driver ids s).1
  unmap-AllMapped ids s sound = λ b held apart.
      kept-IsMapped ids s (unmap pool driver ids s).1 b sound
        (unmap-Keeps b pool driver ids s apart) held apart

module _ (driver : Driver) (bundle_bytes id : ℕ) where
  unmap_all-IsAbsent :
      (ids : List ℕ) (released : ℕ) (s : Store) {n : ℕ}
      → elem id ids ≡ true
      → (unmap_all driver bundle_bytes ids released s).0 ≡ ok n
      → IsAbsent id (unmap_all driver bundle_bytes ids released s).1
  unfolding unmap_all elem
  unmap_all-IsAbsent [] released s asked = λ e. cc
  unmap_all-IsAbsent (other ∷ ids) released s {n = n} asked =
      bind_ind (λ r. r.0 ≡ ok n → IsAbsent id r.1) (discard driver bundle_bytes other)
        (λ _. unmap_all driver bundle_bytes ids (released + bundle_bytes)) s
        (λ done t e. elim (Bool-cases (elem id ids)) [
          | inl later ↦ unmap_all-IsAbsent ids (released + bundle_bytes) t later
          | inr now ↦ λ _.
              ap is_some
                (unmap_all-Keeps id driver bundle_bytes ids (released + bundle_bytes) t now)
              ∙ gone t done e (ground (arith, asked, now))
        ])
        (λ _ t _ e. cc)
    where
      gone :
          (t : Store) (done : Unit {0})
          → discard driver bundle_bytes other s ≡ (ok done, t)
          → other ≡ id
          → IsAbsent id t
      gone t done e same =
          subst (λ i. IsAbsent i t) same
            (subst (λ r. r.0 ≡ ok tt → IsAbsent other r.1) e
              (discard-Drops driver bundle_bytes other s) refl)

unmap_held-IsAbsent :
    (pool : PoolProfile) (driver : Driver) (ids : List ℕ) (s : Store) (id n : ℕ)
    → elem id ids ≡ true
    → elem id (keys s.bundles) ≡ true
    → (unmap_held pool driver ids s).0 ≡ ok n
    → IsAbsent id (unmap_held pool driver ids s).1
unfolding unmap_held
unmap_held-IsAbsent pool driver ids s id n asked held =
    unmap_all-IsAbsent driver pool.bundle_bytes id (held_of ids s) 0 s (
      ground (
        arith,
        elem-select (λ i. elem i (keys s.bundles)) id (sorted_set ids),
        elem-sorted_set id ids,
      ))

unmap-IsAbsent :
    (pool : PoolProfile) (driver : Driver) (ids : List ℕ) (s : Store) (id n : ℕ)
    → elem id ids ≡ true
    → elem id (keys s.bundles) ≡ true
    → (unmap pool driver ids s).0 ≡ ok n
    → IsAbsent id (unmap pool driver ids s).1
unfolding unmap
unmap-IsAbsent pool driver ids s id n asked held =
    require_ok (IsAbsent id) (all (λ i. leb i uint64_max) ids) value_error _ s (
      require_ok (IsAbsent id) (all (unpinned pool) ids) value_error _ s (
        require_ok (IsAbsent id) (not (s.base == 0)) runtime_error (unmap_held pool driver ids) s
          (unmap_held-IsAbsent pool driver ids s id n asked held)))

-- Once an unmapping has returned, every bundle that is retained is mapped.
pub unmap-eq-ok :
    (pool : PoolProfile) (driver : Driver) (ids : List ℕ) (s : Store) (n : ℕ)
    → AllMapped ids s
    → (unmap pool driver ids s).0 ≡ ok n
    → AllMapped [] (unmap pool driver ids s).1
unmap-eq-ok pool driver ids s n sound e = λ b held none_. elim (Bool-cases (elem b ids)) [
  | inr apart ↦ unmap-AllMapped pool driver ids s sound b held apart
  | inl asked ↦ elim (Bool-cases (elem b (keys s.bundles))) [
    | inl there ↦ absurd (
        true≢false (
          sym held
          ∙ elem-keys b (unmap pool driver ids s).1.bundles
          ∙ unmap-IsAbsent pool driver ids s b n asked there e))
    | inr absent ↦ absurd (
        true≢false (
          sym held
          ∙ elem-keys b (unmap pool driver ids s).1.bundles
          ∙ ap is_some (unmap-absent b pool driver ids s (sym (elem-keys b s.bundles) ∙ absent))
          ∙ sym (elem-keys b s.bundles)
          ∙ absent))
  ]
]
