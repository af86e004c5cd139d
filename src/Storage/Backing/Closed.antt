-- ===== src/Storage/Backing/Closed.antt =====
-- The end of `KvVmmBacking.close` in src/xpool/integrations/sglang/ecs/vmm.py.
use cross_pool.Prelude.{
  ℕ, ◌+◌, ◌*◌, ◌≡◌, ◌∙◌, inl, inr, true, false, Option, none, some, is_some, List, [], ◌∷◌, length,
  refl, arith, ◌==◌, nat_eq, if◌then◌else◌, Bool-cases, ap, subst, sym,
}
use cross_pool.Prelude.Result.{Result, ok, DriverFailure}
use cross_pool.Prelude.Action.{modify, reads, bind_ind, ◌>>◌}
use cross_pool.Prelude.Dict.{lookup, keys, lookup-delete}
use cross_pool.Prelude.Keys.{elem-keys}
use cross_pool.Prelude.Sets.{elem}
use cross_pool.Quota.Profile.{PoolProfile}
use cross_pool.Quota.Ledger
use cross_pool.Storage.Backing.{
  Driver, KvVmmBundle, Store, on_quota, drop_bundle, close_bundle, close_held, discard, discard_all,
  range_freed, free_range, close,
}
use cross_pool.Storage.Backing.Books.{IsBooked}
use cross_pool.Storage.Backing.Uses.{close-IsBooked}
use cross_pool.Storage.Backing.Frame.{discard_all-Keeps}

abbrev pub IsAbsent : ℕ → Store → Type 0
IsAbsent id s = is_some (lookup id s.bundles) ≡ false

-- An action that succeeds leaves the bundle absent.
abbrev pub Drops : ℕ → Result (Unit {0}) × Store → Type 0
Drops id r = r.0 ≡ ok tt → IsAbsent id r.1

module _ (driver : Driver) (bundle_bytes id : ℕ) where
  close_held-Drops :
      (held : Option KvVmmBundle) (s : Store) → Drops id (close_held driver bundle_bytes id held s)
  close_held-Drops none s = λ e. cc
  close_held-Drops (some bundle) s =
      bind_ind (Drops id) (close_bundle driver id bundle)
        (λ _. drop_bundle id >> on_quota (Ledger.release bundle_bytes)) s
        (λ _ t _ e. ap is_some (lookup-delete id id t.bundles) ∙ self (lookup id t.bundles))
        (λ _ t _ e. cc)
    where
      self : (o : Option KvVmmBundle) → is_some (if id == id then none else o) ≡ false
      self o = rw ((nat_eq.beq_iff id id).1 refl) refl

pub discard-Drops :
    (driver : Driver) (bundle_bytes id : ℕ) (s : Store)
    → Drops id (discard driver bundle_bytes id s)
unfolding discard
discard-Drops driver bundle_bytes id s =
    close_held-Drops driver bundle_bytes id (lookup id s.bundles) s

module _ (driver : Driver) (bundle_bytes id : ℕ) where
  discard_all-Drops :
      (ids : List ℕ) (s : Store)
      → elem id ids ≡ true
      → Drops id (discard_all driver bundle_bytes ids s)
  unfolding discard_all elem
  discard_all-Drops [] s asked = λ e. cc
  discard_all-Drops (other ∷ ids) s asked =
      bind_ind (Drops id) (discard driver bundle_bytes other)
        (λ _. discard_all driver bundle_bytes ids) s
        (λ done t e. elim (Bool-cases (elem id ids)) [
          | inl later ↦ discard_all-Drops ids t later
          | inr now ↦ λ _.
              ap is_some (discard_all-Keeps id driver bundle_bytes ids t now)
              ∙ gone t done e (ground (arith, asked, now))
        ])
        (λ _ t _ e. cc)
    where
      gone :
          (t : Store)
          → (done : Unit {0}) → discard driver bundle_bytes other s ≡ (ok done, t)
          → other ≡ id
          → IsAbsent id t
      gone t done e same =
          subst (λ i. IsAbsent i t) same
            (subst (λ r. Drops other r) e (discard-Drops driver bundle_bytes other s) refl)

  discard_keys-Drops : (s : Store) → Drops id (discard_all driver bundle_bytes (keys s.bundles) s)
  discard_keys-Drops s = elim (Bool-cases (elem id (keys s.bundles))) [
    | inl held ↦ discard_all-Drops (keys s.bundles) s held
    | inr never ↦ λ _.
        ap is_some (discard_all-Keeps id driver bundle_bytes (keys s.bundles) s never)
        ∙ sym (elem-keys id s.bundles)
        ∙ never
  ]

module _ (pool : PoolProfile) (driver : Driver) (range : Option DriverFailure) where
  close-Drops :
      (id : ℕ) (s : Store)
      → (s.base == 0) ≡ false
      → (close pool driver range s).0 ≡ ok tt
      → IsAbsent id (close pool driver range s).1 × ((close pool driver range s).1.base ≡ 0)
  unfolding close
  close-Drops id s open_range = rw open_range (
      bind_ind (λ r. r.0 ≡ ok tt → IsAbsent id r.1 × (r.1.base ≡ 0))
        (discard_all driver pool.bundle_bytes (keys s.bundles)) (λ _. free_range pool range) s
        (λ _ t e.
          bind_ind (λ r. r.0 ≡ ok tt → IsAbsent id r.1 × (r.1.base ≡ 0))
            (reads (λ _. range_freed pool range)) (λ _. modify (λ u. record u { base = 0 })) t
            (λ _ u f _. (
              subst (λ x. IsAbsent id x) (ap (λ r. r.1) f)
                  (subst (λ r. Drops id r) e (discard_keys-Drops driver pool.bundle_bytes id s)
                    refl),
              refl,
            ))
            (λ _ u f g. cc))
        (λ _ t e g. cc))

bundles_none : (bs : List (ℕ × KvVmmBundle)) → ((id : ℕ) → is_some (lookup id bs) ≡ false) → bs ≡ []
unfolding lookup
bundles_none [] none_ = refl
bundles_none ((id, bundle) ∷ bs) none_ = absurd (ground (arith, none_ id))

-- A backing that is open, and whose ledger is charged with what it retains, has no bundle and no
-- address range after a close that succeeds, and the ledger is charged with what others have charged.
pub close-eq-ok :
    (pool : PoolProfile) (driver : Driver) (range : Option DriverFailure) (other : ℕ) (s t : Store)
    → IsBooked pool.bundle_bytes other s
    → (s.base == 0) ≡ false
    → close pool driver range s ≡ (ok tt, t)
    → (t.bundles ≡ []) × (t.base ≡ 0) × (t.quota.charged_bytes ≡ other)
close-eq-ok pool driver range other s t booked open_range e =
    let gone : (id : ℕ) → IsAbsent id t × (t.base ≡ 0) = λ id.
      subst (λ r. IsAbsent id r.1 × (r.1.base ≡ 0)) e
        (close-Drops pool driver range id s open_range (ap (λ r. r.0) e)) in
    let empty = bundles_none t.bundles (λ id. (gone id).0) in
    let after : IsBooked pool.bundle_bytes other t =
      subst (λ r. IsBooked pool.bundle_bytes other r.1) e
        (close-IsBooked pool driver other range s booked) in
    (
      empty,
      (gone 0).1,
      after.charge
          ∙ ap (λ (bs : List (ℕ × KvVmmBundle)). length bs * pool.bundle_bytes + other) empty
          ∙ omega arith,
    )
