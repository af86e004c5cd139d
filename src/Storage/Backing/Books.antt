-- ===== src/Storage/Backing/Books.antt =====
-- The bytes charged for a backing: whatever the driver answers, the ledger stays equal to what the
-- backing retains.
use cross_pool.Prelude.{
  ℕ, ◌+◌, ◌-◌, ◌*◌, ◌≤◌, ◌≡◌, ◌⊎◌, inl, inr, beq_refl, refl, true, false, Option, none, some, List,
  [], ◌∷◌, length, arith, is_some, nat_eq, ap,
}
use cross_pool.Prelude.Result.{Result, ok}
use cross_pool.Prelude.Action.{◌>>◌, bind_ind, bind_keeps}
use cross_pool.Prelude.Dict.{lookup, delete, lookup-insert}
use cross_pool.Prelude.Keys.{
  HasDistinctKeys, insert-HasDistinctKeys, delete-HasDistinctKeys, length-insert_new,
  length-insert_held, length-delete,
}
use native.Mathlib.Nat.{add-mul}
use cross_pool.Quota.Ledger
use cross_pool.Quota.Ledger.{MemoryQuota, IsWithin, release}
use cross_pool.Storage.Backing.{
  Driver, KvVmmBundle, Store, close_bundle, close_held, discard, discard_all, put_bundle,
  drop_bundle, on_quota,
}

-- The ledger is charged with the bundles that are retained and with `extra` bytes, and is within its
-- limit.
pub record IsBooked (bundle_bytes extra : ℕ) (s : Store) : Type 0 where
  pub distinct : HasDistinctKeys s.bundles
  pub charge : s.quota.charged_bytes ≡ length s.bundles * bundle_bytes + extra
  pub within : IsWithin s.quota

abbrev pub IsHeld : ℕ → Store → Type 0
IsHeld id s = is_some (lookup id s.bundles) ≡ true

-- A refund of at most what is charged succeeds.
release_charged :
    (bytes : ℕ) (q : MemoryQuota)
    → bytes ≤ q.charged_bytes
    → IsWithin q
    → release bytes q ≡ (ok tt, record q { charged_bytes = q.charged_bytes - bytes })
unfolding release
release_charged bytes q le h = ground arith

-- Closing a bundle changes at most its mapping.
pub close_bundle-state :
    (driver : Driver) (id : ℕ) (bundle : KvVmmBundle) (s : Store)
    → ((close_bundle driver id bundle s).1 ≡ s)
      ⊎ ((close_bundle driver id bundle s).1
          ≡ (put_bundle id (record bundle { mapped = false }) s).1)
unfolding close_bundle
close_bundle-state driver id bundle s = ground arith

pub put_bundle-IsHeld :
    (id : ℕ) (bundle : KvVmmBundle) (s : Store) → IsHeld id (put_bundle id bundle s).1
put_bundle-IsHeld id bundle s = rw (lookup-insert id id bundle s.bundles, beq_refl id) refl

module _ (bundle_bytes : ℕ) where
  pub put_held-IsBooked :
      (extra id : ℕ) (bundle : KvVmmBundle) (s : Store)
      → IsHeld id s
      → IsBooked bundle_bytes extra s
      → IsBooked bundle_bytes extra (put_bundle id bundle s).1
  put_held-IsBooked extra id bundle s held h = record {
    distinct = insert-HasDistinctKeys id bundle s.bundles h.distinct;
    charge = rw (length-insert_held id bundle s.bundles held) h.charge;
    within = h.within;
  }

  pub put_new-IsBooked :
      (extra id : ℕ) (bundle : KvVmmBundle) (s : Store)
      → is_some (lookup id s.bundles) ≡ false
      → IsBooked bundle_bytes (bundle_bytes + extra) s
      → IsBooked bundle_bytes extra (put_bundle id bundle s).1
  put_new-IsBooked extra id bundle s new h = record {
    distinct = insert-HasDistinctKeys id bundle s.bundles h.distinct;
    charge =
        rw (length-insert_new id bundle s.bundles new)
          (omega (arith, h.charge, add-mul (length s.bundles) 1 bundle_bytes));
    within = h.within;
  }

  -- A refund of what is booked as extra.
  pub release-IsBooked :
      (extra bytes : ℕ) (s : Store)
      → IsBooked bundle_bytes (bytes + extra) s
      → IsBooked bundle_bytes extra (on_quota (Ledger.release bytes) s).1
  release-IsBooked extra bytes s h =
      rw (release_charged bytes s.quota (omega (arith, h.charge)) h.within)
        (record { distinct = h.distinct; charge = omega (arith, h.charge); within = ground arith })

  drop-IsBooked :
      (extra id : ℕ) (s : Store)
      → IsHeld id s
      → IsBooked bundle_bytes extra s
      → IsBooked bundle_bytes (bundle_bytes + extra) (drop_bundle id s).1
  drop-IsBooked extra id s held h = record {
    distinct = delete-HasDistinctKeys id s.bundles h.distinct;
    charge = charge;
    within = h.within;
  }
    where
      charge :
          s.quota.charged_bytes
          ≡ length (delete id s.bundles) * bundle_bytes + (bundle_bytes + extra)
      charge = omega (
        arith,
        h.charge,
        ap (λ n. n * bundle_bytes) (length-delete id s.bundles h.distinct held),
        add-mul 1 (length (delete id s.bundles)) bundle_bytes,
      )

  close_bundle-IsBooked :
      (extra id : ℕ) (driver : Driver) (bundle : KvVmmBundle) (s : Store)
      → IsHeld id s
      → IsBooked bundle_bytes extra s
      → IsBooked bundle_bytes extra (close_bundle driver id bundle s).1
        × IsHeld id (close_bundle driver id bundle s).1
  close_bundle-IsBooked extra id driver bundle s held h =
      elim (close_bundle-state driver id bundle s) [
        | inl same ↦ rw same (h, held)
        | inr put ↦ rw put (
          put_held-IsBooked extra id (record bundle { mapped = false }) s held h,
          put_bundle-IsHeld id (record bundle { mapped = false }) s,
        )
      ]

  -- A bundle that is closed is refunded, and one whose closing fails stays charged.
  pub discard-IsBooked :
      (extra id : ℕ) (driver : Driver) (s : Store)
      → IsBooked bundle_bytes extra s
      → IsBooked bundle_bytes extra (discard driver bundle_bytes id s).1
  unfolding discard
  discard-IsBooked extra id driver s h = cases (lookup id s.bundles) refl
    where
      cases :
          (o : Option KvVmmBundle)
          → lookup id s.bundles ≡ o
          → IsBooked bundle_bytes extra (close_held driver bundle_bytes id o s).1
      cases none e = h
      cases (some bundle) e =
          bind_ind (λ r. IsBooked bundle_bytes extra r.1) (close_bundle driver id bundle)
            (λ _. drop_bundle id >> on_quota (Ledger.release bundle_bytes)) s
            (λ _ t closed.
              release-IsBooked extra bundle_bytes (drop_bundle id t).1
                (drop-IsBooked extra id t (left closed).1 (left closed).0))
            (λ _ t closed. (left closed).0)
        where
          left :
              {r : Result (Unit {0})} {t : Store}
              → close_bundle driver id bundle s ≡ (r, t)
              → IsBooked bundle_bytes extra t × IsHeld id t
          left {r} {t} closed =
              let after = close_bundle-IsBooked extra id driver bundle s (rw e refl) h in
              rw closed at after

  pub discard_all-IsBooked :
      (extra : ℕ) (driver : Driver) (ids : List ℕ) (s : Store)
      → IsBooked bundle_bytes extra s
      → IsBooked bundle_bytes extra (discard_all driver bundle_bytes ids s).1
  unfolding discard_all
  discard_all-IsBooked extra driver [] s h = h
  discard_all-IsBooked extra driver (id ∷ ids) s h =
      bind_keeps (IsBooked bundle_bytes extra) (discard driver bundle_bytes id)
        (λ _. discard_all driver bundle_bytes ids) s (discard-IsBooked extra id driver s h)
        (λ _ t. discard_all-IsBooked extra driver ids t)
