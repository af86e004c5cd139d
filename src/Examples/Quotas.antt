-- ===== src/Examples/Quotas.antt =====
-- Runs of the capacity policy.
use cross_pool.Prelude.{
  ℕ, zero, suc, ◌≤◌, ◌<◌, ◌≡◌, refl, subst, some, List, [], ◌∷◌, arith, get_elem?,
}
use cross_pool.Prelude.Result.{ok, ok-injective}
use cross_pool.Prelude.Dict.{lookup}
use cross_pool.Capacity.State.{
  PartitionProfile, Location, Group, partition, group_profiles, group_partition_indices,
  capacity_groups, command,
}
use cross_pool.Capacity.Accounting.{pool_free_bytes, growth_bytes, shortages, covers}
use cross_pool.Capacity.Borrowers.{ordered_borrowers}
use cross_pool.Capacity.Donors.{donors, best}
use cross_pool.Capacity.Charge.{total, total_from, charge, devices, nth}
use cross_pool.Capacity.Bounds.{HoldsFloors}
use cross_pool.Capacity.Sound.{IsSound, IsSoundRow}
use cross_pool.Capacity.Stepping.{run, run-IsSound}
use cross_pool.Capacity.Step.{step}
use cross_pool.Examples.Samples.{world, policy, granted, snapshot, lent}

first_bounds :
    (ms : List (ℕ × PartitionProfile))
    → group_profiles world (0, 0) ≡ ok ms
    → HoldsFloors ms (5 ∷ [])
unfolding group_profiles HoldsFloors partition lookup
first_bounds ms e = subst (λ x. HoldsFloors x (5 ∷ [])) (ok-injective e) (omega arith, tt)

second_bounds :
    (ms : List (ℕ × PartitionProfile))
    → group_profiles world (1, 0) ≡ ok ms
    → HoldsFloors ms (5 ∷ [])
unfolding group_profiles HoldsFloors partition lookup
second_bounds ms e = subst (λ x. HoldsFloors x (5 ∷ [])) (ok-injective e) (omega arith, tt)

module _ (g : ℕ) (location : Location) (place : get_elem? (capacity_groups world) g ≡ some location)
    (bounds : (ms : List (ℕ × PartitionProfile))
      → group_profiles world location ≡ ok ms
      → HoldsFloors ms (5 ∷ [])) where
  granted-IsSoundRow : IsSoundRow world g (granted 5)
  granted-IsSoundRow = (
    ((λ h. absurd (omega (arith, h))), tt),
    (λ l ms at' found.
        let there : l ≡ location = cc (place, at') in
        (bounds ms (subst (λ x. group_profiles world x ≡ ok ms) there found), tt)),
  )

sound_row :
    (g : ℕ) (group : Group) → get_elem? policy.groups g ≡ some group → IsSoundRow world g group
unfolding capacity_groups
sound_row zero group e =
    subst (IsSoundRow world 0) {x = granted 5} {y = group} (cc e)
      (granted-IsSoundRow 0 (0, 0) refl first_bounds)
sound_row (suc zero) group e =
    subst (IsSoundRow world 1) {x = granted 5} {y = group} (cc e)
      (granted-IsSoundRow 1 (1, 0) refl second_bounds)
sound_row (suc (suc g)) group e = cc e

sound : IsSound world (10 ∷ []) policy
unfolding total_from charge devices capacity_groups
sound = record { frozen = refl; rows = sound_row; funded = λ d h. within d h }
  where
    within : (d : ℕ) → d < 1 → total world policy.groups d ≤ nth (10 ∷ []) d
    within zero h = omega arith
    within (suc d) h = absurd (omega arith)

-- The second group is asked to shrink to its floor, and the first grows by what it lent.
lends_and_grows :
    (run world (snapshot ∷ lent ∷ []) policy).published
    ≡ command 1 (record { sequence = 2; quota_bytes = 3 ∷ [] })
      ∷ command 0 (record { sequence = 2; quota_bytes = 7 ∷ [] })
      ∷ []
unfolding step capacity_groups ordered_borrowers group_profiles lookup pool_free_bytes growth_bytes
    covers shortages donors best group_partition_indices
lends_and_grows = refl

run-IsSound_example : IsSound world (10 ∷ []) (run world (snapshot ∷ lent ∷ []) policy)
run-IsSound_example = run-IsSound world (10 ∷ []) (snapshot ∷ lent ∷ []) policy sound
