-- ===== src/Capacity/Retire.antt =====
-- Freezing, publication and retirement of quotas: the methods of `CapacityPolicy` that write its
-- groups outside the funding of a borrower. A method that raises keeps what it wrote before.
use cross_pool.Prelude.{
  ℕ, ◌+◌, Bool, true, false, Option, none, some, List, [], ◌∷◌, ◌++◌, map, any, set, is_some,
  if◌then◌else◌, ◌==◌, nat_eq,
}
use cross_pool.Prelude.Action.{Action, pure, reads, modify, update, ◌>>=◌, ◌>>◌}
use cross_pool.Capacity.State.{
  World, Location, Group, CapacityPolicy, QuotaCommand, QuotaCompletion, QuotaDemand,
  DeviceMemoryReport, ceiling, at, capacity_groups, group_profiles, enumerate,
}
use cross_pool.Capacity.Accounting.{publish_operation, put_group}
use cross_pool.Capacity.Replies.{adopted, grant_grows, check_demand}
use cross_pool.Capacity.Freeze.{budgets, service_ceiling, initial_target}

abbrev pub Method : Type 0 → Type 0
Method A = Action CapacityPolicy A

abbrev pub group_at : ℕ → Method Group
group_at g = reads (λ p. at p.groups g)

-- The loop at the end of `freeze_pools`: every group starts at its floors.
unfoldable pub freeze_groups : World → List (ℕ × Location) → Method (Unit {0})
unfolding service_ceiling
freeze_groups w [] = pure tt
freeze_groups w ((g, location) ∷ rest) = do
  group ← group_at g
  ms ← reads (λ _. group_profiles w location)
  let started : Group = record group { active_quota = some (map (λ m. m.1.floor_bytes) ms) }
  modify (put_group g started)
  bound ← reads (λ p. service_ceiling w p location)
  modify (put_group g (record started { service_ceiling = some bound }))
  modify (λ p. record p { published = p.published ++ ceiling g bound ∷ [] })
  freeze_groups w rest

unfoldable pub freeze_pools :
    World → List (Option ℕ) → List (Option DeviceMemoryReport) → Method (Unit {0})
unfolding budgets freeze_groups
freeze_pools w initial_backing device_reports = do
  capacity ← reads (λ _. budgets w initial_backing (enumerate 0 device_reports))
  modify (λ p. record p { pool_capacity_bytes = some capacity })
  freeze_groups w (enumerate 0 (capacity_groups w))

unfoldable pub publish : ℕ → List ℕ → Method (Unit {0})
unfolding publish_operation
publish g quota_bytes = update (publish_operation g quota_bytes)

abbrev pub record_grant : ℕ → Group → Bool → Method (Unit {0})
record_grant g group false p = pure tt p
record_grant g group true p = pure tt (record p {
  groups = set p.groups g (record group { completed_grant_order = some p.next_grant_order });
  next_grant_order = p.next_grant_order + 1;
})

-- A group whose ranks have all adopted its operation takes the target as its quota.
unfoldable pub retire_group :
    World → List (Option QuotaCompletion) → ℕ → Location → Group → Option QuotaCommand → Method Bool
unfolding adopted
retire_group w completions g location group none = pure false
retire_group w completions g location group (some operation) = do
  done ← reads (λ _. adopted w completions location operation)
  if done
      then (do
        let retired : Group = record group {
          active_quota = some operation.quota_bytes;
          applied_sequence = operation.sequence;
          operation = none;
        }
        modify (put_group g retired)
        grew ← reads (λ _. grant_grows operation.sequence group.active_quota operation.quota_bytes)
        record_grant g retired grew
        pure true)
      else pure false

-- `retire_operations`, over the groups that are left: the groups that it retired.
unfoldable pub retire_operations :
    World → List (Option QuotaCompletion) → List (ℕ × Location) → Method (List ℕ)
unfolding retire_group
retire_operations w completions [] = pure []
retire_operations w completions ((g, location) ∷ rest) = do
  group ← group_at g
  done ← retire_group w completions g location group group.operation
  retired ← retire_operations w completions rest
  pure (if done then g ∷ retired else retired)

-- The first group that has no applied operation gets its startup grant.
unfoldable pub publish_first : World → List (ℕ × Location) → Method Bool
unfolding publish initial_target
publish_first w [] = pure false
publish_first w ((g, location) ∷ rest) = do
  group ← group_at g
  if group.applied_sequence == 0
      then (do target ← reads (λ p. initial_target w p location); publish g target; pure true)
      else publish_first w rest

unfoldable pub publish_next_initial_operation : World → Method Bool
unfolding publish_first
publish_next_initial_operation w p =
    if any (λ group. is_some group.operation) p.groups
    then pure false p
    else publish_first w (enumerate 0 (capacity_groups w)) p

abbrev pub consume_demand : ℕ → Option QuotaDemand → Method (Unit {0})
consume_demand g none = pure tt
consume_demand g (some demand) = do
  group ← group_at g
  reads (λ _. check_demand group demand)
  modify (put_group g (record group { demand = some demand }))

unfoldable pub consume_demands : List (Option QuotaDemand) → List (ℕ × Location) → Method (Unit {0})
unfolding check_demand
consume_demands publications [] = pure tt
consume_demands publications ((g, _) ∷ rest) = do
  publication ← reads (λ _. at publications g)
  consume_demand g publication
  consume_demands publications rest
