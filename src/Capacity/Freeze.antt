-- ===== src/Capacity/Freeze.antt =====
-- The budgets that `CapacityPolicy.freeze_pools` fixes once per generation, and the bounds derived
-- from them. A budget is at least the sum of the floors when it is fixed, so the subtractions from it
-- do not go below zero.
use cross_pool.Prelude.{
  ℕ, ◌+◌, ◌*◌, ◌-◌, ◌/◌, min, max, Bool, true, not, Option, none, some, List, [], ◌∷◌, ltb, length,
  if◌then◌else◌, ◌==◌, nat_eq, option_eq,
}
use cross_pool.Prelude.Result.{Result, ok, err, runtime_error, ◌>>=◌, ◌>>◌, require}
use cross_pool.Capacity.State.{
  World, InstancePlan, PartitionProfile, Location, CapacityPolicy, DeviceMemoryReport, at,
  partition, group_profiles, enumerate,
}

-- What the instances hold on one device: `mapped`, `floors` and `headroom`.
pub record Holding : Type 0 where
  pub mapped : ℕ
  pub floors : ℕ
  pub headroom : ℕ

unfoldable pub hold :
    World → List (Option ℕ) → ℕ → Holding → List (ℕ × InstancePlan) → Result Holding
hold w initial_backing device h [] = ok h
hold w initial_backing device h ((i, plan) ∷ plans) = do
  backing ← at initial_backing (i * w.atn_world_size + device)
  registration ← partition w plan.model_id device
  let floor = registration.context_state_profile.floor_bytes
  require (backing == some floor) runtime_error
  hold w initial_backing device
      (record {
        mapped = h.mapped + floor;
        floors = h.floors + floor;
        headroom = h.headroom + registration.atn_runtime_headroom_bytes;
      })
      plans

-- The budget of one device: `free + mapped - reserve`, refused if it is below the floors.
unfoldable pub budget_of : (utilized_bytes : ℕ → ℕ) → DeviceMemoryReport → Holding → Result ℕ
budget_of utilized_bytes report h =
    let reserve = max (report.total_bytes - utilized_bytes report.total_bytes) h.headroom in
    if ltb (report.free_bytes + h.mapped) (h.floors + reserve)
    then err runtime_error
    else ok (report.free_bytes + h.mapped - reserve)

unfoldable pub budgets :
    World → List (Option ℕ) → List (ℕ × Option DeviceMemoryReport) → Result (List ℕ)
unfolding hold budget_of
budgets w initial_backing [] = ok []
budgets w initial_backing ((device, none) ∷ reports) = err runtime_error
budgets w initial_backing ((device, some report) ∷ reports) = do
  h ←
      hold w initial_backing device (record { mapped = 0; floors = 0; headroom = 0 })
        (enumerate 0 w.instance_plans)
  budget ← budget_of w.utilized_bytes report h
  rest ← budgets w initial_backing reports
  ok (budget ∷ rest)

-- The floors on one device of the instances that `keep` selects.
unfoldable pub floors_on : World → ℕ → (ℕ → Bool) → List (ℕ × InstancePlan) → Result ℕ
floors_on w device keep [] = ok 0
floors_on w device keep ((i, plan) ∷ plans) =
    let rest = floors_on w device keep plans in
    if keep i
    then (do
      registration ← partition w plan.model_id device
      others ← rest
      ok (registration.context_state_profile.floor_bytes + others))
    else rest

abbrev initial_targets : World → List ℕ → List (ℕ × PartitionProfile) → Result (List ℕ)
initial_targets w capacity [] = ok []
initial_targets w capacity ((device, profile) ∷ ms) = do
  floors ← floors_on w device (λ i. true) (enumerate 0 w.instance_plans)
  budget ← at capacity device
  let extra = (budget - floors) / length w.instance_plans
  rest ← initial_targets w capacity ms
  ok (min profile.reservation_bytes (profile.floor_bytes + extra) ∷ rest)

-- One equal increment per device, capped by each reservation.
unfoldable pub initial_target : World → CapacityPolicy → Location → Result (List ℕ)
unfolding floors_on
initial_target w p location = elim p.pool_capacity_bytes [
  | none ↦ err runtime_error
  | some capacity ↦ group_profiles w location >>= λ ms. initial_targets w capacity ms
]

abbrev ceilings : World → List ℕ → ℕ → List (ℕ × PartitionProfile) → Result (List ℕ)
ceilings w capacity instance_index [] = ok []
ceilings w capacity instance_index ((device, profile) ∷ ms) = do
  other_floors ← floors_on w device (λ i. not (i == instance_index)) (enumerate 0 w.instance_plans)
  budget ← at capacity device
  rest ← ceilings w capacity instance_index ms
  ok (min profile.reservation_bytes (budget - other_floors) ∷ rest)

-- The most that a group may ever hold, while every other partition keeps its floor.
unfoldable pub service_ceiling : World → CapacityPolicy → Location → Result (List ℕ)
unfolding floors_on
service_ceiling w p (instance_index, dp_rank) = elim p.pool_capacity_bytes [
  | none ↦ err runtime_error
  | some capacity ↦
      group_profiles w (instance_index, dp_rank) >>= λ ms. ceilings w capacity instance_index ms
]
