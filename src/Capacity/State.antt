-- ===== src/Capacity/State.antt =====
-- The state of `CapacityPolicy`, and what it reads of the registrations and of the plan.
use cross_pool.Prelude.{
  ℕ, zero, suc, ◌+◌, ◌*◌, String, Option, none, some, List, [], ◌∷◌, ◌++◌, ◌≡◌, arith, map,
  get_elem?, range_from,
}
use cross_pool.Prelude.Result.{Result, ok, err, runtime_error, index_error, ◌>>=◌}
use cross_pool.Prelude.Dict.{lookup}
use cross_pool.Identity.{InstanceRankId, rank_eq}

-- `ElasticContextStatePartitionProfile` of src/xpool/service/wire.py.
pub record PartitionProfile : Type 0 where
  pub floor_bytes : ℕ
  pub reservation_bytes : ℕ

-- The fields of `InstanceRankRegistrationState` that the policy reads.
pub record Partition : Type 0 where
  pub context_state_profile : PartitionProfile
  pub atn_runtime_headroom_bytes : ℕ

-- `FabricInstancePlan` with its `InstanceRankTopology`.
pub record InstancePlan : Type 0 where
  pub model_id : String
  pub atn_tp_size : ℕ
  pub atn_dp_size : ℕ

-- What every method is handed: the registrations, and the plan of the generation, with the
-- attention world size and the memory utilization of the configuration. `int(total * utilization)`
-- is a function, since it is a product of floats.
pub record World : Type 0 where
  pub registrations : List (InstanceRankId × Partition)
  pub instance_plans : List InstancePlan
  pub atn_world_size : ℕ
  pub utilized_bytes : ℕ → ℕ

pub record QuotaCommand : Type 0 where
  pub sequence : ℕ
  pub quota_bytes : List ℕ

pub record QuotaDemand : Type 0 where
  pub evaluated_sequence : ℕ
  pub required_bytes : Option (List ℕ)
  pub deadline_monotonic_ns : Option ℕ

pub record QuotaCompletion : Type 0 where
  pub sequence : ℕ
  pub backed_bytes : ℕ

pub record DeviceMemoryReport : Type 0 where
  pub total_bytes : ℕ
  pub free_bytes : ℕ

pub record FundingAttempt : Type 0 where
  pub borrower_index : ℕ
  pub evaluated_sequence : ℕ
  pub target_quota_bytes : List ℕ
  pub deadline_monotonic_ns : ℕ
  pub attempted_donors : List ℕ
  pub donor_index : Option ℕ

-- One row of the policy's lists, which are all indexed by the group.
pub record Group : Type 0 where
  pub applied_sequence : ℕ
  pub active_quota : Option (List ℕ)
  pub operation : Option QuotaCommand
  pub demand : Option QuotaDemand
  pub completed_grant_order : Option ℕ
  pub service_ceiling : Option (List ℕ)

-- What the policy writes to its native channel, in order.
pub data Publication : Type 0 where
  command : (group_index : ℕ) → QuotaCommand → Publication
  ceiling : (group_index : ℕ) → List ℕ → Publication

pub record CapacityPolicy : Type 0 where
  pub groups : List Group
  pub next_grant_order : ℕ
  pub funding_attempt : Option FundingAttempt
  pub pool_capacity_bytes : Option (List ℕ)
  pub published : List Publication

abbrev new_group : Group
new_group = record {
  applied_sequence = 0;
  active_quota = none;
  operation = none;
  demand = none;
  completed_grant_order = none;
  service_ceiling = none;
}

abbrev new_groups : ℕ → List Group
new_groups zero = []
new_groups (suc n) = new_group ∷ new_groups n

-- A new policy for `group_count` groups.
unfoldable pub create : ℕ → CapacityPolicy
create group_count = record {
  groups = new_groups group_count;
  next_grant_order = 0;
  funding_attempt = none;
  pool_capacity_bytes = none;
  published = [];
}

-- `xs[i]`, and `o` where `None` raises `e`.
abbrev pub at {ℓ} : {A : Type ℓ} → List A → ℕ → Result A
at xs i = elim (get_elem? xs i) [ none ↦ err index_error | some a ↦ ok a ]

pub at-eq-ok {ℓ} :
    {A : Type ℓ} (xs : List A) (i : ℕ) {a : A} → at xs i ≡ ok a → get_elem? xs i ≡ some a
at-eq-ok xs i e = ground arith

unfoldable pub partition : World → String → ℕ → Result Partition
partition w model_id rank =
    elim (lookup (record { model_id = model_id; rank = rank }) w.registrations) [
      | none ↦ err runtime_error
      | some p ↦ ok p
    ]

-- One entry `(instance index, DP rank)` of the directory; its place is the group index.
abbrev pub Location : Type 0
Location = ℕ × ℕ

abbrev locations_from : ℕ → List InstancePlan → List Location
locations_from i [] = []
locations_from i (plan ∷ plans) =
    map (λ dp. (i, dp)) (range_from 0 plan.atn_dp_size) ++ locations_from (suc i) plans

-- `capacity_groups`, in directory order.
unfoldable pub capacity_groups : World → List Location
capacity_groups w = locations_from 0 w.instance_plans

abbrev pub rank_profiles : World → String → List ℕ → Result (List (ℕ × PartitionProfile))
rank_profiles w model_id [] = ok []
rank_profiles w model_id (rank ∷ ranks) = do
  p ← partition w model_id rank
  rest ← rank_profiles w model_id ranks
  ok ((rank, p.context_state_profile) ∷ rest)

-- The rank-local devices of a group with their bounds, in TP-rank order.
unfoldable pub group_profiles : World → Location → Result (List (ℕ × PartitionProfile))
unfolding partition
group_profiles w (instance_index, dp_rank) = do
  plan ← at w.instance_plans instance_index
  rank_profiles w plan.model_id (range_from (dp_rank * plan.atn_tp_size) plan.atn_tp_size)

-- The physical partition slots of a group in TP-rank order.
unfoldable pub group_partition_indices : World → Location → Result (List ℕ)
group_partition_indices w (instance_index, dp_rank) = do
  plan ← at w.instance_plans instance_index
  ok (
      map (λ rank. instance_index * w.atn_world_size + dp_rank * plan.atn_tp_size + rank)
        (range_from 0 plan.atn_tp_size))

abbrev pub enumerate {ℓ} : {A : Type ℓ} → ℕ → List A → List (ℕ × A)
enumerate k [] = []
enumerate k (x ∷ xs) = (k, x) ∷ enumerate (suc k) xs
