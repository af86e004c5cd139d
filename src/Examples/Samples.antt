-- ===== src/Examples/Samples.antt =====
-- A generation of two PEs that serves, and a pool of two groups that share one device.
use cross_pool.Prelude.{ℕ, none, some, List, [], ◌∷◌}
use cross_pool.Identity.{ProcUniqId, InstanceRankId}
use cross_pool.Fabric.Phase.{
  FabricParticipantPhase, join_ready, joining, joined, execution_ready, active,
}
use cross_pool.Fabric.State.{
  FabricDeploymentPlan, FabricGenerationState, FabricParticipantReport, atnagent, ffnagent,
}
use cross_pool.Fabric.History.{Call, reports, created}
use cross_pool.Capacity.State.{World, Partition, Group, QuotaDemand, CapacityPolicy}
use cross_pool.Capacity.Step.{Snapshot}

abbrev pub plan : FabricDeploymentPlan
plan = record {
  generation = record { high = 1; low = 2 };
  pe_placements =
      record { role = atnagent; device = 0 } ∷ record { role = ffnagent; device = 1 } ∷ [];
}

abbrev pub owner : ProcUniqId
owner = record { pid = 41; create_time = 7 }

abbrev pub instance_rank : InstanceRankId
instance_rank = record { model_id = "llama"; rank = 0 }

abbrev pub report_of : ℕ → FabricParticipantPhase → FabricParticipantReport
report_of pe phase = record {
  owner = record { pid = 41; abi_version = 1 };
  generation = plan.generation;
  pe = pe;
  phase = phase;
  invocation_failure = none;
  control_failure = none;
}

abbrev pub installed : FabricGenerationState
installed = created plan 10 ((0, owner) ∷ (1, owner) ∷ []) ((instance_rank, owner) ∷ [])

-- Both PEs report through to `active`.
abbrev pub launch : List Call
launch =
    reports (report_of 0 join_ready) 11
    ∷ reports (report_of 1 join_ready) 12
    ∷ reports (report_of 0 joining) 13
    ∷ reports (report_of 1 joining) 14
    ∷ reports (report_of 1 joined) 15
    ∷ reports (report_of 0 joined) 16
    ∷ reports (report_of 0 execution_ready) 17
    ∷ reports (report_of 1 execution_ready) 18
    ∷ reports (report_of 1 active) 19
    ∷ reports (report_of 0 active) 20
    ∷ []

abbrev partition_of : ℕ → ℕ → Partition
partition_of floor reservation = record {
  context_state_profile = record { floor_bytes = floor; reservation_bytes = reservation };
  atn_runtime_headroom_bytes = 1;
}

-- Two instances with one group each, on device 0.
abbrev pub world : World
world = record {
  registrations =
      (record { model_id = "a"; rank = 0 }, partition_of 2 9)
      ∷ (record { model_id = "b"; rank = 0 }, partition_of 3 9)
      ∷ [];
  instance_plans =
      record { model_id = "a"; atn_tp_size = 1; atn_dp_size = 1 }
      ∷ record { model_id = "b"; atn_tp_size = 1; atn_dp_size = 1 }
      ∷ [];
  atn_world_size = 1;
  utilized_bytes = λ total. total;
}

-- A group that was granted its startup quota.
abbrev pub granted : ℕ → Group
granted quota = record {
  applied_sequence = 1;
  active_quota = some (quota ∷ []);
  operation = none;
  demand = none;
  completed_grant_order = none;
  service_ceiling = some (7 ∷ []);
}

-- The first group asks for two bytes more than it has, which the second must lend.
abbrev pub policy : CapacityPolicy
policy = record {
  groups = granted 5 ∷ granted 5 ∷ [];
  next_grant_order = 0;
  funding_attempt = none;
  pool_capacity_bytes = some (10 ∷ []);
  published = [];
}

abbrev pub demand_of : ℕ → QuotaDemand
demand_of bytes = record {
  evaluated_sequence = 1;
  required_bytes = some (bytes ∷ []);
  deadline_monotonic_ns = some 100;
}

abbrev pub content : QuotaDemand
content = record { evaluated_sequence = 1; required_bytes = none; deadline_monotonic_ns = none }

abbrev pub snapshot : Snapshot
snapshot = record {
  initial_backing = some 2 ∷ some 3 ∷ [];
  device_memory = some (record { total_bytes = 20; free_bytes = 5 }) ∷ [];
  completions = none ∷ none ∷ [];
  demands = some (demand_of 7) ∷ some content ∷ [];
  now_ns = 50;
}

-- The ranks of the second group have given back what they lend.
abbrev pub lent : Snapshot
lent = record snapshot {
  completions = none ∷ some (record { sequence = 2; backed_bytes = 3 }) ∷ [];
  demands = some (demand_of 7) ∷ some (record content { evaluated_sequence = 2 }) ∷ [];
}
