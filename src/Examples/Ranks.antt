-- ===== src/Examples/Ranks.antt =====
-- A rank of two that adopts a quota and publishes a demand.
use cross_pool.Prelude.{◌≡◌, refl, true, false, Option, none, some, [], ◌∷◌, arith}
use cross_pool.Prelude.Dict.{values}
use cross_pool.Capacity.State.{QuotaCommand}
use cross_pool.Rank.Reconciler.{CapacityReconciler, Surroundings}
use cross_pool.Rank.Adoption.{
  reads, schedules, reserves, releases, retires, events, IsAdopted, events-IsAdopted,
}
use cross_pool.Rank.Demand.{
  DemandWitness, Demands, finish_scheduling, current, demand_of, IsRemembered, last_of, IsUrgent,
  finish_scheduling-IsUrgent,
}

abbrev alone : Surroundings
alone = record { tp_rank = 0; has_chunk_owner = false; vote = λ b. b }

abbrev command : QuotaCommand
command = record { sequence = 1; quota_bytes = 40 ∷ 40 ∷ [] }

abbrev idle : CapacityReconciler
idle = record {
  command = none;
  active_quota_bytes = [];
  completed_sequence = 0;
  pending_retirement = false;
  quota = record { limit_bytes = 20; charged_bytes = 8 };
  completions = [];
}

idle-IsAdopted : IsAdopted 0 idle
idle-IsAdopted = record {
  order = tt;
  granted = λ positive. ground arith;
  within = (omega arith, omega arith);
}

events-IsAdopted_example : IsAdopted 0 (
    events
      (reads (some command)
        ∷ schedules alone
        ∷ reserves 30
        ∷ retires true
        ∷ releases 26
        ∷ retires false
        ∷ reads (some (record { sequence = 2; quota_bytes = 16 ∷ 16 ∷ [] }))
        ∷ schedules alone
        ∷ [])
      idle)
events-IsAdopted_example =
    events-IsAdopted 0
      (reads (some command)
        ∷ schedules alone
        ∷ reserves 30
        ∷ retires true
        ∷ releases 26
        ∷ retires false
        ∷ reads (some (record { sequence = 2; quota_bytes = 16 ∷ 16 ∷ [] }))
        ∷ schedules alone
        ∷ [])
      idle (tt, ((refl, λ b e. e), (tt, (tt, (tt, (tt, (tt, ((refl, λ b e. e), tt))))))))
      idle-IsAdopted

abbrev demands : Demands
demands = record {
  tp_rank = 0;
  completed_sequence = 1;
  active_quota_bytes = 40 ∷ 40 ∷ [];
  service_ceiling_bytes = some (90 ∷ 90 ∷ []);
  unresolved_demands =
      (
        5 ∷ [],
        record {
          evaluated_sequence = 1;
          required_bytes = 50 ∷ 50 ∷ [];
          deadline_monotonic_ns = 900;
        },
      )
      ∷ (
        6 ∷ [],
        record {
          evaluated_sequence = 1;
          required_bytes = 60 ∷ 60 ∷ [];
          deadline_monotonic_ns = 700;
        },
      )
      ∷ [];
  published_demand = none;
  publications = [];
}

finish_scheduling-IsUrgent_example :
    IsRemembered (finish_scheduling (λ _. true) (λ _. false) demands)
    × ((urgent : Option DemandWitness) × (last_of
            (finish_scheduling (λ _. true) (λ _. false) demands).publications
          ≡ some (demand_of 1 urgent))
        × IsUrgent urgent (values (current (λ _. true) (λ _. false) demands)))
finish_scheduling-IsUrgent_example =
    finish_scheduling-IsUrgent (λ _. true) (λ _. false) demands refl (omega arith) refl
