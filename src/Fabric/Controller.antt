-- ===== src/Fabric/Controller.antt =====
-- `FabricController` of src/xpool/service/daemon/fabric.py: its methods on the generation that is
-- installed, if one is.
use cross_pool.Prelude.{
  ℕ, Bool, not, ◌&&◌, ◌||◌, Option, none, some, ◌==◌, if◌then◌else◌, option_eq,
}
use cross_pool.Prelude.Result.{Result, daemon, conflict, not_ready}
use cross_pool.Prelude.Action.{Action, pure, raise}
use cross_pool.Prelude.Dict.{lookup, insert, delete}
use cross_pool.Identity.{
  ProcUniqId, InstanceRankId, FabricGenerationId, rank_eq, proc_eq, generation_id_eq,
}
use cross_pool.Fabric.Phase.{
  executable, quiescing, FabricGenerationPhase, finalizing, aborting, stopped, generation_phase_eq,
}
use cross_pool.Fabric.State.{
  FabricGenerationState, FabricDeploymentPlan, FabricParticipantReport, FabricOwnerFailure,
  record_owner_failure,
}
use cross_pool.Fabric.Report.{quiesce_generation, abort_generation, accept_report}

pub record FabricController : Type 0 where
  pub generation : Option FabricGenerationState

abbrev Method : Type 0 → Type 0
Method A = Action FabricController A

-- The generation is one object: what a method writes to it stays, also when it raises.
abbrev pub stored {ℓ} :
    {A : Type ℓ} → Result A × FabricGenerationState → Result A × FabricController
stored (r, s) = (r, record { generation = some s })

unfoldable pub require_plan : Method FabricDeploymentPlan
require_plan c = elim c.generation [ none ↦ raise (daemon not_ready) c | some s ↦ pure s.plan c ]

unfoldable pub install : FabricGenerationState → Method FabricDeploymentPlan
install new c = elim c.generation [
  | none ↦ pure new.plan (record { generation = some new })
  | some s ↦ pure s.plan c
]

unfoldable pub quiesce : ℕ → Method (Unit {0})
unfolding quiesce_generation
quiesce now c = elim c.generation [
  | none ↦ raise (daemon conflict) c
  | some s ↦ stored (quiesce_generation now s)
]

unfoldable pub abort : ℕ → Method (Unit {0})
unfolding abort_generation
abort now c = elim c.generation [ none ↦ pure tt c | some s ↦ stored (abort_generation now s) ]

-- `generation.phase in {DRAINING, FINALIZING, ABORTING, STOPPED}`.
abbrev is_cleaning : FabricGenerationPhase → Bool
is_cleaning p =
    p == FabricGenerationPhase.draining || p == finalizing || p == aborting || p == stopped

unfoldable pub depart :
    InstanceRankId → FabricOwnerFailure → Bool → ℕ → Action FabricGenerationState (Unit {0})
unfolding record_owner_failure quiesce_generation
depart instance_rank failure leases_quiescing now s =
    let left = record s { initialized_instances = delete instance_rank s.initialized_instances } in
    if left.phase == quiescing && leases_quiescing
    then pure tt left
    else if is_cleaning left.phase
    then pure tt left
    else quiesce_generation now (record_owner_failure failure left)

unfoldable pub instance_departed :
    InstanceRankId → FabricOwnerFailure → Bool → ℕ → Method (Unit {0})
unfolding depart
instance_departed instance_rank failure leases_quiescing now c = elim c.generation [
  | none ↦ pure tt c
  | some s ↦ stored (depart instance_rank failure leases_quiescing now s)
]

unfoldable pub initialize :
    InstanceRankId → ProcUniqId → FabricGenerationId → Action FabricGenerationState (Unit {0})
initialize instance_rank owner generation s =
    if not (generation == s.plan.generation)
    then raise (daemon conflict) s
    else if not (s.phase == executable)
    then raise (daemon conflict) s
    else if not (lookup instance_rank s.instance_owners == some owner)
    then raise (daemon conflict) s
    else pure tt
        (record s { initialized_instances = insert instance_rank owner s.initialized_instances })

unfoldable pub record_initialized :
    InstanceRankId → ProcUniqId → FabricGenerationId → Method (Unit {0})
unfolding initialize
record_initialized instance_rank owner generation c = elim c.generation [
  | none ↦ raise (daemon not_ready) c
  | some s ↦ stored (initialize instance_rank owner generation s)
]

unfoldable pub record_participant : FabricParticipantReport → ℕ → Method (Unit {0})
unfolding accept_report
record_participant report now c = elim c.generation [
  | none ↦ raise (daemon conflict) c
  | some s ↦ stored (accept_report report now s)
]
