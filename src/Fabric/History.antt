-- ===== src/Fabric/History.antt =====
-- The history of one installed generation: the calls that src/xpool/service/daemon/control.py makes
-- on it, in any order. The last five are the writes of its watchdog: `stops` ends an abort, `times_out`
-- aborts a generation that waits too long, `fails_owner` one that has lost the owner of a PE, and
-- `loses_instance` quiesces one that has lost the owner of an Instance rank. Which of them happens, and
-- when, is not decided here, so that a history has all that the watchdog may do, and more.
use cross_pool.Prelude.{ℕ, Bool, none, List, [], ◌∷◌, ◌==◌, if◌then◌else◌}
use cross_pool.Prelude.Action.{Action, pure, ◌>>◌}
use cross_pool.Identity.{ProcUniqId, InstanceRankId, FabricGenerationId}
use cross_pool.Fabric.Phase.{preparing_join, aborting, stopped, generation_phase_eq}
use cross_pool.Fabric.State.{
  FabricGenerationState, FabricDeploymentPlan, FabricParticipantReport, FabricOwnerFailure,
  Diagnostic, record_owner_failure, record_control_failure, transition,
}
use cross_pool.Fabric.Report.{quiesce_generation, abort_generation, accept_report}
use cross_pool.Fabric.Controller.{depart, initialize}

-- The generation that the control plane installs once its membership is complete.
unfoldable pub created :
    FabricDeploymentPlan
    → ℕ
    → List (ℕ × ProcUniqId)
    → List (InstanceRankId × ProcUniqId)
    → FabricGenerationState
created plan now agent_owners instance_owners = record {
  plan = plan;
  phase = preparing_join;
  phase_started_at = now;
  invocation_failure = none;
  owner_failure = none;
  control_failure = none;
  agent_owners = agent_owners;
  instance_owners = instance_owners;
  participants = [];
  initialized_instances = [];
}

pub data Call : Type 0 where
  reports : FabricParticipantReport → (now : ℕ) → Call
  initializes : InstanceRankId → ProcUniqId → FabricGenerationId → Call
  departs : InstanceRankId → FabricOwnerFailure → (leases_quiescing : Bool) → (now : ℕ) → Call
  quiesces aborts stops : (now : ℕ) → Call
  fails_owner loses_instance : FabricOwnerFailure → (now : ℕ) → Call
  times_out : Diagnostic → (now : ℕ) → Call

unfoldable pub call : Call → Action FabricGenerationState (Unit {0})
unfolding accept_report depart initialize quiesce_generation abort_generation
call (reports report now) s = accept_report report now s
call (initializes instance_rank owner generation) s = initialize instance_rank owner generation s
call (departs instance_rank failure leases_quiescing now) s =
    depart instance_rank failure leases_quiescing now s
call (quiesces now) s = quiesce_generation now s
call (aborts now) s = abort_generation now s
call (stops now) s = if s.phase == aborting then transition stopped now s else pure tt s
call (fails_owner failure now) s = abort_generation now (record_owner_failure failure s)
call (loses_instance failure now) s = quiesce_generation now (record_owner_failure failure s)
call (times_out failure now) s = (record_control_failure failure >> abort_generation now) s

-- A call that raises leaves what it wrote.
unfoldable pub run : FabricGenerationState → List Call → FabricGenerationState
run s [] = s
run s (c ∷ cs) = run (call c s).1 cs

pub run_ind {ℓ} :
    (P : FabricGenerationState → Type ℓ)
    → ((c : Call) (s : FabricGenerationState) → P s → P (call c s).1)
    → (s : FabricGenerationState) (cs : List Call) → P s
    → P (run s cs)
unfolding run
run_ind P keep s [] h = h
run_ind P keep s (c ∷ cs) h = run_ind P keep (call c s).1 cs (keep c s h)
