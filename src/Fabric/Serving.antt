-- ===== src/Fabric/Serving.antt =====
-- What a generation that serves has been told.
use cross_pool.Prelude.{ℕ, ◌≡◌, ◌<◌, refl, subst, ◌∙◌, sym, some, List, arith, nat_eq, length}
use cross_pool.Prelude.Dict.{lookup}
use cross_pool.Identity.{InstanceRankId, ProcUniqId}
use cross_pool.Fabric.Phase.{FabricParticipantPhase, executable, active, join_ready}
use cross_pool.Fabric.State.{
  FabricGenerationState, FabricDeploymentPlan, FabricParticipantReport, Diagnostic,
}
use cross_pool.Fabric.Report.{reject_report, react, advance_barrier}
use cross_pool.Fabric.History.{Call, call, created, run, run_ind, reports, departs}
use cross_pool.Fabric.Outcomes.{accept_ind}
use cross_pool.Fabric.Barrier.{InStep, ◌⊑◌}
use cross_pool.Fabric.InStep.{call-InStep}
use cross_pool.Fabric.Stopping.{Finishes, call-Finishes}

reject-plan :
    (d : Diagnostic) (now : ℕ) (s : FabricGenerationState) → (reject_report d now s).1.plan ≡ s.plan
unfolding reject_report
reject-plan d now s = ground arith

advance-plan : (now : ℕ) (s : FabricGenerationState) → (advance_barrier now s).1.plan ≡ s.plan
unfolding advance_barrier
advance-plan now s = ground arith

react-plan : (now : ℕ) (s : FabricGenerationState) → (react now s).1.plan ≡ s.plan
unfolding react
react-plan now s = ground (arith, advance-plan now s)

-- The plan of a generation is fixed.
pub call-plan : (c : Call) (s : FabricGenerationState) → (call c s).1.plan ≡ s.plan
unfolding call
call-plan (reports report now) s =
    accept_ind (λ r. r.1.plan ≡ s.plan) report now s (λ d _. reject-plan d now s) (λ _. refl)
      (λ a t n. (react-plan now t ∙ n.plan, λ e. n.plan)) (λ _. refl)
call-plan (departs i failure leases now) s = ground arith
call-plan _ s = ground arith

active_between : (p : FabricParticipantPhase) → active ⊑ p → p ⊑ active → p ≡ active
active_between join_ready h k = ground arith
active_between _ h k = ground arith

module _ (plan : FabricDeploymentPlan) (now : ℕ) (agent_owners : List (ℕ × ProcUniqId))
    (instance_owners : List (InstanceRankId × ProcUniqId)) where
  created-InStep : InStep (created plan now agent_owners instance_owners)
  unfolding created lookup
  created-InStep = record { entered = λ p e pe l. cc; within = λ pe r e. cc }

  pub run_steps : (cs : List Call) → InStep (run (created plan now agent_owners instance_owners) cs)
  run_steps cs = run_ind InStep call-InStep _ cs created-InStep

  -- In any history of a generation, it has entered a phase up to finalizing only with the reports of
  -- all PEs of its plan that the barrier to the phase asks for, and no report of a participant is ahead
  -- of the generation; and a further call moves it from finalizing to stopped only with the reports
  -- `finalized` of all of them.
  pub run-InStep :
      (cs : List Call) (c : Call)
      → let s = run (created plan now agent_owners instance_owners) cs in
        InStep s × Finishes s (call c s).1
  run-InStep cs c =
      (run_steps cs, call-Finishes c (run (created plan now agent_owners instance_owners) cs))

  run-plan : (cs : List Call) → (run (created plan now agent_owners instance_owners) cs).plan ≡ plan
  unfolding created
  run-plan cs = run_ind (λ s. s.plan ≡ plan) (λ c s h. call-plan c s ∙ h) _ cs refl

  -- In any history of a generation, while it is executable, every PE of its plan has reported, and its
  -- last report is `active`.
  pub executable-active :
      (cs : List Call) (pe : ℕ)
      → let s = run (created plan now agent_owners instance_owners) cs in
        s.phase ≡ executable
        → pe < length plan.pe_placements
        → (r : FabricParticipantReport) × (lookup pe s.participants ≡ some r) × (r.phase ≡ active)
  executable-active cs pe e l =
      let h = run_steps cs in
      let (r, found, reached) = h.entered active (rw e) pe (
        subst (λ (pl : FabricDeploymentPlan). pe < length pl.pe_placements) (sym (run-plan cs))
          l) in
      (r, found, active_between r.phase reached (rw e at (h.within pe r found).1))
