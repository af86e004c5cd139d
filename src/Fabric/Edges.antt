-- ===== src/Fabric/Edges.antt =====
-- How the phase of a generation moves.
use cross_pool.Prelude.{ℕ, ◌≡◌, refl, subst, ◌⊎◌, inl, Bool, true, List, arith, nat_eq, option_eq}
use cross_pool.Prelude.Action.{◌>>◌}
use cross_pool.Fabric.Phase.{FabricGenerationPhase, allows, stopped, generation_phase_eq}
use cross_pool.Fabric.State.{
  FabricGenerationState, FabricParticipantReport, FabricOwnerFailure, Diagnostic,
  record_owner_failure, record_control_failure, transition, report_eq,
}
use cross_pool.Fabric.Report.{
  quiesce_generation, abort_generation, accept_report, reject_report, react, advance_barrier,
}
use cross_pool.Fabric.Controller.{depart, initialize}
use cross_pool.Fabric.Outcomes.{accept_ind}
use cross_pool.Identity.{InstanceRankId, ProcUniqId, FabricGenerationId}
use cross_pool.Fabric.History.{
  Call, call, run, run_ind, reports, initializes, departs, quiesces, aborts, stops, fails_owner,
  loses_instance, times_out,
}

-- The phase stays, or takes one edge of the lifecycle.
abbrev pub Moves : FabricGenerationPhase → FabricGenerationPhase → Type 0
Moves p q = (q ≡ p) ⊎ (allows p q ≡ true)

transition-Moves :
    (p : FabricGenerationPhase) (now : ℕ) (s : FabricGenerationState)
    → Moves s.phase (transition p now s).1.phase
unfolding transition
transition-Moves p now s = ground arith

quiesce-Moves :
    (now : ℕ) (s : FabricGenerationState) → Moves s.phase (quiesce_generation now s).1.phase
unfolding quiesce_generation allows
quiesce-Moves now s = ground arith

abort-Moves : (now : ℕ) (s : FabricGenerationState) → Moves s.phase (abort_generation now s).1.phase
unfolding abort_generation allows
abort-Moves now s = ground arith

advance-Moves :
    (now : ℕ) (s : FabricGenerationState) → Moves s.phase (advance_barrier now s).1.phase
unfolding advance_barrier allows
advance-Moves now s = ground arith

reject-Moves :
    (d : Diagnostic) (now : ℕ) (s : FabricGenerationState)
    → Moves s.phase (reject_report d now s).1.phase
unfolding reject_report allows
reject-Moves d now s = ground arith

react-Moves : (now : ℕ) (s : FabricGenerationState) → Moves s.phase (react now s).1.phase
unfolding react
react-Moves now s = ground (arith, abort-Moves now s, quiesce-Moves now s, advance-Moves now s)

accept-Moves :
    (report : FabricParticipantReport) (now : ℕ) (s : FabricGenerationState)
    → Moves s.phase (accept_report report now s).1.phase
accept-Moves report now s =
    accept_ind (λ r. Moves s.phase r.1.phase) report now s (λ d _. reject-Moves d now s)
      (λ _. inl refl)
      (λ _ t n.
        (subst (λ p. Moves p (react now t).1.phase) n.phase (react-Moves now t), λ e. inl n.phase))
      (λ _. inl refl)

depart-Moves :
    (instance_rank : InstanceRankId) (failure : FabricOwnerFailure) (leases_quiescing : Bool)
    (now : ℕ) (s : FabricGenerationState)
    → Moves s.phase (depart instance_rank failure leases_quiescing now s).1.phase
unfolding depart allows
depart-Moves instance_rank failure leases_quiescing now s = ground arith

initialize-phase :
    (instance_rank : InstanceRankId) (owner : ProcUniqId) (generation : FabricGenerationId)
    (s : FabricGenerationState)
    → (initialize instance_rank owner generation s).1.phase ≡ s.phase
unfolding initialize
initialize-phase instance_rank owner generation s = ground arith

fails_owner-Moves :
    (failure : FabricOwnerFailure) (now : ℕ) (s : FabricGenerationState)
    → Moves s.phase (abort_generation now (record_owner_failure failure s)).1.phase
unfolding abort_generation record_owner_failure allows
fails_owner-Moves failure now s = ground arith

loses_instance-Moves :
    (failure : FabricOwnerFailure) (now : ℕ) (s : FabricGenerationState)
    → Moves s.phase (quiesce_generation now (record_owner_failure failure s)).1.phase
unfolding quiesce_generation record_owner_failure allows
loses_instance-Moves failure now s = ground arith

times_out-Moves :
    (failure : Diagnostic) (now : ℕ) (s : FabricGenerationState)
    → Moves s.phase ((record_control_failure failure >> abort_generation now) s).1.phase
unfolding abort_generation record_control_failure allows
times_out-Moves failure now s = ground arith

-- Every call, whether it returns or raises, leaves the phase or takes one edge of the lifecycle.
pub call-Moves : (c : Call) (s : FabricGenerationState) → Moves s.phase (call c s).1.phase
unfolding call
call-Moves (reports report now) s = accept-Moves report now s
call-Moves (initializes instance_rank owner generation) s =
    inl (initialize-phase instance_rank owner generation s)
call-Moves (departs instance_rank failure leases_quiescing now) s =
    depart-Moves instance_rank failure leases_quiescing now s
call-Moves (quiesces now) s = quiesce-Moves now s
call-Moves (aborts now) s = abort-Moves now s
call-Moves (stops now) s = ground (arith, transition-Moves stopped now s)
call-Moves (fails_owner failure now) s = fails_owner-Moves failure now s
call-Moves (loses_instance failure now) s = loses_instance-Moves failure now s
call-Moves (times_out failure now) s = times_out-Moves failure now s

-- A generation that is stopped stays stopped in any history.
pub run-stopped :
    (s : FabricGenerationState) (cs : List Call) → s.phase ≡ stopped → (run s cs).phase ≡ stopped
unfolding allows
run-stopped s cs = run_ind (λ t. t.phase ≡ stopped) (λ c t h. ground (arith, call-Moves c t)) s cs
