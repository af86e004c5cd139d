-- ===== src/Fabric/InStep.antt =====
-- Every call keeps the generation in step with its participants.
use cross_pool.Prelude.{
  ℕ, ◌≡◌, refl, sym, ◌⊎◌, inl, inr, subst, Bool, true, Option, none, some, arith, nat_eq,
  Bool-cases, length,
}
use cross_pool.Prelude.Action.{◌>>◌}
use cross_pool.Prelude.Dict.{values}
use cross_pool.Identity.{InstanceRankId, ProcUniqId, FabricGenerationId}
use cross_pool.Fabric.Phase.{
  FabricGenerationPhase, FabricParticipantPhase, preparing_join, allows, participant_phase_eq,
}
use cross_pool.Fabric.State.{
  FabricGenerationState, FabricParticipantReport, FabricOwnerFailure, Diagnostic,
  record_owner_failure, record_control_failure, transition,
}
use cross_pool.Fabric.Report.{
  quiesce_generation, abort_generation, accept_report, reject_report, react, advance_barrier,
  complete, barrier, phases_are, pass_barrier,
}
use cross_pool.Fabric.Controller.{depart, initialize}
use cross_pool.Fabric.History.{
  Call, call, reports, initializes, departs, quiesces, aborts, stops, fails_owner, loses_instance,
  times_out,
}
use cross_pool.Fabric.Outcomes.{accept_ind}
use cross_pool.Fabric.Noted.{Noted}
use cross_pool.Fabric.Barrier.{
  InStep, Eases, ◌⊑◌, HasReached, entered_by, left_by, Eases-InStep, store-InStep,
  barrier-HasReached,
}

-- A cleanup leaves the plan and the reports alone, and asks nothing new of the participants.
abbrev Calms : FabricGenerationState → FabricGenerationState → Type 0
Calms s t = (t.plan ≡ s.plan) × (t.participants ≡ s.participants) × Eases s.phase t.phase

Calms-InStep : {s t : FabricGenerationState} → Calms s t → InStep s → InStep t
Calms-InStep c h = Eases-InStep h c.0 c.1 c.2

abort-Calms : (now : ℕ) (s : FabricGenerationState) → Calms s (abort_generation now s).1
unfolding abort_generation allows
abort-Calms now s = ground arith

quiesce-Calms : (now : ℕ) (s : FabricGenerationState) → Calms s (quiesce_generation now s).1
unfolding quiesce_generation allows
quiesce-Calms now s = ground arith

reject-Calms :
    (d : Diagnostic) (now : ℕ) (s : FabricGenerationState) → Calms s (reject_report d now s).1
unfolding reject_report allows
reject-Calms d now s = ground arith

depart-Calms :
    (instance_rank : InstanceRankId) (failure : FabricOwnerFailure) (leases_quiescing : Bool)
    (now : ℕ) (s : FabricGenerationState)
    → Calms s (depart instance_rank failure leases_quiescing now s).1
unfolding depart allows
depart-Calms instance_rank failure leases_quiescing now s = ground arith

initialize-Calms :
    (instance_rank : InstanceRankId) (owner : ProcUniqId) (generation : FabricGenerationId)
    (s : FabricGenerationState)
    → Calms s (initialize instance_rank owner generation s).1
unfolding initialize
initialize-Calms instance_rank owner generation s = ground arith

fails_owner-Calms :
    (failure : FabricOwnerFailure) (now : ℕ) (s : FabricGenerationState)
    → Calms s (abort_generation now (record_owner_failure failure s)).1
unfolding abort_generation record_owner_failure allows
fails_owner-Calms failure now s = ground arith

loses_instance-Calms :
    (failure : FabricOwnerFailure) (now : ℕ) (s : FabricGenerationState)
    → Calms s (quiesce_generation now (record_owner_failure failure s)).1
unfolding quiesce_generation record_owner_failure allows
loses_instance-Calms failure now s = ground arith

times_out-Calms :
    (failure : Diagnostic) (now : ℕ) (s : FabricGenerationState)
    → Calms s ((record_control_failure failure >> abort_generation now) s).1
unfolding abort_generation record_control_failure allows
times_out-Calms failure now s = ground arith

stops-Calms : (now : ℕ) (s : FabricGenerationState) → Calms s (call (stops now) s).1
unfolding call transition allows
stops-Calms now s = ground arith

barrier-fits :
    (p : FabricGenerationPhase) {reached : FabricParticipantPhase} {next : FabricGenerationPhase}
    → barrier p ≡ some (reached, next)
    → ((q : FabricParticipantPhase) → entered_by next ≡ some q → q ≡ reached)
      × (left_by p ⊑ left_by next)
barrier-fits preparing_join e = ground arith
barrier-fits _ e = ground arith

transition_cases :
    (next : FabricGenerationPhase) (now : ℕ) (s : FabricGenerationState)
    → ((transition next now s).1 ≡ s)
      ⊎ ((transition next now s).1 ≡ record s { phase = next; phase_started_at = now })
unfolding transition
transition_cases next now s = ground arith

module _ {s : FabricGenerationState} (h : InStep s) (now : ℕ)
    (full : complete (length s.plan.pe_placements) s.participants ≡ true) where
  transition-InStep :
      (reached : FabricParticipantPhase) (next : FabricGenerationPhase)
      → barrier s.phase ≡ some (reached, next)
      → phases_are reached (values s.participants) ≡ true
      → InStep (transition next now s).1
  transition-InStep reached next b same = elim (transition_cases next now s) [
    | inl e ↦ rw e h
    | inr e ↦ rw e (record {
      entered = λ q eq pe l.
          subst (λ p. HasReached s.participants p pe) (sym ((barrier-fits s.phase b).0 q eq))
            (barrier-HasReached reached _ pe s.participants full same l);
      within = λ pe r found.
          let w = h.within pe r found in (w.0, omega (arith, w.1, (barrier-fits s.phase b).1));
    })
  ]

  pass-InStep :
      (b : Option (FabricParticipantPhase × FabricGenerationPhase))
      → barrier s.phase ≡ b
      → InStep (pass_barrier b (values s.participants) now s).1
  pass-InStep none e = h
  pass-InStep (some (reached, next)) e =
      elim (Bool-cases (phases_are reached (values s.participants))) [
        | inl same ↦ rw same (transition-InStep reached next e same)
        | inr other ↦ rw other h
      ]

advance-InStep : (now : ℕ) (s : FabricGenerationState) → InStep s → InStep (advance_barrier now s).1
unfolding advance_barrier
advance-InStep now s h = elim (Bool-cases (complete (length s.plan.pe_placements) s.participants)) [
  | inl full ↦ rw full (pass-InStep h now full (barrier s.phase) refl)
  | inr open_slots ↦ rw open_slots h
]

react-InStep : (now : ℕ) (s : FabricGenerationState) → InStep s → InStep (react now s).1
unfolding react
react-InStep now s h = ground (
  arith,
  Calms-InStep (abort-Calms now s) h,
  Calms-InStep (quiesce-Calms now s) h,
  advance-InStep now s h,
)

Noted-InStep : {s t : FabricGenerationState} → Noted s t → InStep s → InStep t
Noted-InStep {s} {t} n h =
    Eases-InStep h n.plan n.participants
      (subst (λ p. Eases s.phase p) (sym n.phase) ((λ r e. e), omega arith))

accept-InStep :
    (report : FabricParticipantReport) (now : ℕ) (s : FabricGenerationState)
    → InStep s
    → InStep (accept_report report now s).1
accept-InStep report now s h =
    accept_ind (λ r. InStep r.1) report now s (λ d _. Calms-InStep (reject-Calms d now s) h)
      (λ _. h)
      (λ a t n.
        let stored = Noted-InStep n (store-InStep h report a) in
        (react-InStep now t stored, λ e. stored))
      (λ _. h)

-- A call, whether it returns or raises, keeps the generation in step with its participants.
pub call-InStep : (c : Call) (s : FabricGenerationState) → InStep s → InStep (call c s).1
unfolding call
call-InStep (reports report now) s h = accept-InStep report now s h
call-InStep (initializes i owner generation) s h =
    Calms-InStep (initialize-Calms i owner generation s) h
call-InStep (departs i failure leases now) s h =
    Calms-InStep (depart-Calms i failure leases now s) h
call-InStep (quiesces now) s h = Calms-InStep (quiesce-Calms now s) h
call-InStep (aborts now) s h = Calms-InStep (abort-Calms now s) h
call-InStep (stops now) s h = Calms-InStep (stops-Calms now s) h
call-InStep (fails_owner failure now) s h = Calms-InStep (fails_owner-Calms failure now s) h
call-InStep (loses_instance failure now) s h = Calms-InStep (loses_instance-Calms failure now s) h
call-InStep (times_out failure now) s h = Calms-InStep (times_out-Calms failure now s) h
