-- ===== src/Fabric/Stopping.antt =====
-- The end of a generation that drains: it stops only with the last reports of all its PEs.
use cross_pool.Prelude.{
  ℕ, ◌<◌, ◌≡◌, ◌∙◌, inl, inr, subst, sym, true, length, arith, nat_eq, Bool-cases, ◌≢◌, is_some,
  not, ◌&&◌,
}
use cross_pool.Prelude.Dict.{values}
use cross_pool.Fabric.Phase.{
  FabricGenerationPhase, finalizing, stopped, finalized, allows, participant_phase_eq,
  generation_phase_eq,
}
use cross_pool.Fabric.State.{FabricGenerationState, Diagnostic, transition}
use cross_pool.Fabric.Report.{
  reject_report, react, advance_barrier, abort_generation, quiesce_generation, complete, phases_are,
  pass_barrier, barrier, is_draining,
}
use cross_pool.Fabric.Controller.{depart, initialize}
use cross_pool.Fabric.History.{Call, call, reports, departs}
use cross_pool.Fabric.Outcomes.{accept_ind}
use cross_pool.Fabric.Barrier.{HasReached, barrier-HasReached}

-- Where a generation goes from finalizing to stopped, all PEs of its plan have reported `finalized`.
abbrev pub Finishes : FabricGenerationState → FabricGenerationState → Type 0
Finishes s t =
    s.phase ≡ finalizing
    → t.phase ≡ stopped
    → (pe : ℕ) → pe < length s.plan.pe_placements
    → HasReached t.participants finalized pe

transition-stopped :
    (next : FabricGenerationPhase) (now : ℕ) (s : FabricGenerationState)
    → ((transition next now s).1.participants ≡ s.participants)
unfolding transition
transition-stopped next now s = ground arith

abort_other :
    (now : ℕ) (s : FabricGenerationState)
    → s.phase ≡ finalizing
    → (abort_generation now s).1.phase ≢ stopped
unfolding abort_generation allows
abort_other now s at same = ground arith

reject_other :
    (d : Diagnostic) (now : ℕ) (s : FabricGenerationState)
    → s.phase ≡ finalizing
    → (reject_report d now s).1.phase ≢ stopped
unfolding reject_report allows
reject_other d now s at same = ground arith

quiesce_other :
    (now : ℕ) (s : FabricGenerationState)
    → s.phase ≡ finalizing
    → (quiesce_generation now s).1.phase ≢ stopped
unfolding quiesce_generation allows
quiesce_other now s at same = ground arith

module _ (now : ℕ) (s : FabricGenerationState) where
  pass-Finishes :
      complete (length s.plan.pe_placements) s.participants ≡ true
      → s.phase ≡ finalizing
      → Finishes s (pass_barrier (barrier s.phase) (values s.participants) now s).1
  pass-Finishes full at =
      subst (λ p. Finishes s (pass_barrier (barrier p) (values s.participants) now s).1) (sym at)
        (elim (Bool-cases (phases_are finalized (values s.participants))) [
          | inl same ↦ rw same (λ _ _ pe l.
              subst (λ ps. HasReached ps finalized pe) (sym (transition-stopped stopped now s))
                (barrier-HasReached finalized _ pe s.participants full same l))
          | inr other ↦ rw other (λ at end_. absurd (ground arith))
        ])

  advance-Finishes : Finishes s (advance_barrier now s).1
  unfolding advance_barrier
  advance-Finishes = elim (Bool-cases (complete (length s.plan.pe_placements) s.participants)) [
    | inl full ↦ rw full (λ at. pass-Finishes full at at)
    | inr open_slots ↦ rw open_slots (λ at end_. absurd (ground arith))
  ]

  react-Finishes : Finishes s (react now s).1
  unfolding react
  react-Finishes = elim (Bool-cases (is_some s.control_failure)) [
    | inl failed ↦ rw failed (λ at end_. absurd (abort_other now s at end_))
    | inr well ↦ elim (Bool-cases (is_some s.invocation_failure && not (is_draining s.phase))) [
      | inl failed ↦ rw (well, failed) (λ at end_. absurd (quiesce_other now s at end_))
      | inr calm ↦ rw (well, calm) advance-Finishes
    ]
  ]

stays-Finishes :
    (s t : FabricGenerationState) → (s.phase ≡ finalizing → t.phase ≢ stopped) → Finishes s t
stays-Finishes s t other at end_ = absurd (other at end_)

pub call-Finishes : (c : Call) (s : FabricGenerationState) → Finishes s (call c s).1
unfolding call depart initialize abort_generation quiesce_generation transition allows
call-Finishes (reports report now) s =
    accept_ind (λ r. Finishes s r.1) report now s
      (λ d _ at end_. absurd (reject_other d now s at end_)) (λ _ at end_. cc)
      (λ a t n. (
        λ at end_ pe l.
            react-Finishes now t (n.phase ∙ at) end_ pe
              (subst (λ p. pe < length p.pe_placements) (sym n.plan) l),
        λ e at end_. absurd (let same = n.phase in cc),
      ))
      (λ _ at end_. cc)
call-Finishes (departs i failure leases now) s =
    stays-Finishes s (depart i failure leases now s).1 (λ at. ground arith)
call-Finishes c s = stays-Finishes s (call c s).1 (λ at. ground arith)
