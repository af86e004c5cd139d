-- ===== src/Fabric/Barrier.antt =====
-- The barrier between the generation's phases and the reports of its participants.
use cross_pool.Prelude.{
  ℕ, suc, zero, ◌≤◌, ◌<◌, ◌≡◌, refl, sym, subst, ◌⊎◌, inl, inr, Bool, true, not, Option, none, some,
  List, [], ◌∷◌, arith, ◌==◌, nat_eq, nat_beq_iff, length, all, any, and_true, Bool-cases,
  Option-cases, ap, ◌≢◌, nat_beq,
}
use cross_pool.Prelude.Dict.{lookup, insert, lookup-insert, values}
use cross_pool.Fabric.Phase.{
  FabricGenerationPhase, FabricParticipantPhase, preparing_join, preparing_execution, activating,
  executable, quiescing, finalizing, join_ready, active, participant_index, participant_allows,
  participant_phase_eq, participant_is_iff, generation_phase_eq,
}
use cross_pool.Fabric.State.{FabricGenerationState, FabricParticipantReport, FabricDeploymentPlan}
use cross_pool.Fabric.Report.{
  allowed_phases, all_reported, complete, phases_are, phase_changed, store_report,
}
use cross_pool.Fabric.Frame.{Edge, IsAccepted}

-- The phase that every participant has reported at least, once the generation has passed the barrier
-- before its own phase. A generation that aborts passes no barrier.
abbrev pub entered_by : FabricGenerationPhase → Option FabricParticipantPhase
entered_by FabricGenerationPhase.joining = some join_ready
entered_by preparing_execution = some FabricParticipantPhase.joined
entered_by activating = some FabricParticipantPhase.execution_ready
entered_by executable = some active
entered_by quiescing = some active
entered_by FabricGenerationPhase.draining = some FabricParticipantPhase.quiesced
entered_by finalizing = some FabricParticipantPhase.drained
entered_by _ = none

-- The last phase that a participant may report in a phase of the generation.
abbrev pub left_by : FabricGenerationPhase → FabricParticipantPhase
left_by preparing_join = join_ready
left_by FabricGenerationPhase.joining = FabricParticipantPhase.joined
left_by preparing_execution = FabricParticipantPhase.execution_ready
left_by activating = active
left_by executable = active
left_by quiescing = FabricParticipantPhase.quiesced
left_by FabricGenerationPhase.draining = FabricParticipantPhase.drained
left_by _ = FabricParticipantPhase.finalized

infix 50 ◌⊑◌
abbrev pub ◌⊑◌ : FabricParticipantPhase → FabricParticipantPhase → Type 0
p ⊑ q = participant_index p ≤ participant_index q

allows-⊑ : (p q : FabricParticipantPhase) (b : Bool) → participant_allows p q b ≡ true → p ⊑ q
unfolding participant_allows
allows-⊑ join_ready q b h = ground arith
allows-⊑ _ q b h = ground arith

allowed-⊑ :
    (p : FabricGenerationPhase) (q : FabricParticipantPhase)
    → any (λ r. r == q) (allowed_phases p) ≡ true
    → q ⊑ left_by p
unfolding allowed_phases
allowed-⊑ preparing_join q h = ground arith
allowed-⊑ _ q h = ground arith

module _ (participants : List (ℕ × FabricParticipantReport)) where
  abbrev pub HasReached : FabricParticipantPhase → ℕ → Type 0
  HasReached p pe =
      (r : FabricParticipantReport) × (lookup pe participants ≡ some r) × (p ⊑ r.phase)

  reported-ne-none :
      (count pe : ℕ)
      → all_reported participants count ≡ true
      → pe < count
      → lookup pe participants ≢ none
  unfolding all_reported
  reported-ne-none zero pe h l e = absurd (omega arith)
  reported-ne-none (suc n) pe h l e = elim (Bool-cases (nat_beq pe n)) [
    | inl last ↦ ground (arith, ap (λ k. lookup k participants) ((nat_beq_iff pe n).0 last))
    | inr other ↦ ground (arith, reported-ne-none n pe)
  ]

lookup-phase :
    (p : FabricParticipantPhase) (pe : ℕ) (r : FabricParticipantReport)
    (participants : List (ℕ × FabricParticipantReport))
    → lookup pe participants ≡ some r
    → all (λ report. report.phase == p) (values participants) ≡ true
    → r.phase ≡ p
unfolding lookup
lookup-phase p pe r [] e h = cc
lookup-phase p pe r ((j, v) ∷ m) e h =
    ground (arith, lookup-phase p pe r m, participant_is_iff v.phase p)

phases-all :
    (p : FabricParticipantPhase) (rs : List FabricParticipantReport)
    → phases_are p rs ≡ true
    → all (λ report. report.phase == p) rs ≡ true
phases-all p [] h = cc
phases-all p (r ∷ rs) h = h

-- A full barrier: every participant's last report is at the phase that was waited for.
pub barrier-HasReached :
    (p : FabricParticipantPhase) (count pe : ℕ) (participants : List (ℕ × FabricParticipantReport))
    → complete count participants ≡ true
    → phases_are p (values participants) ≡ true
    → pe < count
    → HasReached participants p pe
unfolding complete
barrier-HasReached p count pe participants full same l =
    elim (Option-cases (lookup pe participants)) [
      | inl e ↦ absurd (reported-ne-none participants count pe (and_true _ _ full).1 l e)
      | inr (r, e) ↦ (
        r,
        e,
        omega (
          arith,
          ap participant_index (lookup-phase p pe r participants e (phases-all p _ same)),
        ),
      )
    ]

-- The generation is in step with its participants.
pub record InStep (s : FabricGenerationState) : Type 0 where
  -- no phase is entered before every participant has passed the barrier to it
  pub entered :
      (p : FabricParticipantPhase)
      → entered_by s.phase ≡ some p
      → (pe : ℕ) → pe < length s.plan.pe_placements
      → HasReached s.participants p pe
  -- no participant runs ahead of the generation
  pub within :
      (pe : ℕ) (r : FabricParticipantReport)
      → lookup pe s.participants ≡ some r
      → (pe < length s.plan.pe_placements) × (r.phase ⊑ left_by s.phase)

-- A phase change that asks nothing new of the participants.
abbrev pub Eases : FabricGenerationPhase → FabricGenerationPhase → Type 0
Eases p q =
    ((r : FabricParticipantPhase) → entered_by q ≡ some r → entered_by p ≡ some r)
    × (left_by p ⊑ left_by q)

pub Eases-InStep :
    {s t : FabricGenerationState}
    → InStep s
    → t.plan ≡ s.plan
    → t.participants ≡ s.participants
    → Eases s.phase t.phase
    → InStep t
Eases-InStep {s} {t} h plan participants eases = record {
  entered = λ p e pe l.
      subst (λ ps. HasReached ps p pe) (sym participants)
        (h.entered p (eases.0 p e) pe
          (subst (λ (pl : FabricDeploymentPlan). pe < length pl.pe_placements) plan l));
  within = λ pe r e.
      let w = h.within pe r (subst (λ ps. lookup pe ps ≡ some r) participants e) in
      (
        subst (λ (pl : FabricDeploymentPlan). pe < length pl.pe_placements) (sym plan) w.0,
        omega (arith, w.1, eases.1),
      );
}

edge-⊑ :
    (r report : FabricParticipantReport) (s : FabricGenerationState)
    → Edge (some r) report s
    → r.phase ⊑ report.phase
edge-⊑ r report s (inl same) = omega (arith, ap participant_index same)
edge-⊑ r report s (inr next) = allows-⊑ r.phase report.phase _ next

changed_cases :
    (previous : Option FabricParticipantReport) (report : FabricParticipantReport)
    → (phase_changed previous report ≡ true)
      ⊎ ((r : FabricParticipantReport) × (previous ≡ some r) × (report.phase ≡ r.phase))
changed_cases none report = inl refl
changed_cases (some r) report = elim (Bool-cases (report.phase == r.phase)) [
  | inl e ↦ inr (r, refl, (participant_is_iff _ _).0 e)
  | inr e ↦ inl (ap not e)
]

module _ {s : FabricGenerationState} (h : InStep s) (report : FabricParticipantReport)
    (a : IsAccepted (lookup report.pe s.participants) report s) where
  -- The report that is stored does not fall behind the one that it replaces.
  stored-entered :
      (p : FabricParticipantPhase)
      → entered_by s.phase ≡ some p
      → (pe : ℕ) → pe < length s.plan.pe_placements
      → HasReached (insert report.pe report s.participants) p pe
  stored-entered p e pe l =
      let (r, found, reached) = h.entered p e pe l in
      elim (Bool-cases (nat_beq report.pe pe)) [
        | inl same ↦
            let pe_eq = (nat_beq_iff report.pe pe).0 same in
            let found' = subst (λ k. lookup k s.participants ≡ some r) (sym pe_eq) found in
            (
              report,
              rw (lookup-insert, same),
              omega
                  (arith, reached, edge-⊑ r report s (subst (λ o. Edge o report s) found' a.edge)),
            )
        | inr other ↦ (r, rw (lookup-insert, other) found, reached)
      ]

  report-within : report.phase ⊑ left_by s.phase
  report-within = elim (changed_cases (lookup report.pe s.participants) report) [
    | inl changed ↦ allowed-⊑ s.phase report.phase (a.allowed changed)
    | inr (r, found, same) ↦
        omega (arith, (h.within report.pe r found).1, ap participant_index same)
  ]

  stored-within :
      (pe : ℕ) (r : FabricParticipantReport)
      → lookup pe (insert report.pe report s.participants) ≡ some r
      → (pe < length s.plan.pe_placements) × (r.phase ⊑ left_by s.phase)
  stored-within pe r e = elim (Bool-cases (nat_beq report.pe pe)) [
    | inl same ↦
        let e' = rw (lookup-insert, same) at e in ground (arith, e', a.known_pe, report-within)
    | inr other ↦ h.within pe r (rw (lookup-insert, other) at e)
  ]

  pub store-InStep : InStep (store_report report s)
  store-InStep = record { entered = stored-entered; within = stored-within }
