-- ===== src/Fabric/Passed.antt =====
-- The checks of a report in src/xpool/service/daemon/fabric.py, when all of them hold.
use cross_pool.Prelude.{
  ℕ, ◌≡◌, refl, inl, inr, true, false, not, ◌||◌, Option, none, some, is_some, length, any, ◌==◌,
  nat_eq, option_eq, Bool-cases, lt→ltb, Eq, option_beq_iff,
}
use cross_pool.Prelude.Result.{ok}
use cross_pool.Identity.{generation_id_eq, generation_id_beq_iff}
use cross_pool.Fabric.Phase.{
  stopped, generation_phase_eq, generation_is_iff, participant_phase_eq, participant_is_iff,
  join_ready,
}
use cross_pool.Fabric.State.{FabricGenerationState, FabricParticipantReport, failure_eq, report_eq}
use cross_pool.Fabric.Report.{
  check_report, check_edge, check_phase, validate_enrichment, allowed_phases, phase_changed,
}
use cross_pool.Fabric.Frame.{IsAccepted, Edge, Enriches}

check_edge-eq-ok :
    (previous : Option FabricParticipantReport) (report : FabricParticipantReport) (now : ℕ)
    (s : FabricGenerationState)
    → Edge previous report s
    → check_edge previous report now s ≡ (ok tt, s)
unfolding check_edge
check_edge-eq-ok none report now s h = rw ((participant_is_iff report.phase join_ready).1 h) refl
check_edge-eq-ok (some previous) report now s (inl same) =
    rw ((participant_is_iff report.phase previous.phase).1 same) refl
check_edge-eq-ok (some previous) report now s (inr next) =
    elim (Bool-cases (report.phase == previous.phase)) [
      | inl same ↦ rw same refl
      | inr other ↦ rw (other, next) refl
    ]

kept_test :
    {A : Type 0} ⦃e : Eq A⦄ (old new : Option A)
    → (is_some old ≡ true → new ≡ old)
    → not (is_some old) || new == old ≡ true
kept_test none new h = refl
kept_test (some a) new h = (option_beq_iff new (some a)).1 (h refl)

validate_enrichment-eq-ok :
    (previous : Option FabricParticipantReport) (report : FabricParticipantReport) (now : ℕ)
    (s : FabricGenerationState)
    → Enriches previous report
    → validate_enrichment previous report now s ≡ (ok tt, s)
unfolding validate_enrichment
validate_enrichment-eq-ok none report now s h = refl
validate_enrichment-eq-ok (some previous) report now s (invocation, control) =
    rw
      (
        kept_test previous.invocation_failure report.invocation_failure invocation,
        kept_test previous.control_failure report.control_failure control,
      )
      refl

check_phase-eq-ok :
    (previous : Option FabricParticipantReport) (report : FabricParticipantReport) (now : ℕ)
    (s : FabricGenerationState)
    → (phase_changed previous report ≡ true
        → any (λ p. p == report.phase) (allowed_phases s.phase) ≡ true)
    → check_phase previous report now s ≡ (ok tt, s)
unfolding check_phase
check_phase-eq-ok previous report now s h = elim (Bool-cases (phase_changed previous report)) [
  | inl moved ↦ rw (moved, h moved) refl
  | inr stays ↦ rw stays refl
]

pub check_report-eq-ok :
    (previous : Option FabricParticipantReport) (report : FabricParticipantReport) (now : ℕ)
    (s : FabricGenerationState)
    → IsAccepted previous report s
    → check_report previous report now s ≡ (ok tt, s)
unfolding check_report
check_report-eq-ok previous report now s a =
    rw
      (
        (generation_id_beq_iff report.generation s.plan.generation).1 a.same_generation,
        lt→ltb report.pe (length s.plan.pe_placements) a.known_pe,
        live,
      )
      (rw
        (
          check_edge-eq-ok previous report now s a.edge,
          validate_enrichment-eq-ok previous report now s a.enriched,
          check_phase-eq-ok previous report now s a.allowed,
        )
        refl)
  where
    live : (s.phase == stopped) ≡ false
    live = elim (Bool-cases (s.phase == stopped)) [
      | inl at ↦ absurd (a.live ((generation_is_iff s.phase stopped).0 at))
      | inr other ↦ other
    ]
