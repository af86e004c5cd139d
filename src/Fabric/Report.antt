-- ===== src/Fabric/Report.antt =====
-- What the controller of src/xpool/service/daemon/fabric.py does to an installed generation: the
-- choice of a cleanup, the checks of a participant's report, and the barrier. The controller's
-- methods, which find the generation, are in Fabric/Controller.antt.
use cross_pool.Prelude.{
  ℕ, zero, suc, Bool, true, false, not, ◌&&◌, ◌||◌, Option, none, some, List, [], ◌∷◌, ltb, length,
  all, any, is_some, ◌==◌, nat_eq, option_eq, string_eq, if◌then◌else◌,
}
use cross_pool.Prelude.Result.{daemon, conflict}
use cross_pool.Prelude.Action.{Action, pure, raise, modify, ◌>>◌}
use cross_pool.Prelude.Dict.{lookup, insert, keys, values}
use cross_pool.Identity.{generation_id_eq}
use cross_pool.Fabric.Phase.{
  FabricGenerationPhase, FabricParticipantPhase, preparing_join, preparing_execution, activating,
  executable, quiescing, finalizing, aborting, stopped, join_ready, joined, execution_ready, active,
  quiesced, drained, finalized, participant_allows, generation_phase_eq, participant_phase_eq,
}
use cross_pool.Fabric.State.{
  FabricGenerationState, FabricParticipantReport, Diagnostic, different_generation, unknown_pe,
  not_join_ready, bad_transition, replaced_invocation_failure, replaced_control_failure,
  invalid_phase, reported, transition, record_control_failure, record_invocation_failure,
  failure_eq, report_eq,
}

abbrev pub Change : Type 0
Change = Action FabricGenerationState (Unit {0})

-- `quiesce`, by the phase that it matches on.
abbrev quiesce_from : FabricGenerationPhase → ℕ → Change
quiesce_from preparing_join now = transition aborting now
quiesce_from FabricGenerationPhase.joining now = transition aborting now
quiesce_from preparing_execution now = transition aborting now
quiesce_from activating now = transition aborting now
quiesce_from executable now = transition quiescing now
quiesce_from _ now = pure tt

unfoldable pub quiesce_generation : ℕ → Change
unfolding transition
quiesce_generation now s = quiesce_from s.phase now s

unfoldable pub abort_generation : ℕ → Change
unfolding transition
abort_generation now s =
    if s.phase == aborting || s.phase == stopped then pure tt s else transition aborting now s

unfoldable pub reject_report : Diagnostic → ℕ → Change
unfolding record_control_failure abort_generation
reject_report message now = do
  record_control_failure message
  abort_generation now
  raise (daemon conflict)

-- `if not b: self.reject_report(message, now=now)`.
abbrev pub accept_if : Bool → Diagnostic → ℕ → Change
accept_if b message now s = if b then pure tt s else reject_report message now s

unfoldable pub allowed_phases : FabricGenerationPhase → List FabricParticipantPhase
allowed_phases preparing_join = join_ready ∷ []
allowed_phases FabricGenerationPhase.joining = FabricParticipantPhase.joining ∷ joined ∷ []
allowed_phases preparing_execution = execution_ready ∷ []
allowed_phases activating = active ∷ []
allowed_phases quiescing = quiesced ∷ []
allowed_phases FabricGenerationPhase.draining = FabricParticipantPhase.draining ∷ drained ∷ []
allowed_phases finalizing = finalized ∷ []
allowed_phases aborting = quiesced ∷ FabricParticipantPhase.draining ∷ drained ∷ []
allowed_phases _ = []

-- The first report of a participant, or the edge from its previous one.
unfoldable pub check_edge : Option FabricParticipantReport → FabricParticipantReport → ℕ → Change
unfolding participant_allows
check_edge none report now s = accept_if (report.phase == join_ready) not_join_ready now s
check_edge (some previous) report now s =
    accept_if
      (report.phase == previous.phase
        || participant_allows previous.phase report.phase (s.phase == aborting))
      (bad_transition previous.phase report.phase) now s

unfoldable pub validate_enrichment :
    Option FabricParticipantReport → FabricParticipantReport → ℕ → Change
validate_enrichment none report now = pure tt
validate_enrichment (some previous) report now = do
  accept_if
      (not (is_some previous.invocation_failure)
        || report.invocation_failure == previous.invocation_failure)
      replaced_invocation_failure now
  accept_if
      (not (is_some previous.control_failure) || report.control_failure == previous.control_failure)
      replaced_control_failure now

-- `phase_changed`.
abbrev pub phase_changed : Option FabricParticipantReport → FabricParticipantReport → Bool
phase_changed none report = true
phase_changed (some previous) report = not (report.phase == previous.phase)

unfoldable pub check_phase : Option FabricParticipantReport → FabricParticipantReport → ℕ → Change
unfolding allowed_phases
check_phase previous report now s =
    accept_if
      (not (
        phase_changed previous report
        && not (any (λ p. p == report.phase) (allowed_phases s.phase))))
      (invalid_phase report.phase s.phase) now s

-- The checks before a report is committed, in their order.
unfoldable pub check_report : Option FabricParticipantReport → FabricParticipantReport → ℕ → Change
unfolding check_edge validate_enrichment check_phase
check_report previous report now s =
    (do
      accept_if (report.generation == s.plan.generation) different_generation now
      accept_if (ltb report.pe (length s.plan.pe_placements)) unknown_pe now
      if s.phase == stopped then raise (daemon conflict) else pure tt
      check_edge previous report now
      validate_enrichment previous report now
      check_phase previous report now)
      s

abbrev pub barrier : FabricGenerationPhase → Option (FabricParticipantPhase × FabricGenerationPhase)
barrier preparing_join = some (join_ready, FabricGenerationPhase.joining)
barrier FabricGenerationPhase.joining = some (joined, preparing_execution)
barrier preparing_execution = some (execution_ready, activating)
barrier activating = some (active, executable)
barrier quiescing = some (quiesced, FabricGenerationPhase.draining)
barrier FabricGenerationPhase.draining = some (drained, finalizing)
barrier finalizing = some (finalized, stopped)
barrier _ = none

unfoldable pub all_reported : List (ℕ × FabricParticipantReport) → ℕ → Bool
all_reported participants zero = true
all_reported participants (suc n) =
    let rest = all_reported participants n in is_some (lookup n participants) && rest

-- `set(generation.participants) == set(range(count))`.
unfoldable pub complete : ℕ → List (ℕ × FabricParticipantReport) → Bool
unfolding all_reported
complete count participants =
    all (λ pe. ltb pe count) (keys participants) && all_reported participants count

-- `phases == {phase}`, for the set of the phases of all reports.
abbrev pub phases_are : FabricParticipantPhase → List FabricParticipantReport → Bool
phases_are phase [] = false
phases_are phase (r ∷ rs) = all (λ report. report.phase == phase) (r ∷ rs)

abbrev pub pass_barrier :
    Option (FabricParticipantPhase × FabricGenerationPhase)
    → List FabricParticipantReport
    → ℕ
    → Change
pass_barrier none reports now = pure tt
pass_barrier (some (reached, next)) reports now =
    if phases_are reached reports then transition next now else pure tt

unfoldable pub advance_barrier : ℕ → Change
unfolding transition
advance_barrier now s =
    if complete (length s.plan.pe_placements) s.participants
    then pass_barrier (barrier s.phase) (values s.participants) now s
    else pure tt s

-- `if failure is not None: record(failure)`.
abbrev pub when_some {ℓ} : {A : Type ℓ} → Option A → (A → Change) → Change
when_some none f = pure tt
when_some (some a) f = f a

abbrev pub is_draining : FabricGenerationPhase → Bool
is_draining p = p == quiescing || p == FabricGenerationPhase.draining || p == finalizing

-- The reaction to a committed report: a failure selects a cleanup, and else the barrier may advance.
unfoldable pub react : ℕ → Change
unfolding abort_generation quiesce_generation advance_barrier
react now s =
    if is_some s.control_failure
    then abort_generation now s
    else if is_some s.invocation_failure && not (is_draining s.phase)
    then quiesce_generation now s
    else advance_barrier now s

abbrev pub store_report : FabricParticipantReport → FabricGenerationState → FabricGenerationState
store_report report s = record s { participants = insert report.pe report s.participants }

unfoldable pub commit_report : FabricParticipantReport → ℕ → Change
unfolding record_invocation_failure record_control_failure react
commit_report report now = do
  modify (store_report report)
  when_some report.invocation_failure record_invocation_failure
  when_some report.control_failure (λ text. record_control_failure (reported text))
  react now

-- `record_participant` on the installed generation.
unfoldable pub accept_report : FabricParticipantReport → ℕ → Change
unfolding check_report commit_report
accept_report report now s =
    let previous = lookup report.pe s.participants in
    if previous == some report
    then pure tt s
    else (check_report previous report now >> commit_report report now) s
