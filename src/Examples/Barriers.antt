-- ===== src/Examples/Barriers.antt =====
-- The last report that the first barrier of a generation waits for.
use cross_pool.Prelude.{◌≡◌, ◌≢◌, refl, some, [], ◌∷◌, arith, nat_eq, subst, sym}
use cross_pool.Prelude.Result.{ok}
use cross_pool.Prelude.Dict.{lookup, insert}
use cross_pool.Fabric.Phase.{
  join_ready, quiescing, FabricGenerationPhase, generation_phase_eq, participant_phase_eq, allows,
}
use cross_pool.Fabric.State.{FabricGenerationState}
use cross_pool.Fabric.History.{call, run, created, reports}
use cross_pool.Fabric.Report.{accept_report, complete, store_report, allowed_phases}
use cross_pool.Fabric.Frame.{IsAccepted}
use cross_pool.Fabric.Progress.{OthersAt, run-advances}
use cross_pool.Examples.Samples.{plan, owner, instance_rank, report_of, installed}

abbrev half : FabricGenerationState
half = run installed (reports (report_of 0 join_ready) 11 ∷ [])

fresh : lookup 1 half.participants ≢ some (report_of 1 join_ready)
unfolding run call accept_report created lookup insert complete
fresh e = cc

half-IsAccepted : IsAccepted (lookup 1 half.participants) (report_of 1 join_ready) half
unfolding run call accept_report created lookup insert complete allowed_phases
half-IsAccepted = record {
  same_generation = refl;
  known_pe = omega arith;
  live = λ e. cc;
  edge = refl;
  enriched = tt;
  allowed = λ _. refl;
}

others : OthersAt (report_of 1 join_ready) half
unfolding run call accept_report created lookup insert complete
others pe below apart =
    let at : pe ≡ 0 = ground (arith, apart) in
    (
      report_of 0 join_ready,
      subst (λ i. lookup i half.participants ≡ some (report_of 0 join_ready)) (sym at) refl,
      refl,
    )

joining-ne-quiescing : FabricGenerationPhase.joining ≢ quiescing
joining-ne-quiescing e = cc

run-advances_example : accept_report (report_of 1 join_ready) 12 half ≡ (
  ok tt,
  record (store_report (report_of 1 join_ready) half) {
    phase = FabricGenerationPhase.joining;
    phase_started_at = 12;
  },
)
unfolding run call accept_report created lookup insert complete allows
run-advances_example =
    run-advances plan 10 ((0, owner) ∷ (1, owner) ∷ []) ((instance_rank, owner) ∷ [])
      (reports (report_of 0 join_ready) 11 ∷ []) (report_of 1 join_ready) 12
      FabricGenerationPhase.joining fresh half-IsAccepted refl refl refl refl others refl refl
      joining-ne-quiescing
