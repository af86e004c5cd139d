-- ===== src/Examples/Generations.antt =====
-- Runs of a fabric generation.
use cross_pool.Prelude.{
  ℕ, ◌<◌, ◌≤◌, ◌+◌, map, get_elem?, nat_eq, ◌≡◌, refl, ◌⊎◌, if◌then◌else◌, ◌==◌, length, some, [],
  ◌∷◌, arith,
}
use cross_pool.Prelude.Dict.{lookup, insert}
use cross_pool.Prelude.Result.{ok, err, daemon, conflict}
use cross_pool.Fabric.Phase.{
  join_ready, executable, stopped, active, generation_phase_eq, participant_phase_eq,
}
use cross_pool.Fabric.State.{atnagent, ffnagent, FabricParticipantReport}
use cross_pool.Fabric.History.{aborts, quiesces, stops, call, run, created}
use cross_pool.Fabric.Report.{accept_report, complete}
use cross_pool.Fabric.Controller.{initialize}
use cross_pool.Fabric.Edges.{Moves, call-Moves, run-stopped}
use cross_pool.Fabric.Barrier.{InStep}
use cross_pool.Fabric.Serving.{executable-active, run-InStep}
use cross_pool.Fabric.Participants.{
  Verdict, accept-Verdict, accept_retry, MayInitialize, initialize-cases,
}
use cross_pool.Fabric.Failures.{KeepsFailures, run-KeepsFailures}
use cross_pool.Fabric.Stopping.{Finishes}
use cross_pool.Identity.{rank_eq}
use cross_pool.Fabric.Layout.{validate_order, role_of, validate_order-eq-ok}
use cross_pool.Examples.Samples.{plan, owner, instance_rank, report_of, installed, launch}

launched : (run installed launch).phase ≡ executable
unfolding run call accept_report created lookup insert complete
launched = refl

call-Moves_example : Moves installed.phase (call (aborts 20) installed).1.phase
call-Moves_example = call-Moves (aborts 20) installed

was_stopped : (run installed (aborts 20 ∷ stops 21 ∷ [])).phase ≡ stopped
unfolding run call accept_report created lookup insert complete
was_stopped = refl

run-stopped_example : (run (run installed (aborts 20 ∷ stops 21 ∷ [])) launch).phase ≡ stopped
run-stopped_example = run-stopped (run installed (aborts 20 ∷ stops 21 ∷ [])) launch was_stopped

run-InStep_example :
    InStep (run installed launch)
    × Finishes (run installed launch) (call (quiesces 21) (run installed launch)).1
run-InStep_example =
    run-InStep plan 10 ((0, owner) ∷ (1, owner) ∷ []) ((instance_rank, owner) ∷ []) launch
      (quiesces 21)

executable-active_example :
    (r : FabricParticipantReport) × (lookup 1 (run installed launch).participants ≡ some r)
    × (r.phase ≡ active)
executable-active_example =
    executable-active plan 10 ((0, owner) ∷ (1, owner) ∷ []) ((instance_rank, owner) ∷ []) launch 1
      launched (omega arith)

-- The first report of a launch is taken.
joined_up :
    accept_report (report_of 0 join_ready) 11 installed
    ≡ (ok tt, (accept_report (report_of 0 join_ready) 11 installed).1)
unfolding accept_report created lookup insert complete
joined_up = refl

accept_retry_example :
    accept_report
      (report_of 0 join_ready)
      30
      (accept_report (report_of 0 join_ready) 11 installed).1
    ≡ (ok tt, (accept_report (report_of 0 join_ready) 11 installed).1)
accept_retry_example =
    accept_retry (report_of 0 join_ready) 11 30 installed
      (accept_report (report_of 0 join_ready) 11 installed).1 joined_up

accept-Verdict_example :
    Verdict (report_of 0 active) installed (accept_report (report_of 0 active) 11 installed)
accept-Verdict_example = accept-Verdict (report_of 0 active) 11 installed

initialize-cases_example :
    let s = run installed launch in
    let r = initialize instance_rank owner plan.generation s in
    (MayInitialize instance_rank owner plan.generation s
      × (r.0 ≡ ok tt)
      × (lookup instance_rank r.1.initialized_instances ≡ (
          if instance_rank == instance_rank
          then some owner
          else lookup instance_rank s.initialized_instances))
      × (r.1.phase ≡ s.phase)
      × (r.1.participants ≡ s.participants))
    ⊎ ((¬ MayInitialize instance_rank owner plan.generation s) × (r ≡ (err (daemon conflict), s)))
initialize-cases_example =
    initialize-cases instance_rank owner plan.generation (run installed launch) instance_rank

run-KeepsFailures_example :
    KeepsFailures (run installed (aborts 20 ∷ [])) (run (run installed (aborts 20 ∷ [])) launch)
run-KeepsFailures_example = run-KeepsFailures (run installed (aborts 20 ∷ [])) launch

ordered : validate_order plan.pe_placements ≡ ok (1, 1)
unfolding validate_order
ordered = refl

validate_order-eq-ok_example :
    (0 < 1)
    × (0 < 1)
    × (1 + 1 ≡ length plan.pe_placements)
    × ((pe : ℕ) → pe < 1 → get_elem? (map role_of plan.pe_placements) pe ≡ some atnagent)
    × ((pe : ℕ)
        → 1 ≤ pe
        → pe < 1 + 1
        → get_elem? (map role_of plan.pe_placements) pe ≡ some ffnagent)
validate_order-eq-ok_example = validate_order-eq-ok plan.pe_placements 1 1 ordered
