-- ===== src/Fabric/Failures.antt =====
-- What a generation keeps of its failures, what a rejected report does, and retries.
use cross_pool.Prelude.{ℕ, List, arith, nat_eq, option_eq}
use cross_pool.Fabric.State.{FabricGenerationState, FabricParticipantReport, Diagnostic, report_eq}
use cross_pool.Fabric.Report.{reject_report, react, advance_barrier, store_report}
use cross_pool.Fabric.History.{Call, call, run, run_ind, reports, departs}
use cross_pool.Fabric.Outcomes.{accept_ind}
use cross_pool.Fabric.Noted.{Noted, Retains}

-- The first failure of each kind stays.
pub record KeepsFailures (s t : FabricGenerationState) : Type 0 where
  pub invocation : Retains s.invocation_failure t.invocation_failure
  pub owner : Retains s.owner_failure t.owner_failure
  pub control : Retains s.control_failure t.control_failure

KeepsFailures-trans :
    {s t u : FabricGenerationState} → KeepsFailures s t → KeepsFailures t u → KeepsFailures s u
KeepsFailures-trans {s} {t} {u} h k = ground arith

reject-KeepsFailures :
    (d : Diagnostic) (now : ℕ) (s : FabricGenerationState)
    → KeepsFailures s (reject_report d now s).1
unfolding reject_report
reject-KeepsFailures d now s = ground arith

advance-KeepsFailures :
    (now : ℕ) (s : FabricGenerationState) → KeepsFailures s (advance_barrier now s).1
unfolding advance_barrier
advance-KeepsFailures now s = ground arith

react-KeepsFailures : (now : ℕ) (s : FabricGenerationState) → KeepsFailures s (react now s).1
unfolding react
react-KeepsFailures now s = ground (arith, advance-KeepsFailures now s)

Noted-KeepsFailures :
    (report : FabricParticipantReport) {s t : FabricGenerationState}
    → Noted (store_report report s) t
    → KeepsFailures s t
Noted-KeepsFailures report {s} {t} n = ground arith

pub call-KeepsFailures : (c : Call) (s : FabricGenerationState) → KeepsFailures s (call c s).1
unfolding call
call-KeepsFailures (reports report now) s =
    accept_ind (λ r. KeepsFailures s r.1) report now s (λ d _. reject-KeepsFailures d now s)
      (λ _. ground arith)
      (λ a t n.
        let noted = Noted-KeepsFailures report n in
        (KeepsFailures-trans noted (react-KeepsFailures now t), λ e. noted))
      (λ _. ground arith)
call-KeepsFailures (departs i failure leases now) s = ground arith
call-KeepsFailures _ s = ground arith

-- In any history, the first invocation failure, the first owner failure and the first control failure
-- of a generation stay as they were recorded.
pub run-KeepsFailures : (s : FabricGenerationState) (cs : List Call) → KeepsFailures s (run s cs)
run-KeepsFailures s cs =
    run_ind (λ t. KeepsFailures s t) (λ c t h. KeepsFailures-trans h (call-KeepsFailures c t)) s cs
      (ground arith)
