-- ===== src/Fabric/Outcomes.antt =====
-- The outcomes of `record_participant` on the installed generation.
use cross_pool.Prelude.{
  ◌≡◌, ℕ, false, inl, inr, some, ◌==◌, nat_eq, option_eq, option_beq_iff, Bool-cases,
}
use cross_pool.Prelude.Result.{Result, Error, ok, err, daemon, conflict}
use cross_pool.Prelude.Action.{and_then}
use cross_pool.Prelude.Dict.{lookup}
use cross_pool.Fabric.Phase.{stopped}
use cross_pool.Fabric.State.{
  FabricGenerationState, FabricParticipantReport, Diagnostic, report_eq, is_empty,
}
use cross_pool.Fabric.Report.{reject_report, accept_report, commit_report, react, store_report}
use cross_pool.Fabric.Frame.{IsAccepted, check_ind, reject_raises}
use cross_pool.Fabric.Noted.{Noted, commit_ind}

module _ {ℓ} (P : Result (Unit {0}) × FabricGenerationState → Type ℓ)
    (report : FabricParticipantReport) (now : ℕ) (s : FabricGenerationState)
    (rejected : (d : Diagnostic) → is_empty d ≡ false → P (reject_report d now s))
    (terminal : s.phase ≡ stopped → P (err (daemon conflict), s))
    (committed : IsAccepted (lookup report.pe s.participants) report s
      → (t : FabricGenerationState) → Noted (store_report report s) t
      → P (react now t) × ((e : Error) → P (err e, t))) where
  abbrev After : Result (Unit {0}) × FabricGenerationState → Type ℓ
  After r = P (and_then r.0 (λ _. commit_report report now) r.1)

  rejected-After : (d : Diagnostic) → is_empty d ≡ false → After (reject_report d now s)
  rejected-After d e = rw (reject_raises d now s) (rw (reject_raises d now s) at (rejected d e))

  -- Every way in which the checks, the commit and the reaction can end.
  pub accept_ind :
      (lookup report.pe s.participants ≡ some report → P (ok tt, s))
      → P (accept_report report now s)
  unfolding accept_report
  accept_ind same = elim (Bool-cases (lookup report.pe s.participants == some report)) [
    | inl e ↦ rw e (same ((option_beq_iff _ _).0 e))
    | inr e ↦ rw e (
        check_ind After now s report rejected-After (lookup report.pe s.participants)
          (λ a.
            commit_ind P report now s (λ t n. (committed a t n).0) (λ e t n. (committed a t n).1 e))
          terminal)
  ]
