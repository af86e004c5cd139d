-- ===== src/Fabric/Participants.antt =====
-- What one report, and one initialization, can do to a generation.
use cross_pool.Prelude.{
  ℕ, ◌≡◌, refl, ◌∙◌, ◌⊎◌, inl, inr, true, false, some, Bool-cases, if◌then◌else◌, ◌==◌, arith,
  nat_eq, option_eq, option_beq_iff, beq_refl, is_some,
}
use cross_pool.Prelude.Result.{ok, err, Result, daemon, conflict}
use cross_pool.Prelude.Dict.{lookup, insert, lookup-insert}
use cross_pool.Identity.{
  InstanceRankId, ProcUniqId, FabricGenerationId, rank_eq, proc_eq, generation_id_eq,
  generation_id_beq_iff,
}
use cross_pool.Fabric.Phase.{
  aborting, stopped, executable, allows, generation_phase_eq, generation_is_iff,
}
use cross_pool.Fabric.State.{
  FabricGenerationState, FabricParticipantReport, Diagnostic, is_empty, report_eq,
}
use cross_pool.Fabric.Report.{accept_report, reject_report, react, advance_barrier}
use cross_pool.Fabric.Outcomes.{accept_ind}
use cross_pool.Fabric.Controller.{initialize}
use cross_pool.Fabric.Frame.{IsAccepted}

-- A report changes the table of participants in one way only.
advance-participants :
    (now : ℕ) (s : FabricGenerationState) → (advance_barrier now s).1.participants ≡ s.participants
unfolding advance_barrier
advance-participants now s = ground arith

react-participants :
    (now : ℕ) (s : FabricGenerationState) → (react now s).1.participants ≡ s.participants
unfolding react
react-participants now s = ground (arith, advance-participants now s)

reject-participants :
    (d : Diagnostic) (now : ℕ) (s : FabricGenerationState)
    → (reject_report d now s).1.participants ≡ s.participants
unfolding reject_report
reject-participants d now s = ground arith

-- A live generation aborts, and a stopped one stays stopped.
abbrev pub Ends : FabricGenerationState → FabricGenerationState → Type 0
Ends s t = (t.phase ≡ aborting) ⊎ ((s.phase ≡ stopped) × (t.phase ≡ stopped))

reject_fails :
    (d : Diagnostic) (now : ℕ) (s : FabricGenerationState)
    → is_empty d ≡ false
    → ((reject_report d now s).0 ≡ err (daemon conflict))
      × (is_some (reject_report d now s).1.control_failure ≡ true)
      × Ends s (reject_report d now s).1
unfolding reject_report allows
reject_fails d now s e = ground arith

-- How a report can end, by the result of the call.
pub data Verdict (report : FabricParticipantReport) (s : FabricGenerationState)
    : Result (Unit {0}) × FabricGenerationState → Type 0 where
  -- an exact retry, in any phase
  repeated :
      {r : Result (Unit {0}) × FabricGenerationState}
      → lookup report.pe s.participants ≡ some report
      → r ≡ (ok tt, s)
      → Verdict report s r
  -- a report that passed the checks is stored, whatever the reaction
  committed :
      {r : Result (Unit {0}) × FabricGenerationState}
      → IsAccepted (lookup report.pe s.participants) report s
      → r.1.participants ≡ insert report.pe report s.participants
      → Verdict report s r
  -- any other is refused: a live generation records why and aborts, a stopped one is left alone
  refused :
      {r : Result (Unit {0}) × FabricGenerationState}
      → r.0 ≡ err (daemon conflict)
      → r.1.participants ≡ s.participants
      → (is_some r.1.control_failure ≡ true) × Ends s r.1 ⊎ (s.phase ≡ stopped) × (r.1 ≡ s)
      → Verdict report s r

-- Every report ends in one of three ways: it repeats the last report of its PE, and nothing changes; it
-- passes the checks, also that it keeps the failures reported before, and becomes the last report of
-- its PE; or the call raises a conflict, and all reports stay, while a generation that is not stopped
-- keeps a control failure and aborts.
pub accept-Verdict :
    (report : FabricParticipantReport) (now : ℕ) (s : FabricGenerationState)
    → Verdict report s (accept_report report now s)
accept-Verdict report now s =
    accept_ind (Verdict report s) report now s
      (λ d e.
        let (error, failed, phase) = reject_fails d now s e in
        refused error (reject-participants d now s) (inl (failed, phase)))
      (λ e. refused refl refl (inr (e, refl)))
      (λ a t n.
        (committed a (react-participants now t ∙ n.participants), λ e. committed a n.participants))
      (λ e. repeated e refl)

taken-lookup :
    {report : FabricParticipantReport} {s : FabricGenerationState}
    {r : Result (Unit {0}) × FabricGenerationState}
    → Verdict report s r
    → r.0 ≡ ok tt
    → lookup report.pe r.1.participants ≡ some report
taken-lookup (repeated same e) taken = rw e same
taken-lookup {report} {s} (committed a e) taken = rw (e, lookup-insert, beq_refl report.pe)
taken-lookup (refused error e rest) taken = cc

-- A report that was taken and is sent again next, at any time, returns and changes nothing.
pub accept_retry :
    (report : FabricParticipantReport) (now later : ℕ) (s t : FabricGenerationState)
    → accept_report report now s ≡ (ok tt, t)
    → accept_report report later t ≡ (ok tt, t)
unfolding accept_report
accept_retry report now later s t e =
    let found = taken-lookup (rw e at (accept-Verdict report now s)) refl in
    rw (found, beq_refl (some report))

-- What an initialization may ask for.
abbrev pub MayInitialize :
    InstanceRankId → ProcUniqId → FabricGenerationId → FabricGenerationState → Type 0
MayInitialize i owner generation s =
    (generation ≡ s.plan.generation)
    × (s.phase ≡ executable)
    × (lookup i s.instance_owners ≡ some owner)

-- An Instance rank that names the generation of the plan while it is executable, from the owner that
-- the plan has for the rank, is recorded with that owner, and the other ranks, the phase and the
-- reports stay; any other initialization raises a conflict and changes nothing.
pub initialize-cases :
    (i : InstanceRankId) (owner : ProcUniqId) (generation : FabricGenerationId)
    (s : FabricGenerationState) (other : InstanceRankId)
    → let r = initialize i owner generation s in
      (MayInitialize i owner generation s
        × (r.0 ≡ ok tt)
        × (lookup other r.1.initialized_instances
            ≡ (if i == other then some owner else lookup other s.initialized_instances))
        × (r.1.phase ≡ s.phase)
        × (r.1.participants ≡ s.participants))
      ⊎ ((¬ MayInitialize i owner generation s) × (r ≡ (err (daemon conflict), s)))
unfolding initialize
initialize-cases i owner generation s other = elim (Bool-cases (generation == s.plan.generation)) [
  | inr apart ↦
      rw apart (
        inr (λ may. cc ((generation_id_beq_iff generation s.plan.generation).1 may.0, apart), refl))
  | inl same ↦ elim (Bool-cases (s.phase == executable)) [
    | inr early ↦
        rw (same, early)
          (inr (λ may. cc ((generation_is_iff s.phase executable).1 may.1, early), refl))
    | inl runs ↦ elim (Bool-cases (lookup i s.instance_owners == some owner)) [
      | inr stranger ↦
          rw (same, runs, stranger)
            (inr (
              λ may.
                  cc ((option_beq_iff (lookup i s.instance_owners) (some owner)).1 may.2, stranger),
              refl,
            ))
      | inl owned ↦
          rw (same, runs, owned)
            (inl (
              (
                (generation_id_beq_iff generation s.plan.generation).0 same,
                (generation_is_iff s.phase executable).0 runs,
                (option_beq_iff (lookup i s.instance_owners) (some owner)).0 owned,
              ),
              refl,
              lookup-insert i other owner s.initialized_instances,
              refl,
              refl,
            ))
    ]
  ]
]
