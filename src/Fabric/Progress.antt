-- ===== src/Fabric/Progress.antt =====
-- When a generation moves on: the report that the barrier still waits for.
use cross_pool.Prelude.{
  ℕ, ◌<◌, ◌≡◌, ◌≢◌, ◌∙◌, refl, sym, ap, subst, inl, inr, ◌⊎◌, Bool, true, false, none, some,
  is_some, List, length, ◌==◌, nat_eq, option_eq, if◌then◌else◌, arith, Bool-cases, option_beq_iff,
}
use mathlib.Core.Bool.{true≢false}
use cross_pool.Prelude.Result.{Result, ok}
use cross_pool.Prelude.Action.{pure, modify, and_then, ◌>>◌}
use cross_pool.Prelude.Dict.{lookup, insert, values, lookup-insert}
use cross_pool.Prelude.Keys.{HasDistinctKeys, insert-HasDistinctKeys}
use cross_pool.Identity.{generation_id_eq}
use cross_pool.Fabric.Phase.{
  FabricGenerationPhase, FabricParticipantPhase, quiescing, preparing_join, allows,
  generation_phase_eq, participant_phase_eq,
}
use cross_pool.Fabric.State.{
  FabricGenerationState, FabricParticipantReport, failure_eq, report_eq, transition, reported,
  record_invocation_failure, record_control_failure,
}
use cross_pool.Fabric.Report.{
  check_report, barrier, complete, phases_are, advance_barrier, store_report, react, commit_report,
  accept_report, when_some,
}
use cross_pool.Fabric.Barrier.{InStep, entered_by}
use cross_pool.Identity.{ProcUniqId, InstanceRankId}
use cross_pool.Fabric.State.{FabricDeploymentPlan}
use cross_pool.Fabric.History.{Call, call, run, run_ind, created, reports, departs}
use cross_pool.Fabric.Participants.{Verdict, repeated, committed, refused, accept-Verdict}
use cross_pool.Fabric.Serving.{run_steps}
use cross_pool.Fabric.Frame.{IsAccepted}
use cross_pool.Fabric.Tables.{IsAt, all-keys, all-values, all_reported-true, phases-eq-true}
use cross_pool.Fabric.Passed.{check_report-eq-ok}

-- The barrier to a phase is the one that its reports pass, unless the phase starts a cleanup.
barrier-follows :
    (from next : FabricGenerationPhase) (p : FabricParticipantPhase)
    → entered_by next ≡ some p
    → allows from next ≡ true
    → next ≢ quiescing
    → (barrier from ≡ some (p, next)) × ((from == next) ≡ false)
unfolding allows
barrier-follows preparing_join next p e allowed other = ground arith
barrier-follows _ next p e allowed other = ground arith

react-advances :
    (now : ℕ) (s : FabricGenerationState) (p : FabricParticipantPhase)
    (next : FabricGenerationPhase)
    → s.control_failure ≡ none
    → s.invocation_failure ≡ none
    → barrier s.phase ≡ some (p, next)
    → allows s.phase next ≡ true
    → (s.phase == next) ≡ false
    → complete (length s.plan.pe_placements) s.participants ≡ true
    → phases_are p (values s.participants) ≡ true
    → react now s ≡ (ok tt, record s { phase = next; phase_started_at = now })
unfolding react advance_barrier transition
react-advances now s p next control invocation at_barrier allowed apart full same =
    rw (control, invocation, full, at_barrier, same, apart, allowed) refl

some-injective {ℓ} : {A : Type ℓ} {x y : A} → some x ≡ some y → x ≡ y
some-injective e = cc

-- The other PEs of the plan have reported the phase of the report.
abbrev pub OthersAt : FabricParticipantReport → FabricGenerationState → Type 0
OthersAt report s =
    (pe : ℕ)
    → pe < length s.plan.pe_placements
    → pe ≢ report.pe
    → (r : FabricParticipantReport) × (lookup pe s.participants ≡ some r) × (r.phase ≡ report.phase)

module _ (report : FabricParticipantReport) (now : ℕ) (s : FabricGenerationState)
    (next : FabricGenerationPhase) where
  after-IsAt :
      InStep s
      → report.pe < length s.plan.pe_placements
      → OthersAt report s
      → IsAt report.phase (length s.plan.pe_placements) (insert report.pe report s.participants)
  after-IsAt h known others pe r e = elim (Bool-cases (report.pe == pe)) [
    | inl same ↦
        let at : report.pe ≡ pe = (nat_eq.beq_iff report.pe pe).0 same in
        let here : report ≡ r = some-injective (rw (lookup-insert, same) at e) in
        (subst (λ i. i < length s.plan.pe_placements) at known, ap (λ x. x.phase) (sym here))
    | inr other ↦
        let before : lookup pe s.participants ≡ some r = rw (lookup-insert, other) at e in
        let below = (h.within pe r before).0 in
        let (x, found, at_phase) =
          others pe below
            (λ same. true≢false (sym ((nat_eq.beq_iff report.pe pe).1 (sym same)) ∙ other)) in
        let same : x ≡ r = some-injective (sym found ∙ before) in
        (below, ap (λ x. x.phase) (sym same) ∙ at_phase)
  ]

  after_there :
      OthersAt report s
      → (pe : ℕ) → pe < length s.plan.pe_placements
      → is_some (lookup pe (insert report.pe report s.participants)) ≡ true
  after_there others pe below = elim (Bool-cases (report.pe == pe)) [
    | inl same ↦ rw (lookup-insert, same) refl
    | inr other ↦
        let (x, found, _) =
          others pe below
            (λ same. true≢false (sym ((nat_eq.beq_iff report.pe pe).1 (sym same)) ∙ other)) in
        rw (lookup-insert, other, found) refl
  ]

  commit-advances :
      InStep s
      → HasDistinctKeys s.participants
      → IsAccepted (lookup report.pe s.participants) report s
      → s.control_failure ≡ none
      → s.invocation_failure ≡ none
      → report.control_failure ≡ none
      → report.invocation_failure ≡ none
      → OthersAt report s
      → entered_by next ≡ some report.phase
      → allows s.phase next ≡ true
      → next ≢ quiescing
      → commit_report report now s
        ≡ (ok tt, record (store_report report s) { phase = next; phase_started_at = now })
  unfolding commit_report complete
  commit-advances h distinct a control invocation no_control no_invocation others entered allowed
        other =
      let (at_barrier, apart) = barrier-follows s.phase next report.phase entered allowed other in
      let keyed = insert-HasDistinctKeys report.pe report s.participants distinct in
      let at = after-IsAt h a.known_pe others in
      let full : complete (length s.plan.pe_placements) (insert report.pe report s.participants)
          ≡ true =
        rw
          (
            all-keys report.phase (length s.plan.pe_placements)
                (insert report.pe report s.participants) keyed at,
            all_reported-true (insert report.pe report s.participants) (length s.plan.pe_placements)
                (after_there others),
          )
          refl in
      let same =
        phases-eq-true report.phase (insert report.pe report s.participants) report.pe
          (after_there others report.pe a.known_pe)
          (all-values report.phase (length s.plan.pe_placements)
            (insert report.pe report s.participants) keyed at) in
      ap
        (λ o.
          (modify (store_report report)
              >> (when_some o record_invocation_failure
                  >> (when_some report.control_failure
                        (λ text. record_control_failure (reported text))
                      >> react now)))
            s)
        no_invocation
      ∙ ap
          (λ o.
            (modify (store_report report)
                >> (when_some o (λ text. record_control_failure (reported text)) >> react now))
              s)
          no_control
      ∙ react-advances now (store_report report s) report.phase next control invocation at_barrier
          allowed apart full same

  accept-advances :
      InStep s
      → HasDistinctKeys s.participants
      → lookup report.pe s.participants ≢ some report
      → IsAccepted (lookup report.pe s.participants) report s
      → s.control_failure ≡ none
      → s.invocation_failure ≡ none
      → report.control_failure ≡ none
      → report.invocation_failure ≡ none
      → OthersAt report s
      → entered_by next ≡ some report.phase
      → allows s.phase next ≡ true
      → next ≢ quiescing
      → accept_report report now s
        ≡ (ok tt, record (store_report report s) { phase = next; phase_started_at = now })
  unfolding accept_report
  accept-advances h distinct new a control invocation no_control no_invocation others entered
        allowed other =
      ap
        (λ (b : Bool).
          if b
          then pure tt s
          else (check_report (lookup report.pe s.participants) report now
                >> commit_report report now)
              s)
        fresh
      ∙ ap (λ r. and_then r.0 (λ _. commit_report report now) r.1)
          (check_report-eq-ok (lookup report.pe s.participants) report now s a)
      ∙ commit-advances h distinct a control invocation no_control no_invocation others entered
          allowed other
    where
      fresh : (lookup report.pe s.participants == some report) ≡ false
      fresh = elim (Bool-cases (lookup report.pe s.participants == some report)) [
        | inl same ↦
            absurd (new ((option_beq_iff (lookup report.pe s.participants) (some report)).0 same))
        | inr other ↦ other
      ]

-- Only a report changes the table of reports.
other_call :
    (c : Call) (s : FabricGenerationState)
    → ((report : FabricParticipantReport) × (now : ℕ) × (c ≡ reports report now))
      ⊎ ((call c s).1.participants ≡ s.participants)
unfolding call
other_call (reports report now) s = inl (report, now, refl)
other_call (departs i failure leases now) s = inr (ground arith)
other_call _ s = inr (ground arith)

taken-HasDistinctKeys :
    {report : FabricParticipantReport} {s : FabricGenerationState}
    {r : Result (Unit {0}) × FabricGenerationState}
    → HasDistinctKeys s.participants
    → Verdict report s r
    → HasDistinctKeys r.1.participants
taken-HasDistinctKeys {s = s} h (repeated same e) = rw e h
taken-HasDistinctKeys {report} {s} h (committed a e) =
    rw e (insert-HasDistinctKeys report.pe report s.participants h)
taken-HasDistinctKeys h (refused error e rest) = rw e h

-- The reports stay one to a PE.
call-HasDistinctKeys :
    (c : Call) (s : FabricGenerationState)
    → HasDistinctKeys s.participants
    → HasDistinctKeys (call c s).1.participants
unfolding call
call-HasDistinctKeys c s h = elim (other_call c s) [
  | inr same ↦ subst HasDistinctKeys (sym same) h
  | inl (report, now, e) ↦
      subst (λ k. HasDistinctKeys (call k s).1.participants) (sym e)
        (taken-HasDistinctKeys h (accept-Verdict report now s))
]

module _ (plan : FabricDeploymentPlan) (installed : ℕ) (agent_owners : List (ℕ × ProcUniqId))
    (instance_owners : List (InstanceRankId × ProcUniqId)) where
  run-HasDistinctKeys :
      (cs : List Call)
      → HasDistinctKeys (run (created plan installed agent_owners instance_owners) cs).participants
  unfolding created HasDistinctKeys
  run-HasDistinctKeys cs =
      run_ind (λ s. HasDistinctKeys s.participants) call-HasDistinctKeys _ cs tt

  -- In any history of a generation that has no failure, a new report that passes the checks and carries
  -- none, and whose phase the other PEs of the plan have all reported, is accepted, and moves the
  -- generation to the phase that comes next and is entered with these reports; this leaves out the
  -- starts of cleanups and the last step to stopped.
  pub run-advances :
      (cs : List Call) (report : FabricParticipantReport) (now : ℕ) (next : FabricGenerationPhase)
      → let s = run (created plan installed agent_owners instance_owners) cs in
        lookup report.pe s.participants ≢ some report
        → IsAccepted (lookup report.pe s.participants) report s
        → s.control_failure ≡ none
        → s.invocation_failure ≡ none
        → report.control_failure ≡ none
        → report.invocation_failure ≡ none
        → OthersAt report s
        → entered_by next ≡ some report.phase
        → allows s.phase next ≡ true
        → next ≢ quiescing
        → accept_report report now s
          ≡ (ok tt, record (store_report report s) { phase = next; phase_started_at = now })
  run-advances cs report now next =
      accept-advances report now (run (created plan installed agent_owners instance_owners) cs) next
        (run_steps plan installed agent_owners instance_owners cs) (run-HasDistinctKeys cs)
