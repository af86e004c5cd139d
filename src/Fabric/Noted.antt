-- ===== src/Fabric/Noted.antt =====
-- The writes between the checks of a report and the reaction to it: the report is stored, and its
-- failures are noted unless one is there already.
use cross_pool.Prelude.{ℕ, ◌≡◌, ◌⊎◌, Option, none, some, arith}
use cross_pool.Prelude.Result.{ok, err, Result, Error}
use cross_pool.Prelude.Action.{and_then, ◌>>=◌}
use cross_pool.Fabric.State.{
  FabricGenerationState, FabricParticipantReport, FabricInvocationFailure, Diagnostic, reported,
  record_control_failure, record_invocation_failure,
}
use cross_pool.Fabric.Report.{Change, when_some, store_report, commit_report, react}

-- What was there first stays.
abbrev pub Retains {ℓ} : {A : Type ℓ} → Option A → Option A → Type ℓ
Retains before after = (before ≡ none) ⊎ (after ≡ before)

-- `t` is `s` but for failures that were noted on the way.
pub record Noted (s t : FabricGenerationState) : Type 0 where
  pub plan : t.plan ≡ s.plan
  pub phase : t.phase ≡ s.phase
  pub phase_started_at : t.phase_started_at ≡ s.phase_started_at
  pub invocation_failure : Retains s.invocation_failure t.invocation_failure
  pub owner_failure : t.owner_failure ≡ s.owner_failure
  pub control_failure : Retains s.control_failure t.control_failure
  pub agent_owners : t.agent_owners ≡ s.agent_owners
  pub instance_owners : t.instance_owners ≡ s.instance_owners
  pub participants : t.participants ≡ s.participants
  pub initialized_instances : t.initialized_instances ≡ s.initialized_instances

pub Noted-refl : (s : FabricGenerationState) → Noted s s
Noted-refl s = ground arith

Noted-trans : {s t u : FabricGenerationState} → Noted s t → Noted t u → Noted s u
Noted-trans {s} {t} {u} h k = ground arith

pub record_control-Noted :
    (d : Diagnostic) (s : FabricGenerationState) → Noted s (record_control_failure d s).1
unfolding record_control_failure
record_control-Noted d s = ground arith

pub record_invocation-Noted :
    (f : FabricInvocationFailure) (s : FabricGenerationState)
    → Noted s (record_invocation_failure f s).1
unfolding record_invocation_failure
record_invocation-Noted f s = ground arith

module _ {ℓ} (P : Result (Unit {0}) × FabricGenerationState → Type ℓ) where
  outcome_ind :
      {s : FabricGenerationState} (r : Result (Unit {0}) × FabricGenerationState)
      (k : Unit {0} → Change)
      → Noted s r.1
      → ((t : FabricGenerationState) → Noted s t → P (k tt t))
      → ((e : Error) (t : FabricGenerationState) → Noted s t → P (err e, t))
      → P (and_then r.0 k r.1)
  outcome_ind (ok tt, t) k h go stop = go t h
  outcome_ind (err e, t) k h go stop = stop e t h

  when_ind :
      {A : Type 0} {s : FabricGenerationState} (o : Option A) (f : A → Change)
      (k : Unit {0} → Change)
      → ((a : A) (u : FabricGenerationState) → Noted u (f a u).1)
      → ((t : FabricGenerationState) → Noted s t → P (k tt t))
      → ((e : Error) (t : FabricGenerationState) → Noted s t → P (err e, t))
      → (t : FabricGenerationState) → Noted s t
      → P ((when_some o f >>= k) t)
  when_ind none f k notes go stop t h = go t h
  when_ind (some a) f k notes go stop t h =
      outcome_ind (f a t) k (notes a t) (λ u n. go u (Noted-trans h n))
        (λ e u n. stop e u (Noted-trans h n))

  -- A commit ends in the reaction, or in the error of a diagnostic that cannot be recorded.
  pub commit_ind :
      (report : FabricParticipantReport) (now : ℕ) (s : FabricGenerationState)
      → ((t : FabricGenerationState) → Noted (store_report report s) t → P (react now t))
      → ((e : Error) (t : FabricGenerationState) → Noted (store_report report s) t → P (err e, t))
      → P (commit_report report now s)
  unfolding commit_report
  commit_ind report now s go stop =
      when_ind report.invocation_failure record_invocation_failure _ record_invocation-Noted
        (λ t n.
          when_ind report.control_failure (λ text. record_control_failure (reported text)) _
            (λ text. record_control-Noted (reported text)) go stop t n)
        stop (store_report report s) (Noted-refl _)
