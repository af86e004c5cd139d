-- ===== src/Fabric/State.antt =====
-- `FabricGenerationState` of src/xpool/service/daemon/fabric.py, with the reports of
-- src/xpool/service/wire.py that it stores. A diagnostic that the daemon composes is a constructor
-- with the phases that it names; one that a participant sends is its text.
use cross_pool.Prelude.{
  ℕ, ◌≡◌, ◌↔◌, Bool, true, not, String, ◌&&◌, Option, none, some, List, arith, Eq, ◌==◌, nat_eq,
  string_eq, option_eq, option_beq_iff, if◌then◌else◌,
}
use cross_pool.Prelude.Result.{value_error, daemon, conflict}
use cross_pool.Prelude.Action.{Action, pure, raise}
use cross_pool.Identity.{
  ProcUniqId, InstanceRankId, FabricGenerationId, generation_id_eq, generation_id_beq_iff,
}
use cross_pool.Fabric.Phase.{
  FabricGenerationPhase, FabricParticipantPhase, allows, generation_phase_eq, participant_phase_eq,
  participant_is_iff,
}

pub data FabricRole : Type 0 where
  atnagent ffnagent : FabricRole

pub record FabricPePlacement : Type 0 where
  pub role : FabricRole
  pub device : ℕ

-- The fields of `FabricDeploymentPlan` that the controller reads.
pub record FabricDeploymentPlan : Type 0 where
  pub generation : FabricGenerationId
  pub pe_placements : List FabricPePlacement

pub record FabricInvocationFailure : Type 0 where
  pub result_code : ℕ
  pub origin_pe : ℕ
  pub instance_index : ℕ
  pub invocation_sequence : ℕ
  pub layer_ordinal : ℕ

pub data FabricOwnerFailureReason : Type 0 where
  exited stale replaced : FabricOwnerFailureReason

pub data FabricOwnerFailure : Type 0 where
  pe_owner : FabricRole → (pe : ℕ) → FabricOwnerFailureReason → FabricOwnerFailure
  instance_rank_owner :
      (model_id : String) (rank : ℕ) → FabricOwnerFailureReason → FabricOwnerFailure

pub record ProcessRef : Type 0 where
  pub pid : ℕ
  pub abi_version : ℕ

pub record FabricParticipantReport : Type 0 where
  pub owner : ProcessRef
  pub generation : FabricGenerationId
  pub pe : ℕ
  pub phase : FabricParticipantPhase
  pub invocation_failure : Option FabricInvocationFailure
  pub control_failure : Option String

pub data Diagnostic : Type 0 where
  reported : String → Diagnostic
  conflicting_invocation_failures different_generation unknown_pe not_join_ready : Diagnostic
  bad_transition : FabricParticipantPhase → FabricParticipantPhase → Diagnostic
  replaced_invocation_failure replaced_control_failure : Diagnostic
  invalid_phase : FabricParticipantPhase → FabricGenerationPhase → Diagnostic

-- `not failure`: only a text that was sent can be empty.
abbrev pub is_empty : Diagnostic → Bool
is_empty (reported text) = text == ""
is_empty _ = Bool.false

abbrev pub failure_beq : FabricInvocationFailure → FabricInvocationFailure → Bool
failure_beq a b =
    a.result_code == b.result_code
    && a.origin_pe == b.origin_pe
    && a.instance_index == b.instance_index
    && a.invocation_sequence == b.invocation_sequence
    && a.layer_ordinal == b.layer_ordinal

pub failure_beq_iff : (a b : FabricInvocationFailure) → (failure_beq a b ≡ true) ↔ (a ≡ b)
failure_beq_iff a b = ground arith

instance abbrev pub failure_eq : Eq FabricInvocationFailure
failure_eq = record { beq = failure_beq; beq_iff = failure_beq_iff }

abbrev pub report_beq : FabricParticipantReport → FabricParticipantReport → Bool
report_beq a b =
    a.owner.pid == b.owner.pid
    && a.owner.abi_version == b.owner.abi_version
    && a.generation == b.generation
    && a.pe == b.pe
    && a.phase == b.phase
    && a.invocation_failure == b.invocation_failure
    && a.control_failure == b.control_failure

pub report_beq_iff : (a b : FabricParticipantReport) → (report_beq a b ≡ true) ↔ (a ≡ b)
report_beq_iff a b = ground (
  arith,
  generation_id_beq_iff a.generation b.generation,
  participant_is_iff a.phase b.phase,
  option_beq_iff a.invocation_failure b.invocation_failure,
  option_beq_iff a.control_failure b.control_failure,
)

instance abbrev pub report_eq : Eq FabricParticipantReport
report_eq = record { beq = report_beq; beq_iff = report_beq_iff }

-- Times are only stored, and are numbers here.
pub record FabricGenerationState : Type 0 where
  pub plan : FabricDeploymentPlan
  pub phase : FabricGenerationPhase
  pub phase_started_at : ℕ
  pub invocation_failure : Option FabricInvocationFailure
  pub owner_failure : Option FabricOwnerFailure
  pub control_failure : Option Diagnostic
  pub agent_owners : List (ℕ × ProcUniqId)
  pub instance_owners : List (InstanceRankId × ProcUniqId)
  pub participants : List (ℕ × FabricParticipantReport)
  pub initialized_instances : List (InstanceRankId × ProcUniqId)

unfoldable pub record_control_failure : Diagnostic → Action FabricGenerationState (Unit {0})
record_control_failure failure s =
    if is_empty failure then raise value_error s else elim s.control_failure [
      | none ↦ pure tt (record s { control_failure = some failure })
      | some _ ↦ pure tt s
    ]

unfoldable pub record_invocation_failure :
    FabricInvocationFailure → Action FabricGenerationState (Unit {0})
unfolding record_control_failure
record_invocation_failure failure s = elim s.invocation_failure [
  | none ↦ pure tt (record s { invocation_failure = some failure })
  | some first ↦
      if not (first == failure)
      then record_control_failure conflicting_invocation_failures s
      else pure tt s
]

unfoldable pub record_owner_failure :
    FabricOwnerFailure → FabricGenerationState → FabricGenerationState
record_owner_failure failure s = elim s.owner_failure [
  | none ↦ record s { owner_failure = some failure }
  | some _ ↦ s
]

unfoldable pub transition : FabricGenerationPhase → ℕ → Action FabricGenerationState (Unit {0})
unfolding allows
transition phase now s =
    if s.phase == phase
    then pure tt s
    else if not (allows s.phase phase)
    then raise (daemon conflict) s
    else pure tt (record s { phase = phase; phase_started_at = now })
