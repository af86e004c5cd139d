-- ===== src/Fabric/Phase.antt =====
-- `FabricGenerationPhase` and `FabricParticipantPhase` of src/xpool/fabric.py.
use cross_pool.Prelude.{
  ℕ, ◌≡◌, ◌↔◌, Bool, true, false, not, ◌&&◌, ◌||◌, Option, none, some, arith, Eq, ◌==◌, nat_beq,
  if◌then◌else◌,
}

pub data FabricGenerationPhase : Type 0 where
  preparing_join joining preparing_execution activating executable : FabricGenerationPhase
  quiescing draining finalizing aborting stopped : FabricGenerationPhase

pub data FabricParticipantPhase : Type 0 where
  join_ready joining joined execution_ready active : FabricParticipantPhase
  quiesced draining drained finalized : FabricParticipantPhase

-- The place of a member in its class body, by which `is` tells members apart.
abbrev pub generation_index : FabricGenerationPhase → ℕ
generation_index preparing_join = 0
generation_index FabricGenerationPhase.joining = 1
generation_index preparing_execution = 2
generation_index activating = 3
generation_index executable = 4
generation_index quiescing = 5
generation_index FabricGenerationPhase.draining = 6
generation_index finalizing = 7
generation_index aborting = 8
generation_index stopped = 9

abbrev pub participant_index : FabricParticipantPhase → ℕ
participant_index join_ready = 0
participant_index FabricParticipantPhase.joining = 1
participant_index joined = 2
participant_index execution_ready = 3
participant_index active = 4
participant_index quiesced = 5
participant_index FabricParticipantPhase.draining = 6
participant_index drained = 7
participant_index finalized = 8

abbrev pub generation_is : FabricGenerationPhase → FabricGenerationPhase → Bool
generation_is p q = nat_beq (generation_index p) (generation_index q)

abbrev pub participant_is : FabricParticipantPhase → FabricParticipantPhase → Bool
participant_is p q = nat_beq (participant_index p) (participant_index q)

pub generation_is_iff : (p q : FabricGenerationPhase) → (generation_is p q ≡ true) ↔ (p ≡ q)
generation_is_iff preparing_join q = ground arith
generation_is_iff _ q = ground arith

pub participant_is_iff : (p q : FabricParticipantPhase) → (participant_is p q ≡ true) ↔ (p ≡ q)
participant_is_iff join_ready q = ground arith
participant_is_iff _ q = ground arith

instance abbrev pub generation_phase_eq : Eq FabricGenerationPhase
generation_phase_eq = record { beq = generation_is; beq_iff = generation_is_iff }

instance abbrev pub participant_phase_eq : Eq FabricParticipantPhase
participant_phase_eq = record { beq = participant_is; beq_iff = participant_is_iff }

-- `FabricGenerationPhase.allows`.
abbrev normal_successor : FabricGenerationPhase → Option FabricGenerationPhase
normal_successor preparing_join = some FabricGenerationPhase.joining
normal_successor FabricGenerationPhase.joining = some preparing_execution
normal_successor preparing_execution = some activating
normal_successor activating = some executable
normal_successor executable = some quiescing
normal_successor quiescing = some FabricGenerationPhase.draining
normal_successor FabricGenerationPhase.draining = some finalizing
normal_successor finalizing = some stopped
normal_successor aborting = some stopped
normal_successor stopped = none

-- `normal_successor.get(p) is q`.
abbrev follows_generation : Option FabricGenerationPhase → FabricGenerationPhase → Bool
follows_generation none q = false
follows_generation (some p) q = p == q

unfoldable pub allows : FabricGenerationPhase → FabricGenerationPhase → Bool
allows p successor =
    if successor == aborting
    then not (p == aborting || p == stopped)
    else follows_generation (normal_successor p) successor

-- `FabricParticipantPhase.allows`.
abbrev participant_successor : FabricParticipantPhase → Option FabricParticipantPhase
participant_successor join_ready = some FabricParticipantPhase.joining
participant_successor FabricParticipantPhase.joining = some joined
participant_successor joined = some execution_ready
participant_successor execution_ready = some active
participant_successor active = some quiesced
participant_successor quiesced = some FabricParticipantPhase.draining
participant_successor FabricParticipantPhase.draining = some drained
participant_successor drained = some finalized
participant_successor finalized = none

abbrev follows_participant : Option FabricParticipantPhase → FabricParticipantPhase → Bool
follows_participant none q = false
follows_participant (some p) q = p == q

unfoldable pub participant_allows : FabricParticipantPhase → FabricParticipantPhase → Bool → Bool
participant_allows p successor is_aborting =
    if is_aborting && successor == quiesced
    then p == joined || p == execution_ready || p == active
    else follows_participant (participant_successor p) successor
