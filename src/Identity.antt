-- ===== src/Identity.antt =====
-- The identities that the daemon compares: `ProcUniqId` of src/xpool/utils/procs.py, `InstanceRankId`
-- of src/xpool/service/daemon/registration.py and `FabricGenerationId` of src/xpool/fabric.py. A
-- creation time is only compared for equality, and is a number here.
use cross_pool.Prelude.{ℕ, ◌≡◌, ◌↔◌, Bool, true, String, ◌&&◌, arith, Eq, ◌==◌, nat_eq, string_eq}

pub record ProcUniqId : Type 0 where
  pub pid : ℕ
  pub create_time : ℕ

pub record InstanceRankId : Type 0 where
  pub model_id : String
  pub rank : ℕ

pub record FabricGenerationId : Type 0 where
  pub high : ℕ
  pub low : ℕ

abbrev pub proc_beq : ProcUniqId → ProcUniqId → Bool
proc_beq a b = a.pid == b.pid && a.create_time == b.create_time

pub proc_beq_iff : (a b : ProcUniqId) → (proc_beq a b ≡ true) ↔ (a ≡ b)
proc_beq_iff a b = ground arith

abbrev pub rank_beq : InstanceRankId → InstanceRankId → Bool
rank_beq a b = a.model_id == b.model_id && a.rank == b.rank

pub rank_beq_iff : (a b : InstanceRankId) → (rank_beq a b ≡ true) ↔ (a ≡ b)
rank_beq_iff a b = ground (arith, string_eq.beq_iff a.model_id b.model_id)

abbrev pub generation_id_beq : FabricGenerationId → FabricGenerationId → Bool
generation_id_beq a b = a.high == b.high && a.low == b.low

pub generation_id_beq_iff : (a b : FabricGenerationId) → (generation_id_beq a b ≡ true) ↔ (a ≡ b)
generation_id_beq_iff a b = ground arith

instance abbrev pub proc_eq : Eq ProcUniqId
proc_eq = record { beq = proc_beq; beq_iff = proc_beq_iff }

instance abbrev pub rank_eq : Eq InstanceRankId
rank_eq = record { beq = rank_beq; beq_iff = rank_beq_iff }

instance abbrev pub generation_id_eq : Eq FabricGenerationId
generation_id_eq = record { beq = generation_id_beq; beq_iff = generation_id_beq_iff }
