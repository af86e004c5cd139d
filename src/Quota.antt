-- ===== src/Quota.antt =====
-- The bytes that one Instance rank may back: src/xpool/ecs.py.
pub mod Profile
pub mod Ledger
