-- ===== src/Rank.antt =====
-- One rank of a Capacity Group under the daemon's byte permission:
-- src/xpool/integrations/sglang/ecs/capacity.py.
pub mod Reconciler
pub mod Adoption
pub mod Demand
