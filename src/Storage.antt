-- ===== src/Storage.antt =====
-- The physical storage of one rank's key-value pools: src/xpool/integrations/sglang/ecs/vmm.py,
-- src/xpool/integrations/sglang/ecs/allocator.py and src/xpool/integrations/sglang/ecs/state.py.
pub mod Division
pub mod Geometry
pub mod Backing
pub mod Pages
pub mod Allocator
pub mod Pool
pub mod Reclaim
pub mod Plans
pub mod Served
pub mod Turnover
pub mod Withdraw
pub mod Managed
pub mod Lifecycle
pub mod Reference
