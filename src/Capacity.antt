-- ===== src/Capacity.antt =====
-- The physical byte quotas of one generation: `CapacityPolicy` of src/xpool/service/daemon/ecs.py.
pub mod State
pub mod Accounting
pub mod Freeze
pub mod Replies
pub mod Retire
pub mod Borrowers
pub mod Donors
pub mod Step
pub mod Charge
pub mod Growth
pub mod Bounds
pub mod Sound
pub mod Retiring
pub mod Lenders
pub mod Growing
pub mod Funding
pub mod Stepping
pub mod Attempts
