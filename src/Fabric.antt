-- ===== src/Fabric.antt =====
-- The Fabric generation: src/xpool/fabric.py (phases) and src/xpool/service/daemon/fabric.py (the
-- state of one generation and its controller).
pub mod Phase
pub mod State
pub mod Report
pub mod Controller
pub mod History
pub mod Frame
mod Noted
mod Outcomes
pub mod Edges
pub mod Barrier
pub mod InStep
pub mod Serving
pub mod Stopping
pub mod Progress
mod Tables
mod Passed
pub mod Participants
pub mod Failures
pub mod Layout
