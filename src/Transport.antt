-- ===== src/Transport.antt =====
-- The transport arenas that the AtnAgents publish and the Instance ranks lease:
-- src/xpool/service/daemon/transport.py.
pub mod Broker
pub mod Uses
