-- ===== src/Registration.antt =====
-- The processes that have registered with the daemon: src/xpool/service/daemon/registration.py.
pub mod Table
