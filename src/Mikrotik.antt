-- ===== src/Mikrotik.antt =====
-- The connection pools of MikroTik devices (mikrotik/manager.go).
pub mod Pool
pub mod Manager
mod Tests
