-- ===== src/Console.antt =====
-- src/dyro/console: the local read-only web server; its sessions.
pub mod Session
pub mod Spec
pub mod Refines
pub mod Once
pub mod Tests
