-- ===== src/Trigger.antt =====
-- src/dyro/continuation/triggers.py: observations of triggers and the schedule of their probes.
pub mod Model
pub mod Schedule
pub mod Backoff
pub mod Provider
pub mod Trusted
pub mod Tests
