-- ===== src/Events.antt =====
-- src/dyro/events.py: the append-only event log and its archives.
pub mod Model
pub mod Log
pub mod Chunks
pub mod Appended
pub mod Growth
pub mod Calls
pub mod Reads
pub mod Tests
