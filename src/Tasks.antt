-- ===== src/Tasks.antt =====
-- src/dyro/tasks.py: the status of a task, its claims, and the selection of a wave.
pub mod State
pub mod Dispatch
pub mod Claims
pub mod Gates
pub mod Exclusive
pub mod Claimed
pub mod Wave
pub mod WaveSafe
pub mod Tests
