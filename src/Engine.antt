-- ===== src/Engine.antt =====
-- src/dyro/continuation/engine.py: one bounded wave of a plan's mutations.
pub mod Tick
pub mod Claims
pub mod Wave
pub mod Loop
pub mod Ticks
pub mod Checks
pub mod Sorted
pub mod Accepted
pub mod Total
pub mod Tests
