-- ===== src/Graph.antt =====
-- src/dyro/graph.py: the validation of the task graph.
pub mod Model
pub mod Cycles
pub mod Walks
pub mod Search
pub mod Steps
pub mod Loop
pub mod Acyclic
pub mod Validate
pub mod WellFormed
pub mod Tests
