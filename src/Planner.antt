-- ===== src/Planner.antt =====
-- src/dyro/continuation/planner.py, on the records of src/dyro/continuation/snapshot.py and
-- models.py: which tasks of a snapshot may run, and which wait for what.
pub mod Model
pub mod Readiness
pub mod Ready
pub mod Listed
pub mod Candidates
pub mod Tests
pub mod Plan
pub mod Permitted
pub mod Delivered
pub mod Complete
