-- ===== src/Objective.antt =====
-- The actions of an Objective in src/dyro/continuation/store.py: authority, budget and journal.
pub mod Authority
pub mod Usage
pub mod Reserve
pub mod Charged
pub mod Unspent
pub mod Admission
pub mod Granted
pub mod Histories
pub mod Spent
pub mod Authorized
pub mod Preview
pub mod Tests
