-- ===== src/Budget.antt =====
-- src/dyro/continuation/budgets.py: the budget accounting of the continuation engine.
pub mod Model
pub mod Limits
pub mod Decide
pub mod Within
pub mod Reasons
pub mod Admission
pub mod Progress
pub mod Tests
