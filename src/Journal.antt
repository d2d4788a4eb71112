-- ===== src/Journal.antt =====
-- src/dyro/continuation/action_models.py, action_journal.py and owner_lease.py: the durable
-- Action Journal and the fenced owner lease of the scheduler.
pub mod Model
pub mod Store
pub mod Actions
pub mod Lease
pub mod Operations
pub mod Keeps
pub mod History
pub mod Reads
pub mod Growth
pub mod Sound
pub mod Bound
pub mod Soundness
pub mod OwnedSoundness
pub mod Runs
pub mod Histories
pub mod Fencing
pub mod Owners
pub mod Starts
pub mod Recovery
pub mod Verified
pub mod Tests
pub mod RecoveryTests
