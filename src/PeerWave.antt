-- ===== src/PeerWave.antt =====
-- src/dyro/peer_wave.py: which harness executes each task of a wave.
pub mod Bind
pub mod Capacity
pub mod Bindings
pub mod Tests
