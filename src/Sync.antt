-- ===== src/Sync.antt =====
-- kernel/src/sync: the spin lock, and the primitives that park the caller.
pub mod Parking
pub mod Spin
pub mod Wait
