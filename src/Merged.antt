-- ===== src/Merged.antt =====
-- bridge-src/bridge/src/merged.rs: merged mining. `Pending` is the memory of the ZKas blocks that
-- await a solved parent, `Branch` the coinbase's Merkle branch, and `FeeWindow` the minute of each
-- hour in which a lane pays the pool.
pub mod Pending
pub mod Branch
pub mod FeeWindow
mod Tests
