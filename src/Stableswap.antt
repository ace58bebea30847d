-- ===== src/Stableswap.antt =====
-- src/stableswap/: pools on the Curve invariant.
pub mod Curve
pub mod BitflowV1
pub mod BitflowV2
pub mod Events
pub mod Fetch
pub mod Bounds
pub mod Midpoint
mod Tests
