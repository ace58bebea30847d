-- ===== src/V2.antt =====
-- src/v2/: the constant-product pools.
pub mod Math
pub mod Arkadiko
pub mod Velar
pub mod Alex
pub mod BitflowXyk
pub mod Events
pub mod Fetch
pub mod Fairness
pub mod FeeSummary
mod Tests
mod EventTests
mod FetchTests
