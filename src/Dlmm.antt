-- ===== src/Dlmm.antt =====
-- Bitflow DLMM pools (src/dlmm): bins of inventory, the swap arithmetic, the quote loops over the
-- bins and the events that keep a mirrored pool up to date.
pub mod Constants
pub mod Math
pub mod Pool
pub mod Quote
pub mod Events
pub mod Interface
pub mod Factor
pub mod Multicall
pub mod Listing
pub mod Discovery
pub mod Fetch
pub mod Samples
mod Tests
mod EventTests
mod FetchTests
mod DiscoveryTests
