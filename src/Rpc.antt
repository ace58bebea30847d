-- ===== src/Rpc.antt =====
-- What the node's answers become (src/rpc).
mod Tests
pub mod Hex
pub mod Response
pub mod Events
pub mod BlockWalker
pub mod Client
pub mod Reads
pub mod TokenInfo
pub mod Agree
pub mod Delivery
