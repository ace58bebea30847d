-- ===== src/Pool.antt =====
-- src/pool/: addresses, events and what every pool answers.
pub mod Principal
pub mod Event
pub mod Base
pub mod Address
