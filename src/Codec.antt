-- ===== src/Codec.antt =====
-- The Clarity codec (src/codec).
pub mod Samples
mod Tests
pub mod Clarity
pub mod Encode
pub mod Decode
pub mod Wire
pub mod Readers
pub mod RoundTrip
pub mod Ensures
pub mod Sound
pub mod WrittenBytes
pub mod C32Check
