-- ===== src/Codec.antt =====
-- The DNS wire-format codec (src/codec/mod.rs): its submodules, and the error type they share.
pub mod Error
pub mod Reader
pub mod Writer
pub mod Framing
pub mod Name
pub mod Header
pub mod Message
pub mod Ttl
pub mod Edns
pub mod Synth
pub mod Tests
