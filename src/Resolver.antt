-- ===== src/Resolver.antt =====
-- The resolver (src/resolver).
pub mod Cache
pub mod Suffix
pub mod Local
pub mod State
pub mod Upstream
pub mod Pipeline
pub mod Tests
