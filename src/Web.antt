-- ===== src/Web.antt =====
-- The handlers of src/web that change what the resolver does, and its guard against forged requests.
pub mod Render
pub mod Upstreams
pub mod Settings
pub mod Crypto
pub mod Http
pub mod Origin
pub mod Auth
pub mod Csrf
pub mod Tests
