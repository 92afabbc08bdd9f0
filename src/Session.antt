-- ===== src/Session.antt =====
-- src/session: the protocol above the primitives.
pub mod Header
pub mod Crypto
pub mod Preflight
pub mod Client
pub mod Aead
pub mod Ratchet
pub mod Migration
pub mod Fragment
pub mod Handshake
