-- ===== src/Link.antt =====
-- The two ends of a connection together: netx_client/src/client/impl_client.rs on the bytes of
-- netx_server/src/server/impl_server.rs, and the other way round.
pub mod Handshake
pub mod Call
pub mod Early
pub mod Restart
pub mod Remote
pub mod System
mod Tests
