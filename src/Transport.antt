-- ===== src/Transport.antt =====
-- crates/folk-transport/src/lib.rs: the stdio and HTTP transports, the limit on event streams and
-- the encrypted relay.
pub mod Bytes
pub mod Headers
pub mod Http
pub mod Stdio
pub mod Relay
pub mod Slots
pub mod Restricted
