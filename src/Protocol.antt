-- ===== src/Protocol.antt =====
-- crates/artel-protocol/src: the types and rules that the daemon and its clients share.
pub mod Bytes
pub mod Ids
pub mod Capability
pub mod Message
pub mod Signing
pub mod Ticket
