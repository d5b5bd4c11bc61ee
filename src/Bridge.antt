-- ===== src/Bridge.antt =====
-- crates/artel-daemon/src/gossip_bridge.rs and crates/artel-protocol/src/gossip.rs: the bridge
-- between the registry and the gossip of other daemons.
pub mod Slots
pub mod Frames
pub mod Wire
pub mod Inbound
pub mod Watermark
pub mod Trust
pub mod Answer
