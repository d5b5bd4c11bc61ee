-- ===== src/Registry.antt =====
-- crates/artel-daemon/src/session.rs (`Registry`): the sessions of a daemon, in memory and stored,
-- and the operations on them. Each module below holds operations, and its children their theorems.
-- An operation runs alone: the interleavings of two operations are not modelled.
pub mod State
pub mod Rules
pub mod Access
pub mod Hosting
pub mod Membership
pub mod Atomic
pub mod Invariant
pub mod Tickets
pub mod Send
pub mod Host
pub mod Members
pub mod Subscribe
pub mod Mirror
pub mod Join
pub mod Deliver
pub mod Attachments
