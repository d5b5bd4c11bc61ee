-- ===== src/Workspace.antt =====
-- The core of crates/artel-fs/src: PeerMap (peer_map.rs, peer_filter.rs),
-- EchoGuard (echo_guard.rs) and PathRules (rules.rs).
pub mod PeerMap
pub mod EchoGuard
pub mod PathRules
