-- ===== src/Lib.antt =====
-- A model of artel: daemons that host shared sessions, and mirror the sessions of other daemons. A
-- session is a log of messages that its host numbers; capability messages in the log say who can write.
-- Tickets let peers in. The storage keeps each session's record, and an epoch floor for each id.
--
-- Parts, and the code that each is about:
-- - Common: lists, maps, sets and Boolean tests over native numbers, for Rust's Vec, HashMap and HashSet.
-- - Protocol (crates/artel-protocol/src): Ids (ids.rs) and the hex text of a peer id in Ids.Hex,
--   Capability (capability.rs), Message (message.rs), Signing (signing.rs: what is signed, and what is
--   checked), Ticket (ticket.rs: the text form of a ticket).
-- - Session (crates/artel-daemon/src/session.rs, `Session`, and store/record.rs): one session, its
--   stored record, the projection of its log to capabilities. Order, Caps and WellFormed are about logs
--   in order, about what the projection says of a peer, and about the invariant of a session.
-- - Store (crates/artel-daemon/src/store/mod.rs): the operations of the storage, as a record of
--   functions that the registry takes as a parameter. Store.Memory (store/memory.rs) implements it, and
--   Store.Fs (store/fs.rs): Log (the log file and its frames), Files (the small files), Load (`load_one`,
--   `load_all`), Ops (the calls on one session), Names and Attachments, Whole (the instance). Rest says
--   what a directory holds; Crash, Refines, Lives and Attachments.Readers are about a disk that fails,
--   about Store.Memory as the specification, about the epoch floors, and about listings.
-- - Registry (crates/artel-daemon/src/session.rs, `Registry`): State (the state, errors, events, and
--   requests to the network), Send (`send`), Host (`host`, `load`), Tickets, Members (`ensure_member`,
--   `remove_member`, `leave`), Subscribe (`subscribe`, `log_since`), Mirror (inbound messages), Join
--   (`join`, closes and epochs of the host), Deliver (direct streams), Attachments.
--   Registry.Rules has a rule for each way in which operations are put together. Registry.Invariant uses
--   them for the invariant of the registry; Steps makes a state machine of the operations, of which
--   a restart (`load`) is not one.
-- - Bridge (crates/artel-daemon/src/gossip_bridge.rs): Slots (`SessionSlots`), Frames
--   (crates/artel-protocol/src/gossip.rs, and the acknowledgement part of signing.rs), Wire (how errors
--   look outside), Inbound (`handle_inbound_frame` and what is published). Trust says which frames are
--   acted on, Watermark that the epoch of a joiner never sinks; Answer follows a send from the host's
--   bridge to the joiner's.
-- - Workspace (crates/artel-fs/src): PeerMap (peer_map.rs and the hooks of peer_filter.rs), EchoGuard
--   (echo_guard.rs) and PathRules (rules.rs). Compiled is about the rules made ready for use.
--   Projection compares what a workspace sees of capabilities with `project_caps`;
--   Blocked is about the endpoint of a revoked peer; Echoes describes the guard by its calls.
-- - Examples: small instances of the other crates, and runs of the theorems.
--
-- How the code corresponds. An operation of the registry takes its arguments and the registry, and gives a
-- result (`Result`: a value, an error, or a panic) and the new registry. `with_session`, `with_local`,
-- `stored` and `and_then` are the early returns on an unknown session, on a mirror, on a failed storage
-- call, and on `?`. A storage call gives its result and the new state of the storage, also when it fails.
-- `emitted` records the events to local clients, `requests` what is asked of the gossip bridge and of
-- the direct streams. Random ids, the clock, and the answers of the network are arguments.
-- An id is the number that its bytes spell; a name, an action and a payload are lists of bytes,
-- and the text of a ticket is a list of code points.
-- The other crates are parameters with their documented laws as hypotheses: ed25519_dalek (`Ed25519`),
-- postcard (`Postcard`), data_encoding and postcard for tickets (`TicketCodec`), postcard for gossip
-- frames (`GossipCodec`), postcard and serde_json for the files on disk (`Formats`), globset
-- and unicode_normalization (`Globset`).
-- The files of one session are a `Place`. Its `left` is the number of steps that the disk still lasts: a
-- file that is renamed, made or removed is one step, and so are a byte of the log or of an attachment,
-- and each flush of an attachment. A small file is replaced in one step (`write_atomic`: it is written
-- beside its place, flushed, renamed, and the directory flushed). Every number `left` is thus a moment
-- at which power or the disk can fail; a restart gives a new number.
-- The bridge records what it broadcasts; the registry behind it is its weak reference. What `send` asks
-- of the bridge is published in `run_host_send`, before the answer.
-- `partition_point` is the binary search of the standard library, also on a log out of order.
-- A hook of the endpoint that waits for the replay has no answer (`none`). The task that ends a pending
-- entry of the echo guard is the call `release`, at any moment of a history.
-- `host` recurses over the list of drawn ids, of which each pass takes one; the code goes round only when
-- the id that a pass would create is taken; a `panic` stands there for no id left to draw. The loop of
-- `read_log` has fuel: one more than the length of the file, of which each pass reads at least four
-- bytes. The loop of the binary search has the length of the log as fuel, and halves its part each time.
--
-- Bounds: a sequence number and an epoch are u64. `Seq::next` fails at the greatest one, the resume
-- saturates there, and the storage in memory adds one with wrap-around.
--
-- Not modelled: the interleaving of two operations (each runs alone, and no other join is in flight),
-- the retries of a delivery, `send_remote` and the opening of topics in the gossip bridge, the
-- permissions of files, and data that a disk loses behind a flush, the server and its framing, the
-- client, the rest of artel-fs (its filter, watcher, applier and rotation), and logging.
pub mod Common
pub mod Protocol
pub mod Session
pub mod Store
pub mod Registry
pub mod Bridge
pub mod Workspace
pub mod Examples
