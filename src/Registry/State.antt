-- ===== src/Registry/State.antt =====
-- crates/artel-daemon/src/session.rs: the state of the registry, its errors, the events that it
-- sends to local clients, and the requests that it makes of the network.
use artel.Common.{
  ℕ, Bool, Option, none, some, List, [], ◌∷◌, ◌++◌, String, Result, ok, err, panic, if◌then◌else◌,
}
use artel.Common.Map
use artel.Common.Map.{Map}
use artel.Protocol.Bytes.{Bytes}
use artel.Protocol.Ids.{SessionId, TicketId, PeerId}
use artel.Protocol.Capability.{Capability}
use artel.Protocol.Message.{PeerInfo, MessageKind, SessionMessage}
use artel.Protocol.Signing.{Ed25519}
use artel.Protocol.Ticket.{WireEndpointAddr, TicketCodec, SessionTicket}
use artel.Session.{Postcard, Session, local, remote}
use artel.Store.{IoError, Io, done, failed}

-- The other crates that the registry calls.
pub record Env : Type 0 where
  pub ed25519 : Ed25519
  pub postcard : Postcard
  pub tickets : TicketCodec

-- crates/artel-protocol/src/error.rs
pub data ProtocolError : Type 0 where
  version_mismatch : ℕ → ℕ → ProtocolError
  unknown_session : SessionId → ProtocolError
  not_subscribed : SessionId → ProtocolError
  invalid_ticket : ProtocolError
  not_ready : ProtocolError
  not_host : ProtocolError
  session_conflict : SessionId → ProtocolError
  signature : String → ProtocolError
  capability : String → ProtocolError
  internal : String → ProtocolError
  unknown_ticket : TicketId → ProtocolError
  payload_too_large : ℕ → ℕ → ProtocolError

-- `BridgeError` of gossip_bridge.rs.
pub data BridgeError : Type 0 where
  unknown_session : SessionId → BridgeError
  host_rejected : ProtocolError → BridgeError
  send_timeout : BridgeError
  iroh : String → BridgeError
  payload_too_large : ℕ → ℕ → BridgeError
  invalid_addr : String → BridgeError

-- The text of an internal error: a literal, or a value that is printed into one.
pub data Detail : Type 0 where
  text : String → Detail
  bridge : BridgeError → Detail
  wrong_sender : String → PeerId → PeerId → Detail
  hosted_here : String → Detail

pub data SessionError : Type 0 where
  unknown_session : SessionId → SessionError
  not_member : SessionId → SessionError
  invalid_ticket : SessionError
  storage : IoError → SessionError
  invalid_addr : String → SessionError
  internal : Detail → SessionError
  not_host : SessionError
  remote_topic_missing : SessionId → SessionError
  session_conflict : SessionId → SessionError
  host_rejected : ProtocolError → SessionError
  signature_rejected : PeerId → String → SessionError
  capability_denied : PeerId → Option Capability → Capability → SessionError
  ticket_expired : SessionError
  invalid_cap_claim : String → SessionError
  ticket_not_admissible : SessionError
  unknown_ticket : TicketId → SessionError
  reserved_action : Bytes → SessionError
  payload_too_large : ℕ → ℕ → SessionError

-- crates/artel-protocol/src/rpc.rs (`Event`)
pub data Event : Type 0 where
  message : SessionId → SessionMessage → Event
  peer_joined : SessionId → PeerInfo → Event
  peer_left : SessionId → PeerId → Event
  session_closed : SessionId → Event
  gap : SessionId → Event

-- What the registry asks of the gossip bridge and of the direct streams.
pub data Request : Type 0 where
  host_session : SessionId → Request
  publish_epoch_beacon : SessionId → ℕ → Request
  publish_message : SessionId → SessionMessage → Request
  publish_session_closed : SessionId → ℕ → Request
  forget_session : SessionId → Request
  join_session : PeerInfo → SessionTicket → ℕ → Request
  send_remote : SessionId → PeerInfo → MessageKind → Bytes → Bytes → Request
  deliver_workspace_ticket : SessionId → PeerId → Bytes → Request

-- `emitted` and `requests` record, oldest first, what has left the registry.
pub record Registry (σ : Type 0) : Type 0 where
  pub daemon_peer_id : PeerId
  pub daemon_addr : WireEndpointAddr
  pub sessions : Map Session
  pub store : σ
  pub bridge : Bool
  pub signing_key : Option ℕ
  pub endpoint : Bool
  pub emitted : List Event
  pub requests : List Request

-- An operation gives its result, and the registry that it leaves.
abbrev pub Reply : Type 0 → Type 0 → Type 0
Reply σ A = Result SessionError A × Registry σ

module _ {σ : Type 0} where
  -- The session's guard is dropped: what was changed under it is seen from now on.
  unfoldable pub put_session : SessionId → Session → Registry σ → Registry σ
  put_session id s r = record r { sessions = Map.insert id s r.sessions }

  -- `events_tx.send`, which is a no-op for nobody listening.
  unfoldable pub emit : Event → Registry σ → Registry σ
  emit e r = record r { emitted = r.emitted ++ e ∷ [] }

  -- `if let Some(bridge) = &self.bridge`
  unfoldable pub request : Request → Registry σ → Registry σ
  request q r = if r.bridge then record r { requests = r.requests ++ q ∷ [] } else r

  -- A request that does not go over the bridge.
  unfoldable pub ask : Request → Registry σ → Registry σ
  ask q r = record r { requests = r.requests ++ q ∷ [] }

  unfoldable pub with_store : σ → Registry σ → Registry σ
  with_store st r = record r { store = st }

  -- `guard.get(&session).cloned().ok_or(UnknownSession)`, and the rest under the session's lock.
  abbrev pub with_session :
      {A : Type 0} → SessionId → Registry σ → (Session → Reply σ A) → Reply σ A
  with_session id r f = elim (Map.get id r.sessions) [
    | none ↦ (err (unknown_session id), r)
    | some s ↦ f s
  ]

  -- `lock_local_session`
  abbrev pub with_local : {A : Type 0} → SessionId → Registry σ → (Session → Reply σ A) → Reply σ A
  with_local id r f =
      with_session id r λ s. elim s.kind [ local ↦ f s | remote ↦ (err not_host, r) ]

  -- A call of the storage: on failure the operation ends, with memory as it was.
  abbrev pub stored :
      {A B : Type 0} → Io A × σ → Registry σ → (A → Registry σ → Reply σ B) → Reply σ B
  stored (done a, st) r f = f a (with_store st r)
  stored (failed e, st) r f = (err (storage e), with_store st r)

  -- The `?` operator on an operation that gives its registry back.
  abbrev pub and_then : {A B : Type 0} → Reply σ A → (A → Registry σ → Reply σ B) → Reply σ B
  and_then (ok a, r) f = f a r
  and_then (err e, r) f = (err e, r)
  and_then (panic, r) f = (panic, r)
