-- ===== src/Registry/Send.antt =====
-- crates/artel-daemon/src/session.rs: `send` and what it calls. The host is the only one that
-- numbers messages; a mirror forwards, and the host's answer is an argument.
pub mod Accepted
pub mod Asked
pub mod Denied
use artel.Common.{
  ℕ, ◌+◌, ◌-◌, ◌*◌, Bool, true, false, not, Option, none, some, List, [], ◌∷◌, ◌++◌, Result, ok,
  err, panic, if◌then◌else◌, ◌==◌, ltb, ◌&&◌,
}
use artel.Common.Map
use artel.Common.Set
use artel.Protocol.Bytes.{Bytes, bytes_eq}
use artel.Protocol.Ids.{SessionId, PeerId, Seq, next}
use artel.Protocol.Capability.{Capability, read_write}
use artel.Protocol.Message.{
  PeerInfo, MessageKind, SigBytes, signature_unsigned, message_format, SessionMessage, new,
  is_system, is_capability, ticket_action, upgrade_action,
}
use artel.Protocol.Signing.{sign_body, sign_seq, verify_message, verify_reason}
use artel.Session.{Session, SessionKind, local, remote, can_write, append_message}
use artel.Store.{SessionStore, Io, done, failed}
use artel.Registry.State.{
  Env, Registry, Reply, SessionError, BridgeError, Detail, text, bridge, unknown_session,
  not_member, storage, internal, remote_topic_missing, host_rejected, signature_rejected,
  capability_denied, reserved_action, payload_too_large, invalid_addr, with_session, with_store,
  stored, put_session, emit, request, message, publish_message, send_remote,
}

-- crates/artel-protocol/src/gossip.rs
abbrev pub max_gossip_message_size : ℕ
max_gossip_message_size = 1024 * 1024

abbrev pub max_gossip_frame : ℕ
max_gossip_frame = max_gossip_message_size - 512

abbrev pub max_session_message_frame : ℕ
max_session_message_frame = max_gossip_frame - 128

unfoldable pub message_frame_len : Env → SessionMessage → ℕ
message_frame_len env msg = 2 + env.postcard.serialized_size msg

pub data Authoring : Type 0 where
  here : Authoring
  remotely : ℕ → SigBytes → Authoring

-- `reserved_system_action`
unfoldable pub reserved_system_action : Bytes → Option Bytes
reserved_system_action action =
    if bytes_eq action ticket_action
    then some ticket_action
    else if bytes_eq action upgrade_action
    then some upgrade_action
    else none

-- `kind == System && let Some(reserved) = reserved_system_action(&action)`
unfoldable pub reserved : MessageKind → Bytes → Option Bytes
reserved kind action = if is_system kind then reserved_system_action action else none

unfoldable pub map_send_remote_result :
    Result BridgeError SessionMessage → Result SessionError SessionMessage
map_send_remote_result (ok m) = ok m
map_send_remote_result (err (BridgeError.host_rejected e)) = err (host_rejected e)
map_send_remote_result (err BridgeError.send_timeout) =
    err (internal (text "send_remote: timed out waiting for host ack"))
map_send_remote_result (err (BridgeError.unknown_session _)) =
    err (internal (text "send_remote: bridge missing session topic"))
map_send_remote_result (err (BridgeError.iroh m)) = err (internal (bridge (BridgeError.iroh m)))
map_send_remote_result (err (BridgeError.payload_too_large size max)) =
    err (payload_too_large size max)
map_send_remote_result (err (BridgeError.invalid_addr m)) = err (invalid_addr m)
map_send_remote_result panic = panic

-- `forward_remote_send`, given what `bridge.send_remote` answers.
unfoldable pub forward_remote_send :
    Bool → Result BridgeError SessionMessage → Result SessionError SessionMessage
forward_remote_send false _ = err (internal (text "remote send requires gossip bridge"))
forward_remote_send true (err (BridgeError.unknown_session s)) = err (remote_topic_missing s)
forward_remote_send true other = map_send_remote_result other

unfoldable pub author_remote :
    Env
    → ℕ
    → SigBytes
    → PeerInfo
    → MessageKind
    → Bytes
    → Bytes
    → SessionId
    → Result SessionError (ℕ × SigBytes)
author_remote env timestamp_ms signature peer kind action payload session =
    let candidate : SessionMessage =
      new 0 timestamp_ms peer kind action payload signature signature_unsigned in
    elim (verify_message env.ed25519 session candidate signature) [
      | ok _ ↦ ok (timestamp_ms, signature)
      | err e ↦ err (signature_rejected peer.id (verify_reason e))
      | panic ↦ panic
    ]

module _ (env : Env) {σ : Type 0} where
  unfoldable pub sign_seq_for : Registry σ → SessionId → Seq → SigBytes → SigBytes
  sign_seq_for r session seq author_sig = elim r.signing_key [
    | none ↦ signature_unsigned
    | some key ↦ sign_seq env.ed25519 key session seq author_sig
  ]

  unfoldable pub author_local :
      Registry σ
      → ℕ
      → PeerInfo
      → MessageKind
      → Bytes
      → Bytes
      → SessionId
      → Result SessionError (ℕ × SigBytes)
  author_local r now peer kind action payload session = elim r.signing_key [
    | none ↦ ok (now, signature_unsigned)
    | some key ↦
        elim (sign_body env.ed25519 key session message_format now peer kind action payload) [
          | none ↦ panic
          | some signature ↦ ok (now, signature)
        ]
  ]

  unfoldable pub resolve_authoring :
      Registry σ
      → ℕ
      → Authoring
      → PeerInfo
      → MessageKind
      → Bytes
      → Bytes
      → SessionId
      → Result SessionError (ℕ × SigBytes)
  resolve_authoring r now here peer kind action payload session =
      author_local r now peer kind action payload session
  resolve_authoring r now (remotely timestamp_ms signature) peer kind action payload session =
      author_remote env timestamp_ms signature peer kind action payload session

module _ (env : Env) {σ : Type 0} (io : SessionStore σ) where
  -- From the built message on: the size gate, the storage, the commit, and the fan-out.
  unfoldable pub send_built :
      SessionId → Session → SessionMessage → Registry σ → Reply σ SessionMessage
  send_built session s m r =
      if ltb max_session_message_frame (message_frame_len env m)
      then (err (payload_too_large (message_frame_len env m) max_session_message_frame), r)
      else stored (io.append session m r.store) r λ _ r'.
        let committed = put_session session (append_message env.postcard s m) r' in
        let told = emit (message session m) committed in
        (ok m, if is_capability m.kind then told else request (publish_message session m) told)

  -- The arm of the host, all under one hold of the session's lock.
  unfoldable pub send_local :
      SessionId
      → Session
      → PeerInfo
      → MessageKind
      → Bytes
      → Bytes
      → Authoring
      → ℕ
      → Registry σ
      → Reply σ SessionMessage
  send_local session s peer kind action payload authoring now r =
      if can_write s peer.id
      then elim (resolve_authoring env r now authoring peer kind action payload session) [
        | err e ↦ (err e, r)
        | panic ↦ (panic, r)
        | ok (timestamp_ms, signature) ↦ elim (next s.head) [
          | none ↦ (panic, r)
          | some prospective ↦
              send_built session s
                (new prospective timestamp_ms peer kind action payload signature
                  (sign_seq_for env r session prospective signature))
                r
        ]
      ]
      else (err (capability_denied peer.id (Map.get peer.id s.caps) read_write), r)

  unfoldable pub send :
      SessionId
      → PeerInfo
      → MessageKind
      → Bytes
      → Bytes
      → Authoring
      → ℕ
      → Result BridgeError SessionMessage
      → Registry σ
      → Reply σ SessionMessage
  send session peer kind action payload authoring now answer r = elim (reserved kind action) [
    | some a ↦ (err (reserved_action a), r)
    | none ↦ with_session session r λ s.
        if Set.contains peer.id s.members
        then elim s.kind [
          | remote ↦ (
            forward_remote_send r.bridge answer,
            request (send_remote session peer kind action payload) r,
          )
          | local ↦ send_local session s peer kind action payload authoring now r
        ]
        else (err (not_member session), r)
  ]
