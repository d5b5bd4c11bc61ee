-- ===== src/Registry/Join.antt =====
-- crates/artel-daemon/src/session.rs: `join` and what it calls, and how a mirror follows its host:
-- `host_closed_session` and `advance_host_epoch_watermark`. What the subscription to the gossip
-- topic answers is an argument. One operation runs at a time, so no other join is in flight.
pub mod Epochs
use artel.Common.{
  ℕ, Bool, true, false, Option, none, some, Result, ok, err, panic, if◌then◌else◌, ◌==◌, leb, ◌||◌,
}
use artel.Common.Map
use artel.Common.Set
use artel.Protocol.Bytes.{Bytes, codes}
use artel.Protocol.Ids.{SessionId, Seq}
use artel.Protocol.Message.{PeerInfo}
use artel.Protocol.Signing.{verify_ticket_cap}
use artel.Protocol.Ticket.{SessionTicket, host_peer_id, decode}
use artel.Session.{Session, remote, is_local, new, to_record, last_seq}
use artel.Store.{SessionStore}
use artel.Registry.State.{
  Env, Registry, Reply, SessionError, BridgeError, bridge, unknown_session, invalid_ticket,
  invalid_addr, internal, with_store, stored, and_then, put_session, emit, request, peer_joined,
  session_closed, forget_session, join_session,
}

-- The prospective mirror of `claim_remote_mirror`: its epoch is the one of the ticket.
unfoldable pub fresh_mirror : SessionTicket → Session
fresh_mirror t =
    record (new t.session_id (record { id = host_peer_id t; display_name = codes "remote-host" })
      remote) { host_epoch = t.host_epoch }

-- A daemon without a signing key skips the check.
unfoldable pub bearer_check : Env → {σ : Type 0} → SessionTicket → Registry σ → Bool
bearer_check env t r = elim r.signing_key [
  | none ↦ true
  | some _ ↦
      elim (verify_ticket_cap env.ed25519 (host_peer_id t) t.ticket_id t.session_id t.granted_cap
        t.expiry_ms t.host_epoch t.cap_sig) [ ok _ ↦ true | err _ ↦ false | panic ↦ false ]
]

unfoldable pub join_error : BridgeError → SessionError
join_error (BridgeError.invalid_addr m) = invalid_addr m
join_error (BridgeError.unknown_session s) = internal (bridge (BridgeError.unknown_session s))
join_error (BridgeError.host_rejected e) = internal (bridge (BridgeError.host_rejected e))
join_error BridgeError.send_timeout = internal (bridge BridgeError.send_timeout)
join_error (BridgeError.iroh m) = internal (bridge (BridgeError.iroh m))
join_error (BridgeError.payload_too_large n max) =
    internal (bridge (BridgeError.payload_too_large n max))

module _ {σ : Type 0} (io : SessionStore σ) where
  -- The mirror, and whether it is new: only the caller that made it subscribes.
  unfoldable pub claim_remote_mirror : SessionTicket → Registry σ → Reply σ (Session × Bool)
  claim_remote_mirror t r = elim (Map.get t.session_id r.sessions) [
    | some s ↦ (ok (s, false), r)
    | none ↦
        stored (io.create (to_record (fresh_mirror t)) r.store) r
          λ _ r1. (ok (fresh_mirror t, true), put_session t.session_id (fresh_mirror t) r1)
  ]

  -- Best effort: what the storage answers to the deletion is only logged.
  unfoldable pub rollback_remote_mirror : SessionId → Registry σ → Registry σ
  rollback_remote_mirror id r =
      with_store (io.delete id r.store).1 (record r { sessions = Map.remove id r.sessions })

  -- The subscription of a new mirror, undone when it fails.
  unfoldable pub subscribe_mirror :
      SessionTicket
      → PeerInfo
      → Result BridgeError (Unit {0})
      → Session × Bool
      → Registry σ
      → Reply σ Session
  subscribe_mirror t joiner outcome (s, false) r = (ok s, r)
  subscribe_mirror t joiner (ok _) (s, true) r =
      (ok s, request (join_session joiner t s.host_epoch) r)
  subscribe_mirror t joiner (err e) (s, true) r = (
    err (join_error e),
    rollback_remote_mirror t.session_id (request (join_session joiner t s.host_epoch) r),
  )
  subscribe_mirror t joiner panic (s, true) r = (panic, r)

  -- The part of `join` under the session's lock.
  unfoldable pub enrol :
      SessionId → PeerInfo → Session → Registry σ → Reply σ (SessionId × Option Seq)
  enrol id peer s r =
      if Set.contains peer.id s.members
      then (ok (id, last_seq s.head), r)
      else stored (io.add_member id peer r.store) r λ _ r1. (
        ok (id, last_seq s.head),
        emit (peer_joined id peer)
            (put_session id (record s { members = Set.insert peer.id s.members }) r1),
      )

  -- A mirror that its host has closed; nothing for a session hosted here.
  unfoldable pub host_closed_session : SessionId → Registry σ → Reply σ (Unit {0})
  host_closed_session session r = elim (Map.get session r.sessions) [
    | none ↦ (ok tt, r)
    | some s ↦
        if is_local s.kind
        then (ok tt, r)
        else stored (io.delete session r.store) r λ _ r1. (
          ok tt,
          request (forget_session session) (
              emit (session_closed session)
                (record r1 { sessions = Map.remove session r1.sessions })),
        )
  ]

  -- Stored before it is in memory, and never lowered.
  unfoldable pub advance_host_epoch_watermark : SessionId → ℕ → Registry σ → Reply σ (Unit {0})
  advance_host_epoch_watermark session host_epoch r = elim (Map.get session r.sessions) [
    | none ↦ (ok tt, r)
    | some s ↦
        if is_local s.kind || leb host_epoch s.host_epoch
        then (ok tt, r)
        else stored (io.bump_host_epoch session host_epoch r.store) r
            λ _ r1. (ok tt, put_session session (record s { host_epoch = host_epoch }) r1)
  ]

module _ (env : Env) {σ : Type 0} (io : SessionStore σ) where
  unfoldable pub materialise_remote_session :
      SessionTicket → PeerInfo → Result BridgeError (Unit {0}) → Registry σ → Reply σ Session
  materialise_remote_session t joiner outcome r =
      if bearer_check env t r
      then (if r.bridge
          then and_then (claim_remote_mirror io t r) (subscribe_mirror io t joiner outcome)
          else (err invalid_ticket, r))
      else (err invalid_ticket, r)

  -- The session of a ticket: the one here, or the mirror of the one that it names.
  unfoldable pub locate :
      SessionTicket → PeerInfo → Result BridgeError (Unit {0}) → Registry σ → Reply σ Session
  locate t peer outcome r = elim (Map.get t.session_id r.sessions) [
    | some s ↦ (ok s, r)
    | none ↦
        if host_peer_id t == r.daemon_peer_id
        then (err (unknown_session t.session_id), r)
        else materialise_remote_session t peer outcome r
  ]

  unfoldable pub join :
      Bytes
      → PeerInfo
      → Result BridgeError (Unit {0})
      → Registry σ
      → Reply σ (SessionId × Option Seq)
  join ticket peer outcome r = elim (decode env.tickets ticket) [
    | err _ ↦ (err invalid_ticket, r)
    | panic ↦ (panic, r)
    | ok t ↦ and_then (locate t peer outcome r) (enrol io t.session_id peer)
  ]
