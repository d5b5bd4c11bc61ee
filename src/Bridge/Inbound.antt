-- ===== src/Bridge/Inbound.antt =====
-- crates/artel-daemon/src/gossip_bridge.rs: the frames that arrive on a session's topic, and those
-- that the bridge sends. A broadcast that fails is only logged; what is recorded is the attempt.
use artel.Common.{
  ℕ, max, Bool, true, false, none, some, List, [], ◌∷◌, ◌++◌, if◌then◌else◌, ◌==◌, Result, ok, err,
  panic, ltb, leb, length, drop,
}
use artel.Common.Map
use artel.Common.Map.{Map}
use artel.Common.Set
use artel.Protocol.Bytes.{Bytes}
use artel.Protocol.Ids.{SessionId, PeerId, Seq}
use artel.Protocol.Message.{PeerInfo, SigBytes, SessionMessage}
use artel.Protocol.Signing.{close, beacon, sign_ctrl, verify_ctrl}
use artel.Session.{CapClaim}
use artel.Store.{SessionStore}
use artel.Registry.State.{ProtocolError, BridgeError, SessionError, Env, Registry, Request}
use artel.Registry.Join.{host_closed_session, advance_host_epoch_watermark}
use artel.Registry.Members.{ensure_member, is_member}
use artel.Registry.Send.{remotely, send}
use artel.Registry.Subscribe.{log_since}
use artel.Bridge.Slots.{SessionSlots, map_live}
use artel.Bridge.Frames.{
  ReqId, SignedSendPayload, Verdict, GossipBody, message, send_request, send_ack, join_announcement,
  session_closed, epoch_beacon, replay, GossipCodec, encode, sign_ack, verify_ack,
}
use artel.Bridge.Wire.{Display, to_wire}

-- `alive` tells whether the registry, to which the bridge has a weak reference, is still there.
-- `broadcasts` and `answered` record, oldest first, what has left the bridge. A joiner's
-- `host_epoch_watermark`, which each joiner's role has, is kept in `watermarks` under its session.
pub record Bridge (σ : Type 0) : Type 0 where
  pub sessions : SessionSlots (Unit {0})
  pub pending_sends : List ReqId
  pub alive : Bool
  pub registry : Registry σ
  pub tracked_peer_ids : List PeerId
  pub authenticated_peer_id : PeerId
  pub signing_key : ℕ
  pub watermarks : Map ℕ
  pub broadcasts : List (SessionId × Bytes)
  pub answered : List (ReqId × Verdict)

-- `on_message` is what the registry does with a message for its mirror.
pub data SessionRole (σ : Type 0) : Type 0 where
  host : SessionRole σ
  joiner : (SessionMessage → Registry σ → Registry σ) → PeerId → SessionRole σ

-- `host_epoch_watermark.load(..)`
unfoldable pub level : SessionId → Map ℕ → ℕ
level session watermarks = elim (Map.get session watermarks) [ none ↦ 0 | some epoch ↦ epoch ]

unfoldable pub drop_if_spoofed : PeerId → PeerId → Bool
drop_if_spoofed body_peer delivered_from = if body_peer == delivered_from then false else true

abbrev pub verified : {E A : Type 0} → Result E A → Bool
verified (ok _) = true
verified _ = false

module _ (env : Env) (c : GossipCodec) (d : Display) {σ : Type 0} (io : SessionStore σ) where
  unfoldable pub track_authenticated_peer : PeerId → Bridge σ → Bridge σ
  track_authenticated_peer peer b = record b {
    tracked_peer_ids = Set.insert peer b.tracked_peer_ids;
  }

  -- The part that all `publish_` functions share: without a topic nothing is sent.
  unfoldable pub publish : SessionId → GossipBody → Bridge σ → Bridge σ
  publish session body b = elim (map_live session b.sessions) [
    | none ↦ b
    | some _ ↦ record b { broadcasts = b.broadcasts ++ (session, encode c body) ∷ [] }
  ]

  unfoldable pub publish_message : SessionId → SessionMessage → Bridge σ → Bridge σ
  unfolding publish
  publish_message session m = publish session (message m)

  unfoldable pub publish_replay : SessionId → Seq → Bridge σ → Bridge σ
  unfolding publish
  publish_replay session since = publish session (replay since)

  unfoldable pub publish_session_closed : SessionId → ℕ → Bridge σ → Bridge σ
  unfolding publish
  publish_session_closed session host_epoch b =
      publish session
        (session_closed host_epoch (sign_ctrl env.ed25519 b.signing_key session close host_epoch)) b

  unfoldable pub publish_epoch_beacon : SessionId → ℕ → Bridge σ → Bridge σ
  unfolding publish
  publish_epoch_beacon session host_epoch b =
      publish session
        (epoch_beacon host_epoch (sign_ctrl env.ed25519 b.signing_key session beacon host_epoch)) b

  -- The announced id is the daemon's own, whatever the caller says.
  unfoldable pub publish_join_announcement :
      SessionId → PeerInfo → CapClaim → ℕ → Bridge σ → Bridge σ
  unfolding publish
  publish_join_announcement session peer claim now b =
      publish session
        (join_announcement (record peer { id = b.authenticated_peer_id }) now claim.ticket_id
          claim.granted_cap claim.expiry_ms claim.host_epoch claim.cap_sig)
        b

  unfoldable pub publish_send_ack : SessionId → ReqId → Verdict → Bridge σ → Bridge σ
  unfolding publish
  publish_send_ack session req_id verdict b =
      publish session
        (send_ack req_id verdict (sign_ack c env.ed25519 b.signing_key session req_id verdict)) b

  unfoldable pub set_registry : Bridge σ → Registry σ → Bridge σ
  set_registry b r = record b { registry = r }

  abbrev pub to_verdict : Result SessionError SessionMessage → Verdict
  to_verdict (ok m) = ok m
  to_verdict (err e) = err (to_wire d e)
  to_verdict panic = panic

  -- What `send` asks of the bridge before it returns: the messages that it publishes.
  unfoldable pub publish_new : List Request → Bridge σ → Bridge σ
  unfolding publish_message
  publish_new [] b = b
  publish_new (Request.publish_message session m ∷ rest) b =
      publish_new rest (publish_message session m b)
  publish_new (_ ∷ rest) b = publish_new rest b

  -- `answer` is what a send of a mirror would get; the sessions of this role are hosted here. An
  -- accepted message goes out over this bridge first.
  unfoldable pub run_host_send :
      SessionId
      → PeerInfo
      → SignedSendPayload
      → ℕ
      → Result BridgeError SessionMessage
      → Bridge σ
      → Verdict × Bridge σ
  unfolding publish_new set_registry
  run_host_send session peer p now answer b =
      if b.alive
      then (let (sent, r) =
            send env io session peer p.kind p.action p.payload (remotely p.timestamp_ms p.signature)
              now answer b.registry in
          (
            to_verdict sent,
            publish_new (drop (length b.registry.requests) r.requests) (set_registry b r),
          ))
      else (err (ProtocolError.internal "daemon shutting down"), b)

  unfoldable pub publish_all : SessionId → List SessionMessage → Bridge σ → Bridge σ
  unfolding publish_message
  publish_all session [] b = b
  publish_all session (m ∷ ms) b = publish_all session ms (publish_message session m b)

  unfoldable pub run_host_replay : SessionId → Seq → Bridge σ → Bridge σ
  unfolding publish_all
  run_host_replay session since b =
      if b.alive
      then elim (log_since session since b.registry).0 [
        | ok messages ↦ publish_all session messages b
        | _ ↦ b
      ]
      else b

  unfoldable pub host_send_request :
      SessionId
      → ReqId
      → PeerInfo
      → SignedSendPayload
      → PeerId
      → ℕ
      → Result BridgeError SessionMessage
      → Bridge σ
      → Bridge σ
  unfolding run_host_send publish_send_ack track_authenticated_peer drop_if_spoofed
  host_send_request session req_id peer payload delivered_from now answer b =
      if drop_if_spoofed peer.id delivered_from
      then b
      else let (verdict, b1) =
          run_host_send session peer payload now answer
            (track_authenticated_peer delivered_from b) in
        publish_send_ack session req_id verdict b1

  unfoldable pub host_join_announcement :
      SessionId → PeerInfo → CapClaim → PeerId → ℕ → Bridge σ → Bridge σ
  unfolding run_host_replay set_registry track_authenticated_peer drop_if_spoofed
  host_join_announcement session peer claim delivered_from now b =
      if drop_if_spoofed peer.id delivered_from
      then b
      else let b1 = track_authenticated_peer delivered_from b in
        if b1.alive
        then (let (admitted, r) = ensure_member env io session peer (some claim) now b1.registry in
            let b2 = set_registry b1 r in
            elim admitted [ ok _ ↦ run_host_replay session 0 b2 | _ ↦ b2 ])
        else b1

  -- The member is the sender that the gossip authenticated.
  unfoldable pub host_replay : SessionId → Seq → PeerId → Bridge σ → Bridge σ
  unfolding run_host_replay track_authenticated_peer
  host_replay session since delivered_from b =
      if b.alive
      then elim (is_member session delivered_from b.registry) [
        | some true ↦ run_host_replay session since (track_authenticated_peer delivered_from b)
        | _ ↦ b
      ]
      else b

  unfoldable pub joiner_session_closed :
      PeerId → SessionId → ℕ → SigBytes → PeerId → Bridge σ → Bridge σ
  unfolding set_registry track_authenticated_peer level
  joiner_session_closed host_pubkey session host_epoch host_sig delivered_from b =
      if verified (verify_ctrl env.ed25519 host_pubkey session close host_epoch host_sig)
      then (if ltb host_epoch (level session b.watermarks)
          then b
          else let b1 = track_authenticated_peer delivered_from b in
            if b1.alive then set_registry b1 (host_closed_session io session b1.registry).1 else b1)
      else b

  -- The live watermark follows the stored one.
  unfoldable pub joiner_epoch_beacon :
      PeerId → SessionId → ℕ → SigBytes → PeerId → Bridge σ → Bridge σ
  unfolding set_registry track_authenticated_peer level
  joiner_epoch_beacon host_pubkey session host_epoch host_sig delivered_from b =
      if verified (verify_ctrl env.ed25519 host_pubkey session beacon host_epoch host_sig)
      then (let b1 = track_authenticated_peer delivered_from b in
          if leb host_epoch (level session b1.watermarks)
          then b1
          else if b1.alive
          then (let (advanced, r) =
                advance_host_epoch_watermark io session host_epoch b1.registry in
              let b2 = set_registry b1 r in
              elim advanced [
                | ok _ ↦ record b2 {
                  watermarks =
                      Map.insert session (max (level session b2.watermarks) host_epoch)
                        b2.watermarks;
                }
                | _ ↦ b2
              ])
          else b1)
      else b

  -- An ack for a request that is not waiting is dropped.
  unfoldable pub joiner_send_ack :
      PeerId → SessionId → ReqId → Verdict → SigBytes → PeerId → Bridge σ → Bridge σ
  unfolding track_authenticated_peer
  joiner_send_ack host_pubkey session req_id verdict host_sig delivered_from b =
      if verified (verify_ack c env.ed25519 host_pubkey session req_id verdict host_sig)
      then (let b1 = track_authenticated_peer delivered_from b in
          if Set.contains req_id b1.pending_sends
          then record b1 {
            pending_sends = Set.remove req_id b1.pending_sends;
            answered = b1.answered ++ (req_id, verdict) ∷ [];
          }
          else b1)
      else b

  -- `now` is the clock, and `answer` as in `run_host_send`.
  unfoldable pub handle_inbound_frame :
      SessionId
      → SessionRole σ
      → GossipBody
      → PeerId
      → ℕ
      → Result BridgeError SessionMessage
      → Bridge σ
      → Bridge σ
  unfolding host_send_request host_join_announcement host_replay joiner_session_closed
      joiner_epoch_beacon joiner_send_ack track_authenticated_peer set_registry
  handle_inbound_frame session host (send_request req_id peer payload) from now answer b =
      host_send_request session req_id peer payload from now answer b
  handle_inbound_frame session host (join_announcement peer _ ticket granted expiry epoch sig) from
        now answer b =
      let claim : CapClaim = record {
        ticket_id = ticket;
        granted_cap = granted;
        expiry_ms = expiry;
        host_epoch = epoch;
        cap_sig = sig;
      } in
      host_join_announcement session peer claim from now b
  handle_inbound_frame session host (replay since) from now answer b =
      host_replay session since from b
  handle_inbound_frame session host (message _) from now answer b = b
  handle_inbound_frame session host (send_ack _ _ _) from now answer b = b
  handle_inbound_frame session host (session_closed _ _) from now answer b = b
  handle_inbound_frame session host (epoch_beacon _ _) from now answer b = b
  handle_inbound_frame session (joiner on_message key) (message m) from now answer b =
      let b1 = track_authenticated_peer from b in set_registry b1 (on_message m b1.registry)
  handle_inbound_frame session (joiner _ key) (send_ack req_id verdict sig) from now answer b =
      joiner_send_ack key session req_id verdict sig from b
  handle_inbound_frame session (joiner _ key) (session_closed epoch sig) from now answer b =
      joiner_session_closed key session epoch sig from b
  handle_inbound_frame session (joiner _ key) (epoch_beacon epoch sig) from now answer b =
      joiner_epoch_beacon key session epoch sig from b
  handle_inbound_frame session (joiner _ _) (send_request _ _ _) from now answer b = b
  handle_inbound_frame session (joiner _ _) (join_announcement _ _ _ _ _ _ _) from now answer b = b
  handle_inbound_frame session (joiner _ _) (replay _) from now answer b = b
