-- ===== src/Bridge/Watermark.antt =====
-- crates/artel-daemon/src/gossip_bridge.rs: no frame lowers the epoch below which closes are refused.
use artel.Common.{
  ℕ, ◌≡◌, ◌≤◌, refl, ◌∙◌, inl, inr, true, some, List, [], ◌∷◌, arith, Result, ok, err, panic,
  Result-cases,
}
use artel.Protocol.Ids.{SessionId, PeerId, Seq}
use artel.Protocol.Message.{PeerInfo, SigBytes, SessionMessage}
use artel.Protocol.Signing.{beacon, verify_ctrl}
use artel.Session.{CapClaim}
use artel.Store.{SessionStore}
use artel.Registry.State.{BridgeError, SessionError, Env}
use artel.Registry.Join.{advance_host_epoch_watermark}
use artel.Registry.Members.{ensure_member}
use artel.Registry.Subscribe.{log_since}
use artel.Bridge.Frames.{
  GossipBody, message, send_request, send_ack, join_announcement, session_closed, epoch_beacon,
  replay, GossipCodec,
}
use artel.Bridge.Wire.{Display}
use artel.Bridge.Inbound.{
  Bridge, SessionRole, host, joiner, verified, host_send_request, host_join_announcement,
  host_replay, joiner_session_closed, joiner_epoch_beacon, joiner_send_ack, handle_inbound_frame,
  set_registry, track_authenticated_peer, run_host_replay, run_host_send, publish, publish_all,
  publish_message, publish_send_ack, level, publish_new,
}
use artel.Common.{max}
use artel.Common.Map
use artel.Common.Map.{Map}
use artel.Registry.State.{Request}

level-insert :
    (session : SessionId) (epoch : ℕ) (watermarks : Map ℕ)
    → level session (Map.insert session epoch watermarks) ≡ epoch
unfolding level
level-insert session epoch watermarks =
    rw (level, Map.get-insert_self session epoch watermarks) refl

module _ (env : Env) (c : GossipCodec) (d : Display) {σ : Type 0} (io : SessionStore σ) where
  raise-watermark :
      (key : PeerId) (session : SessionId) (epoch : ℕ) (sig : SigBytes) (from : PeerId)
      (b : Bridge σ)
      → level session b.watermarks
        ≤ level session (joiner_epoch_beacon env c d io key session epoch sig from b).watermarks
  unfolding joiner_epoch_beacon set_registry track_authenticated_peer
  raise-watermark key session epoch sig from b =
      let top = max (level session b.watermarks) epoch in
      ground (arith, level-insert session top b.watermarks)

  pub beacon-watermark :
      (key : PeerId) (session : SessionId) (epoch : ℕ) (sig : SigBytes) (from : PeerId)
      (b : Bridge σ)
      → b.alive ≡ true
      → verified (verify_ctrl env.ed25519 key session beacon epoch sig) ≡ true
      → (advance_host_epoch_watermark io session epoch b.registry).0 ≡ ok tt
      → epoch
        ≤ level session (joiner_epoch_beacon env c d io key session epoch sig from b).watermarks
  unfolding joiner_epoch_beacon set_registry track_authenticated_peer
  beacon-watermark key session epoch sig from b alive ok_sig stored =
      let top = max (level session b.watermarks) epoch in
      ground (arith, level-insert session top b.watermarks)

  publish-watermark :
      (session : SessionId) (body : GossipBody) (b : Bridge σ)
      → (publish env c d io session body b).watermarks ≡ b.watermarks
  unfolding publish
  publish-watermark session body b = ground arith

  publish_all-watermark :
      (session : SessionId) (ms : List SessionMessage) (b : Bridge σ)
      → (publish_all env c d io session ms b).watermarks ≡ b.watermarks
  unfolding publish_all publish_message
  publish_all-watermark session [] b = refl
  publish_all-watermark session (m ∷ ms) b =
      publish_all-watermark session ms (publish_message env c d io session m b)
      ∙ publish-watermark session (message m) b

  publish_new-watermark :
      (requests : List Request) (b : Bridge σ)
      → (publish_new env c d io requests b).watermarks ≡ b.watermarks
  unfolding publish_new publish_message
  publish_new-watermark [] b = refl
  publish_new-watermark (Request.publish_message session m ∷ rest) b =
      publish_new-watermark rest (publish_message env c d io session m b)
      ∙ publish-watermark session (message m) b
  publish_new-watermark (_ ∷ rest) b = publish_new-watermark rest b

  run_host_replay-watermark :
      (session : SessionId) (since : Seq) (b : Bridge σ)
      → (run_host_replay env c d io session since b).watermarks ≡ b.watermarks
  unfolding run_host_replay
  run_host_replay-watermark session since b =
      elim (Result-cases (log_since session since b.registry).0) [
        | inl (ms, e) ↦ ground (arith, publish_all-watermark session ms b)
        | inr (inl (x, e)) ↦ ground arith
        | inr (inr e) ↦ ground arith
      ]

  admitted-watermark :
      (session : SessionId) (x : Result SessionError (Unit {0})) (b : Bridge σ)
      → let after : Bridge σ = elim x [ ok _ ↦ run_host_replay env c d io session 0 b | _ ↦ b ] in
        after.watermarks ≡ b.watermarks
  admitted-watermark session (ok _) b = run_host_replay-watermark session 0 b
  admitted-watermark session (err _) b = refl
  admitted-watermark session panic b = refl

  join-watermark :
      (session : SessionId) (peer : PeerInfo) (claim : CapClaim) (from : PeerId) (now : ℕ)
      (b : Bridge σ)
      → (host_join_announcement env c d io session peer claim from now b).watermarks ≡ b.watermarks
  unfolding host_join_announcement set_registry track_authenticated_peer
  join-watermark session peer claim from now b =
      let b1 = track_authenticated_peer env c d io from b in
      let x = ensure_member env io session peer (some claim) now b1.registry in
      ground (arith, admitted-watermark session x.0 (set_registry env c d io b1 x.1))

  -- No frame lowers the watermark of a session.
  pub handle_inbound_frame-watermark :
      (session : SessionId) (role : SessionRole σ) (body : GossipBody) (from : PeerId) (now : ℕ)
      (answer : Result BridgeError SessionMessage) (b : Bridge σ)
      → level session b.watermarks
        ≤ level session
            (handle_inbound_frame env c d io session role body from now answer b).watermarks
  unfolding handle_inbound_frame host_send_request host_join_announcement host_replay
      joiner_session_closed joiner_send_ack set_registry track_authenticated_peer run_host_send
      publish_send_ack
  handle_inbound_frame-watermark session host (send_request req_id peer payload) from now answer b =
      grind (arith, publish-watermark, publish_new-watermark)
  handle_inbound_frame-watermark session host
        (join_announcement peer _ ticket granted expiry epoch sig) from now answer b =
      ground (
        arith,
        join-watermark session peer
            (record {
              ticket_id = ticket;
              granted_cap = granted;
              expiry_ms = expiry;
              host_epoch = epoch;
              cap_sig = sig;
            })
            from now b,
      )
  handle_inbound_frame-watermark session host (replay since) from now answer b =
      let kept =
        run_host_replay-watermark session since (track_authenticated_peer env c d io from b) in
      ground arith
  handle_inbound_frame-watermark session (joiner _ key) (epoch_beacon epoch sig) from now answer b =
      raise-watermark key session epoch sig from b
  handle_inbound_frame-watermark session (joiner _ key) (send_ack req_id verdict sig) from now
        answer b =
      ground arith
  handle_inbound_frame-watermark session (joiner _ key) (session_closed epoch sig) from now answer
        b =
      ground arith
  handle_inbound_frame-watermark session host _ from now answer b = omega arith
  handle_inbound_frame-watermark session (joiner _ key) _ from now answer b = omega arith
