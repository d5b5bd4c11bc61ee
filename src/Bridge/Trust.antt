-- ===== src/Bridge/Trust.antt =====
-- crates/artel-daemon/src/gossip_bridge.rs: which frames the bridge acts on.
use artel.Common.{
  ℕ, ◌≡◌, ◌≢◌, ◌≤◌, ◌<◌, refl, ◌∙◌, inl, inr, Bool, true, false, Option, none, some, List, [], ◌∷◌,
  arith, if◌then◌else◌, ltb, Result, ok, Bool-cases,
}
use artel.Protocol.Ids.{SessionId, PeerId}
use artel.Protocol.Message.{SigBytes, SessionMessage}
use artel.Protocol.Signing.{close, beacon, verify_ctrl}
use artel.Store.{SessionStore}
use artel.Registry.State.{BridgeError, Env, Registry}
use artel.Registry.Join.{advance_host_epoch_watermark}
use artel.Registry.Members.{is_member}
use artel.Bridge.Frames.{
  GossipBody, message, send_request, send_ack, join_announcement, session_closed, epoch_beacon,
  replay, GossipCodec, verify_ack,
}
use artel.Bridge.Wire.{Display}
use artel.Bridge.Inbound.{
  Bridge, SessionRole, host, joiner, drop_if_spoofed, verified, host_send_request,
  host_join_announcement, host_replay, joiner_session_closed, joiner_epoch_beacon, joiner_send_ack,
  handle_inbound_frame, set_registry, track_authenticated_peer, run_host_replay, level,
}
use artel.Common.{ap, Option-cases}
use artel.Common.Map
use artel.Common.Map.{Map}
use artel.Session.{Session}
use artel.Protocol.Signing.{verify_message, verify_seq}
use artel.Registry.Mirror.{authentic, apply_inbound}
use artel.Bridge.Watermark.{beacon-watermark, handle_inbound_frame-watermark}

member_only :
    {A : Type 0} (alive : Bool) (o : Option Bool) (x y : A)
    → (if alive then elim o [ some true ↦ x | _ ↦ y ] else y) ≢ y
    → o ≡ some true
member_only true (some true) x y h = refl
member_only true (some false) x y h = absurd (h refl)
member_only true none x y h = absurd (h refl)
member_only false o x y h = absurd (h refl)

module _ (env : Env) (c : GossipCodec) (d : Display) {σ : Type 0} (io : SessionStore σ) where
  -- What must hold of a frame for the bridge to act on it, by the role of its session: on a host, a
  -- frame in a peer's name comes from that peer, and a replay is asked for by a member; on a
  -- joiner, a message carries the signatures of its author and of the host over its number, a
  -- control frame or an answer carries the host's signature, and a close is not older than the
  -- newest epoch.
  abbrev pub IsTrusted : SessionId → SessionRole σ → GossipBody → PeerId → Bridge σ → Type 0
  IsTrusted session host (send_request _ peer _) from b = peer.id ≡ from
  IsTrusted session host (join_announcement peer _ _ _ _ _ _) from b = peer.id ≡ from
  IsTrusted session host (replay _) from b = is_member session from b.registry ≡ some true
  IsTrusted session host _ from b = ⊥
  IsTrusted session (joiner _ _) (message m) from b =
      (s : Session) × (Map.get session b.registry.sessions ≡ some s)
      × (verified (verify_message env.ed25519 session m m.signature) ≡ true)
      × (verified (verify_seq env.ed25519 s.host session m.seq m.signature m.host_sig) ≡ true)
  IsTrusted session (joiner _ key) (send_ack req_id verdict sig) from b =
      verified (verify_ack c env.ed25519 key session req_id verdict sig) ≡ true
  IsTrusted session (joiner _ key) (session_closed epoch sig) from b =
      (verified (verify_ctrl env.ed25519 key session close epoch sig) ≡ true)
      × (level session b.watermarks ≤ epoch)
  IsTrusted session (joiner _ key) (epoch_beacon epoch sig) from b =
      verified (verify_ctrl env.ed25519 key session beacon epoch sig) ≡ true
  IsTrusted session (joiner _ _) _ from b = ⊥

  -- What the registry does with a message for the mirror of the session.
  abbrev pub on_mirror : SessionId → SessionMessage → Registry σ → Registry σ
  on_mirror session m r = elim (Map.get session r.sessions) [
    | none ↦ r
    | some s ↦ apply_inbound env io session s m r
  ]

  -- A joiner hands its messages to the registry.
  abbrev pub HandsOver : SessionId → SessionRole σ → Type 0
  HandsOver session host = Unit {0}
  HandsOver session (joiner on_message _) =
      (m : SessionMessage) (r : Registry σ) → on_message m r ≡ on_mirror session m r

  -- A frame changed the bridge; by a joiner's message, in more than the known peers, to which its
  -- sender is added before any check.
  abbrev pub Changes : SessionRole σ → GossipBody → Bridge σ → Bridge σ → Type 0
  Changes (joiner _ _) (message _) b after =
      record after { tracked_peer_ids = b.tracked_peer_ids } ≢ b
  Changes _ _ b after = after ≢ b

  on_mirror-authentic :
      (session : SessionId) (m : SessionMessage) (r : Registry σ)
      → on_mirror session m r ≢ r
      → (s : Session) × (Map.get session r.sessions ≡ some s)
        × (verified (verify_message env.ed25519 session m m.signature) ≡ true)
        × (verified (verify_seq env.ed25519 s.host session m.seq m.signature m.host_sig) ≡ true)
  unfolding apply_inbound authentic
  on_mirror-authentic session m r change = elim (Option-cases (Map.get session r.sessions)) [
    | inl missing ↦ absurd (change (rw (on_mirror, missing) refl))
    | inr (s, found) ↦ elim (Bool-cases (authentic env.ed25519 session s m)) [
      | inl genuine ↦ (s, found, ground arith, ground arith)
      | inr forged ↦
          let same : apply_inbound env io session s m r ≡ r = ground arith in
          absurd (change (rw (on_mirror, found) same))
    ]
  ]

  -- A frame that changes anything, be it the sessions, the known peers or what is sent, is one that
  -- its session's role may trust; only that a message for a mirror, which the registry checks, adds
  -- its sender to the known peers whether or not it can be trusted.
  pub handle_inbound_frame-IsTrusted :
      (session : SessionId) (role : SessionRole σ) (body : GossipBody) (from : PeerId) (now : ℕ)
      (answer : Result BridgeError SessionMessage) (b : Bridge σ)
      → HandsOver session role
      → Changes role body b (handle_inbound_frame env c d io session role body from now answer b)
      → IsTrusted session role body from b
  unfolding handle_inbound_frame host_send_request host_join_announcement host_replay
      joiner_session_closed joiner_epoch_beacon joiner_send_ack drop_if_spoofed
  handle_inbound_frame-IsTrusted session host (send_request req_id peer payload) from now answer b
        hands h =
      ground arith
  handle_inbound_frame-IsTrusted session host (join_announcement peer _ _ _ _ _ _) from now answer b
        hands h =
      ground arith
  handle_inbound_frame-IsTrusted session host (replay since) from now answer b hands h =
      member_only b.alive (is_member session from b.registry)
        (run_host_replay env c d io session since (track_authenticated_peer env c d io from b)) b h
  handle_inbound_frame-IsTrusted session host (message _) from now answer b hands h = h refl
  handle_inbound_frame-IsTrusted session host (send_ack _ _ _) from now answer b hands h = h refl
  handle_inbound_frame-IsTrusted session host (session_closed _ _) from now answer b hands h =
      h refl
  handle_inbound_frame-IsTrusted session host (epoch_beacon _ _) from now answer b hands h = h refl
  handle_inbound_frame-IsTrusted session (joiner on_message key) (message m) from now answer b hands
        h =
      on_mirror-authentic session m b.registry
        (λ same. h (ap (set_registry env c d io b) (hands m b.registry ∙ same)))
  handle_inbound_frame-IsTrusted session (joiner _ key) (send_ack req_id verdict sig) from now
        answer b hands h =
      elim (Bool-cases (verified (verify_ack c env.ed25519 key session req_id verdict sig))) [
        | inl e ↦ e
        | inr e ↦ absurd (h (rw (joiner_send_ack, e) refl))
      ]
  handle_inbound_frame-IsTrusted session (joiner _ key) (session_closed epoch sig) from now answer b
        hands h =
      elim (Bool-cases (verified (verify_ctrl env.ed25519 key session close epoch sig))) [
        | inr e ↦ absurd (h (rw (joiner_session_closed, e) refl))
        | inl e ↦ elim (Bool-cases (ltb epoch (level session b.watermarks))) [
          | inl old ↦ absurd (h (rw (joiner_session_closed, e, old) refl))
          | inr fresh ↦ (e, ground arith)
        ]
      ]
  handle_inbound_frame-IsTrusted session (joiner _ key) (epoch_beacon epoch sig) from now answer b
        hands h =
      elim (Bool-cases (verified (verify_ctrl env.ed25519 key session beacon epoch sig))) [
        | inl e ↦ e
        | inr e ↦ absurd (h (rw (joiner_epoch_beacon, e) refl))
      ]
  handle_inbound_frame-IsTrusted session (joiner _ _) (send_request _ _ _) from now answer b hands
        h =
      h refl
  handle_inbound_frame-IsTrusted session (joiner _ _) (join_announcement _ _ _ _ _ _ _) from now
        answer b hands h =
      h refl
  handle_inbound_frame-IsTrusted session (joiner _ _) (replay _) from now answer b hands h = h refl

  -- Frames in the order in which they arrive, each with its sender, the clock and the answer that
  -- `run_host_send` takes.
  abbrev pub run_frames :
      SessionId
      → SessionRole σ
      → List (GossipBody × PeerId × ℕ × Result BridgeError SessionMessage)
      → Bridge σ
      → Bridge σ
  run_frames session role [] b = b
  run_frames session role ((body, from, now, answer) ∷ rest) b =
      run_frames session role rest
        (handle_inbound_frame env c d io session role body from now answer b)

  run_frames-watermark :
      (session : SessionId) (role : SessionRole σ)
      (frames : List (GossipBody × PeerId × ℕ × Result BridgeError SessionMessage)) (b : Bridge σ)
      → level session b.watermarks ≤ level session (run_frames session role frames b).watermarks
  run_frames-watermark session role [] b = omega arith
  run_frames-watermark session role ((body, from, now, answer) ∷ rest) b = omega (
    arith,
    handle_inbound_frame-watermark env c d io session role body from now answer b,
    run_frames-watermark session role rest
        (handle_inbound_frame env c d io session role body from now answer b),
  )

  -- Once a joiner has taken over an epoch from a beacon of its host, a close that the host signed
  -- at an older epoch changes nothing, whatever frames came in between: a close that is recorded
  -- and played again after the host resumed cannot end the session.
  pub beacon-close :
      (session : SessionId) (on_message : SessionMessage → Registry σ → Registry σ) (key : PeerId)
      (epoch old : ℕ) (sig old_sig : SigBytes) (from later : PeerId) (now : ℕ)
      (answer : Result BridgeError SessionMessage)
      (frames : List (GossipBody × PeerId × ℕ × Result BridgeError SessionMessage)) (b : Bridge σ)
      → let role = joiner on_message key in
        b.alive ≡ true
        → verified (verify_ctrl env.ed25519 key session beacon epoch sig) ≡ true
        → (advance_host_epoch_watermark io session epoch b.registry).0 ≡ ok tt
        → old < epoch
        → let b1 = run_frames session role frames (
            handle_inbound_frame env c d io session role
              (epoch_beacon epoch sig)
              from
              now
              answer
              b) in
          handle_inbound_frame env c d io session role
            (session_closed old old_sig)
            later
            now
            answer
            b1
          ≡ b1
  unfolding handle_inbound_frame joiner_session_closed
  beacon-close session on_message key epoch old sig old_sig from later now answer frames b alive
        ok_sig stored lower =
      let role = joiner on_message key in
      let first = joiner_epoch_beacon env c d io key session epoch sig from b in
      let b1 = run_frames session role frames first in
      let up : epoch ≤ level session first.watermarks =
        beacon-watermark env c d io key session epoch sig from b alive ok_sig stored in
      let kept = run_frames-watermark session role frames first in
      let stale : ltb old (level session b1.watermarks) ≡ true = ground arith in
      elim (Bool-cases (verified (verify_ctrl env.ed25519 key session close old old_sig))) [
        | inl e ↦ rw (joiner_session_closed, e, stale) refl
        | inr e ↦ rw (joiner_session_closed, e) refl
      ]
