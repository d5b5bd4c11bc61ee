-- ===== src/Bridge/Answer.antt =====
-- crates/artel-daemon/src/gossip_bridge.rs: a send of a joiner, from the host's bridge back to its
-- own.
use artel.Common.{
  ℕ, ◌≡◌, refl, ap, ◌∙◌, Bool, true, false, some, [], ◌∷◌, ◌++◌, arith, if◌then◌else◌, Result, ok,
  ==_refl,
}
use artel.Common.Set
use artel.Common.Set.{contains-remove}
use artel.Protocol.Bytes.{Bytes}
use artel.Protocol.Ids.{SessionId, PeerId}
use artel.Protocol.Message.{PeerInfo, SessionMessage}
use artel.Protocol.Signing.{Ed25519Laws}
use artel.Store.{SessionStore}
use artel.Registry.State.{BridgeError, Env, Registry}
use artel.Registry.Send.{remotely, send}
use artel.Bridge.Slots.{map_live}
use artel.Bridge.Frames.{
  ReqId, SignedSendPayload, GossipBody, send_request, send_ack, GossipCodec, encode, decode,
  sign_ack, decode-encode_frame, verify_ack-sign_ack,
}
use artel.Bridge.Wire.{Display}
use artel.Bridge.Inbound.{
  Bridge, host, joiner, to_verdict, drop_if_spoofed, set_registry, track_authenticated_peer,
  publish, publish_send_ack, run_host_send, host_send_request, joiner_send_ack,
  handle_inbound_frame, publish_message, publish_new,
}
use artel.Common.{
  sym, append-nil, drop, length, drop-append, List, err, panic, Bool-cases, inl, inr,
}
use artel.Common.Map
use artel.Protocol.Message.{is_capability}
use artel.Session.{Session, local}
use artel.Registry.State.{SessionError}
use artel.Registry.Send.Asked.{asked, send-asked}
use artel.Bridge.Frames.{message}

cond_true : {A : Type 0} (b : Bool) (x y : A) → b ≡ true → (if b then x else y) ≡ x
cond_true true x y h = refl
cond_true false x y h = cc

module _ (env : Env) (c : GossipCodec) (d : Display) {σ : Type 0} (io : SessionStore σ) where
  -- What goes out of an accepted message before the answer does.
  abbrev pub published : SessionId → Result SessionError SessionMessage → List (SessionId × Bytes)
  published session (ok m) =
      if is_capability m.kind then [] else (session, encode c (message m)) ∷ []
  published session (err _) = []
  published session panic = []

  publish-live :
      (session : SessionId) (body : GossipBody) (b : Bridge σ)
      → map_live session b.sessions ≡ some tt
      → publish env c d io session body b
        ≡ record b { broadcasts = b.broadcasts ++ (session, encode c body) ∷ [] }
  unfolding publish
  publish-live session body b topic = rw (publish, topic) refl

  publish_new-asked :
      (session : SessionId) (sent : Result SessionError SessionMessage) (b : Bridge σ)
      → map_live session b.sessions ≡ some tt
      → publish_new env c d io (asked session sent) b
        ≡ record b { broadcasts = b.broadcasts ++ published session sent }
  unfolding publish_new publish_message
  publish_new-asked session (err _) b topic =
      ap (λ l. record b { broadcasts = l }) (sym (append-nil b.broadcasts))
  publish_new-asked session panic b topic =
      ap (λ l. record b { broadcasts = l }) (sym (append-nil b.broadcasts))
  publish_new-asked session (ok m) b topic = elim (Bool-cases (is_capability m.kind)) [
    | inl private ↦
        rw private (ap (λ l. record b { broadcasts = l }) (sym (append-nil b.broadcasts)))
    | inr public ↦ rw public (publish-live session (message m) b topic)
  ]

  run_host_send-alive :
      (session : SessionId) (s : Session) (peer : PeerInfo) (p : SignedSendPayload) (now : ℕ)
      (answer : Result BridgeError SessionMessage) (b : Bridge σ)
      → Map.get session b.registry.sessions ≡ some s
      → s.kind ≡ local
      → b.registry.bridge ≡ true
      → b.alive ≡ true
      → map_live session b.sessions ≡ some tt
      → let (sent, r) =
          send env io session peer p.kind p.action p.payload
            (remotely p.timestamp_ms p.signature)
            now
            answer
            b.registry in
        run_host_send env c d io session peer p now answer b ≡ (
          to_verdict env c d io sent,
          record b { registry = r; broadcasts = b.broadcasts ++ published session sent },
        )
  unfolding run_host_send set_registry
  run_host_send-alive session s peer p now answer b found hosted on alive topic =
      let x =
        send env io session peer p.kind p.action p.payload (remotely p.timestamp_ms p.signature) now
          answer b.registry in
      let new : drop (length b.registry.requests) x.1.requests ≡ asked session x.0 =
        ap (drop (length b.registry.requests)) (
          send-asked env io session s peer p.kind p.action p.payload
            (remotely p.timestamp_ms p.signature) now answer b.registry found hosted on)
        ∙ drop-append b.registry.requests (asked session x.0) in
      cond_true b.alive _ _ alive
      ∙ ap (λ q. (to_verdict env c d io x.0, q))
          (ap (λ q. publish_new env c d io q (set_registry env c d io b x.1)) new
            ∙ publish_new-asked session x.0 (set_registry env c d io b x.1) topic)

  requested :
      (session : SessionId) (req_id : ReqId) (peer : PeerInfo) (p : SignedSendPayload) (now : ℕ)
      (answer : Result BridgeError SessionMessage) (b : Bridge σ)
      → let x =
          run_host_send env c d io session peer p now answer
            (track_authenticated_peer env c d io peer.id b) in
        host_send_request env c d io session req_id peer p peer.id now answer b
        ≡ publish_send_ack env c d io session req_id x.0 x.1
  unfolding host_send_request drop_if_spoofed
  requested session req_id peer p now answer b = rw (host_send_request, ==_refl peer.id) refl

  -- A host whose registry is there and has the bridge, and that gets a send of a joiner, in that
  -- joiner's own name, to a session that it hosts and has a topic for, runs it in its registry. If
  -- it is accepted, and not of the capability kind, it first broadcasts the message; then, accepted
  -- or not, it broadcasts one frame with the verdict. If postcard gives the body of that frame back,
  -- it decodes, and a joiner of the session that waits for the answer, and knows the host's key,
  -- takes from it exactly the verdict of the host's registry.
  pub send_request-answered :
      (L : Ed25519Laws (env.ed25519)) (session : SessionId) (s : Session) (req_id : ReqId)
      (peer : PeerInfo) (p : SignedSendPayload) (now : ℕ)
      (answer : Result BridgeError SessionMessage) (b : Bridge σ)
      → let verdict =
          to_verdict env c d io
            (send env io session peer p.kind p.action p.payload
              (remotely p.timestamp_ms p.signature)
              now
              answer
              b.registry).0 in
        let ack =
          send_ack req_id verdict (sign_ack c (env.ed25519) b.signing_key session req_id verdict) in
        c.body_decode (c.body_encode ack) ≡ some ack
        → Map.get session b.registry.sessions ≡ some s
        → s.kind ≡ local
        → b.registry.bridge ≡ true
        → b.alive ≡ true
        → map_live session b.sessions ≡ some tt
        → let after =
            handle_inbound_frame env c d io session host
              (send_request req_id peer p)
              peer.id
              now
              answer
              b in
          let (sent, r) =
            send env io session peer p.kind p.action p.payload
              (remotely p.timestamp_ms p.signature)
              now
              answer
              b.registry in
          (after.registry ≡ r)
          × ((bytes : Bytes) × (body : GossipBody) × (after.broadcasts
                ≡ (b.broadcasts ++ published session sent) ++ (session, bytes) ∷ [])
              × (decode c bytes ≡ ok body)
              × ((j : Bridge σ) (on_message : SessionMessage → Registry σ → Registry σ)
                    (from : PeerId)
                  → Set.contains req_id j.pending_sends ≡ true
                  → let role = joiner on_message (L.public b.signing_key) in
                    let woken =
                      handle_inbound_frame env c d io session role body from now answer j in
                    (woken.answered ≡ j.answered ++ (req_id, to_verdict env c d io sent) ∷ [])
                    × (Set.contains req_id woken.pending_sends ≡ false)))
  unfolding handle_inbound_frame publish_send_ack set_registry track_authenticated_peer
      joiner_send_ack
  send_request-answered L session s req_id peer p now answer b law found hosted on alive topic =
      let (sent, r) =
        send env io session peer p.kind p.action p.payload (remotely p.timestamp_ms p.signature) now
          answer b.registry in
      let verdict = to_verdict env c d io sent in
      let sig = sign_ack c (env.ed25519) b.signing_key session req_id verdict in
      let body = send_ack req_id verdict sig in
      let b1 = track_authenticated_peer env c d io peer.id b in
      let b2 : Bridge σ = record b1 {
        registry = r;
        broadcasts = b.broadcasts ++ published session sent;
      } in
      let handled : host_send_request env c d io session req_id peer p peer.id now answer b
          ≡ record b2 { broadcasts = b2.broadcasts ++ (session, encode c body) ∷ [] } =
        requested session req_id peer p now answer b
        ∙ ap (λ x. publish_send_ack env c d io session req_id x.0 x.1)
            (run_host_send-alive session s peer p now answer b1 found hosted on alive topic)
        ∙ publish-live session body b2 topic in
      (
        ap (λ x. x.registry) handled,
        (
          encode c body,
          body,
          ap (λ x. x.broadcasts) handled,
          decode-encode_frame c body law,
          λ j on_message from waits.
              let good =
                verify_ack-sign_ack c (env.ed25519) L b.signing_key session req_id verdict in
              let gone = contains-remove req_id req_id j.pending_sends in
              rw (joiner_send_ack, good, waits) (refl, ground arith),
        ),
      )
