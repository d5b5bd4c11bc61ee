-- ===== src/Registry/Send/Asked.antt =====
-- crates/artel-daemon/src/session.rs (`send`): what a send to a session hosted here asks of the bridge.
use artel.Common.{
  ℕ, ◌≡◌, sym, inl, inr, true, some, List, [], ◌∷◌, ◌++◌, append-nil, arith, Result, ok, err, panic,
  if◌then◌else◌, Option-cases, Bool-cases, Result-cases,
}
use artel.Common.Map
use artel.Common.Set
use artel.Protocol.Bytes.{Bytes}
use artel.Protocol.Ids.{SessionId, next}
use artel.Protocol.Message.{PeerInfo, MessageKind, SessionMessage, new, is_capability}
use artel.Session.{Session, local, can_write}
use artel.Store.{SessionStore}
use artel.Registry.State.{
  Env, Registry, SessionError, BridgeError, Request, publish_message, put_session, emit, request,
  with_store, with_session,
}
use artel.Registry.Send.{
  Authoring, reserved, send, send_local, send_built, resolve_authoring, sign_seq_for,
}

-- An accepted message is published, except one of the capability kind, which stays here.
abbrev pub asked : SessionId → Result SessionError SessionMessage → List Request
asked session (ok m) = if is_capability m.kind then [] else publish_message session m ∷ []
asked session (err _) = []
asked session panic = []

module _ (env : Env) {σ : Type 0} (io : SessionStore σ) where
  send_built-asked :
      (session : SessionId) (s : Session) (m : SessionMessage) (r : Registry σ)
      → r.bridge ≡ true
      → (send_built env io session s m r).1.requests
        ≡ r.requests ++ asked session (send_built env io session s m r).0
  unfolding send_built put_session emit request with_store
  send_built-asked session s m r on = ground (arith, append-nil r.requests)

  send_local-asked :
      (session : SessionId) (s : Session) (peer : PeerInfo) (kind : MessageKind)
      (action payload : Bytes) (authoring : Authoring) (now : ℕ) (r : Registry σ)
      → r.bridge ≡ true
      → (send_local env io session s peer kind action payload authoring now r).1.requests
        ≡ r.requests
          ++ asked session (send_local env io session s peer kind action payload authoring now r).0
  unfolding send_local
  send_local-asked session s peer kind action payload authoring now r on =
      let same = sym (append-nil r.requests) in
      elim (Bool-cases (can_write s peer.id)) [
        | inr denied ↦ rw (send_local, denied) same
        | inl allowed ↦
            elim (Result-cases
              (resolve_authoring env r now authoring peer kind action payload session)) [
                | inr (inl (e, bad)) ↦ rw (send_local, allowed, bad) same
                | inr (inr bad) ↦ rw (send_local, allowed, bad) same
                | inl ((timestamp, signature), good) ↦ elim (Option-cases (next s.head)) [
                  | inl full ↦ rw (send_local, allowed, good, full) same
                  | inr (n, room) ↦
                      rw (send_local, allowed, good, room)
                        (send_built-asked session s
                          (new n timestamp peer kind action payload signature
                            (sign_seq_for env r session n signature))
                          r on)
                ]
              ]
      ]

  -- A send to a session that is hosted here adds to the requests that the message is published, if it
  -- is accepted, and nothing else.
  pub send-asked :
      (session : SessionId) (s : Session) (peer : PeerInfo) (kind : MessageKind)
      (action payload : Bytes) (authoring : Authoring) (now : ℕ)
      (answer : Result BridgeError SessionMessage) (r : Registry σ)
      → Map.get session r.sessions ≡ some s
      → s.kind ≡ local
      → r.bridge ≡ true
      → (send env io session peer kind action payload authoring now answer r).1.requests
        ≡ r.requests
          ++ asked session (send env io session peer kind action payload authoring now answer r).0
  unfolding send
  send-asked session s peer kind action payload authoring now answer r found hosted on =
      let same = sym (append-nil r.requests) in
      elim (Option-cases (reserved kind action)) [
        | inr (a, refused) ↦ rw (send, refused) same
        | inl plain ↦ elim (Bool-cases (Set.contains peer.id s.members)) [
          | inr stranger ↦ rw (send, plain, with_session, found, stranger) same
          | inl member ↦
              rw (send, plain, with_session, found, member, hosted)
                (send_local-asked session s peer kind action payload authoring now r on)
        ]
      ]
