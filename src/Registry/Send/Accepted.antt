-- ===== src/Registry/Send/Accepted.antt =====
-- crates/artel-daemon/src/session.rs (`send`): what an accepted message went through, and what it
-- changes.
use artel.Common.{
  ℕ, ◌+◌, ◌-◌, ◌≤◌, ◌≡◌, ◌≢◌, inl, inr, ap, sym, ◌∙◌, subst, subst₂, true, false, none, some, [],
  ◌∷◌, ◌++◌, arith, Result, ok, err, u64_mod, Option-cases, is_ok, Result-cases,
}
use artel.Common.Map
use artel.Common.Set
use artel.Protocol.Bytes.{Bytes}
use artel.Protocol.Ids.{SessionId, next}
use artel.Protocol.Message.{PeerInfo, MessageKind, SessionMessage, SigBytes, new, is_capability}
use artel.Session.{Session, local, can_write, append_message}
use artel.Store.{SessionStore}
use artel.Registry.State.{
  Env, Registry, Reply, SessionError, BridgeError, put_session, emit, request, with_store, message,
}
use artel.Registry.Send.{
  Authoring, reserved, send, send_local, send_built, resolve_authoring, sign_seq_for,
  message_frame_len, max_session_message_frame,
}

module _ (env : Env) {σ : Type 0} (io : SessionStore σ) where
  -- What `send_built` leaves when it succeeds.
  pub record Built (session : SessionId) (s : Session) (m : SessionMessage) (r r' : Registry σ)
      : Type 0 where
    pub fits : message_frame_len env m ≤ max_session_message_frame
    pub sessions : r'.sessions ≡ Map.insert session (append_message env.postcard s m) r.sessions
    pub emitted : r'.emitted ≡ r.emitted ++ message session m ∷ []
    pub requests : (is_capability m.kind ≡ true) → r'.requests ≡ r.requests

  send_built-ok :
      (session : SessionId) (s : Session) (m m' : SessionMessage) (r : Registry σ)
      → (send_built env io session s m r).0 ≡ ok m'
      → (m' ≡ m) × Built session s m r (send_built env io session s m r).1
  unfolding send_built put_session emit request with_store
  send_built-ok session s m m' r h = ground arith

  send_built-err :
      (session : SessionId) (s : Session) (m : SessionMessage) (e : SessionError) (r : Registry σ)
      → (send_built env io session s m r).0 ≡ err e
      → (send_built env io session s m r).1.sessions ≡ r.sessions
  unfolding send_built put_session emit request with_store
  send_built-err session s m e r h = ground arith

  -- What `send_local` went through when it succeeds.
  pub record Sequenced (session : SessionId) (s : Session) (peer : PeerInfo) (kind : MessageKind)
      (action payload : Bytes) (authoring : Authoring) (now : ℕ) (m : SessionMessage)
      (r : Registry σ) : Type 0 where
    pub writer : can_write s peer.id ≡ true
    pub in_range : s.head ≢ u64_mod - 1
    pub next_seq : m.seq ≡ s.head + 1
    pub author : m.peer ≡ peer
    pub same_kind : m.kind ≡ kind
    pub same_action : m.action ≡ action
    pub same_payload : m.payload ≡ payload
    pub authored :
        resolve_authoring env r now authoring peer kind action payload session
        ≡ ok (m.timestamp_ms, m.signature)
    pub host_signed : m.host_sig ≡ sign_seq_for env r session m.seq m.signature

  send_local-built :
      (session : SessionId) (s : Session) (peer : PeerInfo) (kind : MessageKind)
      (action payload : Bytes) (authoring : Authoring) (now n ts : ℕ) (sig : SigBytes)
      (r : Registry σ)
      → can_write s peer.id ≡ true
      → resolve_authoring env r now authoring peer kind action payload session ≡ ok (ts, sig)
      → next s.head ≡ some n
      → send_local env io session s peer kind action payload authoring now r
        ≡ send_built env io session s
            (new n ts peer kind action payload sig (sign_seq_for env r session n sig))
            r
  unfolding send_local
  send_local-built session s peer kind action payload authoring now n ts sig r w a e =
      rw (w, a, e, send_local)

  -- The tests that an accepted message has passed, in their order.
  abbrev Passed :
      SessionId
      → Session
      → PeerInfo
      → MessageKind
      → Bytes
      → Bytes
      → Authoring
      → ℕ
      → Registry σ
      → Type 0
  Passed session s peer kind action payload authoring now r =
      (can_write s peer.id ≡ true)
      × ((a : ℕ × SigBytes) × (resolve_authoring env r now authoring peer kind action payload
              session
            ≡ ok a))
      × ((n : ℕ) × (next s.head ≡ some n))

  send_local-Passed :
      (session : SessionId) (s : Session) (peer : PeerInfo) (kind : MessageKind)
      (action payload : Bytes) (authoring : Authoring) (now : ℕ) (m : SessionMessage)
      (r : Registry σ)
      → (send_local env io session s peer kind action payload authoring now r).0 ≡ ok m
      → Passed session s peer kind action payload authoring now r
  unfolding send_local
  send_local-Passed session s peer kind action payload authoring now m r h =
      let a = resolve_authoring env r now authoring peer kind action payload session in
      let w : can_write s peer.id ≡ true = ground arith in
      elim (Result-cases a) [
        | inl ((ts, sig), authored) ↦ elim (Option-cases (next s.head)) [
          | inl e ↦ ground arith
          | inr (n, e) ↦ (w, ((ts, sig), authored), (n, e))
        ]
        | inr (inl (e, refused)) ↦ ground arith
        | inr (inr panicked) ↦ ground arith
      ]

  Built-of_eq :
      (session : SessionId) (s : Session) (m m' : SessionMessage) (r : Registry σ)
      (x : Reply σ SessionMessage)
      → x ≡ send_built env io session s m r
      → x.0 ≡ ok m'
      → (m' ≡ m) × Built session s m' r x.1
  Built-of_eq session s m m' r x e h =
      let (same, b) = send_built-ok session s m m' r (ap (λ y. y.0) (sym e) ∙ h) in
      (
        same,
        subst₂ (λ a (y : Reply σ SessionMessage). Built session s a r y.1) (sym same) (sym e) b,
      )

  send_local-ok :
      (session : SessionId) (s : Session) (peer : PeerInfo) (kind : MessageKind)
      (action payload : Bytes) (authoring : Authoring) (now : ℕ) (m : SessionMessage)
      (r : Registry σ)
      → (send_local env io session s peer kind action payload authoring now r).0 ≡ ok m
      → Sequenced session s peer kind action payload authoring now m r
        × Built session s m r
            (send_local env io session s peer kind action payload authoring now r).1
  unfolding next
  send_local-ok session s peer kind action payload authoring now m r h =
      let (w, ((ts, sig), a), (n, e)) =
        send_local-Passed session s peer kind action payload authoring now m r h in
      let msg = new n ts peer kind action payload sig (sign_seq_for env r session n sig) in
      let (same, built) =
        Built-of_eq session s msg m r
          (send_local env io session s peer kind action payload authoring now r)
          (send_local-built session s peer kind action payload authoring now n ts sig r w a e) h in
      let number : (s.head ≢ u64_mod - 1) × (n ≡ s.head + 1) = ground arith in
      (
        record {
          writer = w;
          in_range = number.0;
          next_seq = ap (λ x. x.seq) same ∙ number.1;
          author = ap (λ x. x.peer) same;
          same_kind = ap (λ x. x.kind) same;
          same_action = ap (λ x. x.action) same;
          same_payload = ap (λ x. x.payload) same;
          authored = rw same a;
          host_signed = rw same;
        },
        built,
      )

  module _ (session : SessionId) (peer : PeerInfo) (kind : MessageKind) (action payload : Bytes)
      (authoring : Authoring) (now : ℕ) (answer : Result BridgeError SessionMessage)
      (r : Registry σ) where
    send-local :
        (s : Session)
        → Map.get session r.sessions ≡ some s
        → s.kind ≡ local
        → reserved kind action ≡ none
        → Set.contains peer.id s.members ≡ true
        → send env io session peer kind action payload authoring now answer r
          ≡ send_local env io session s peer kind action payload authoring now r
    unfolding send
    send-local s g k v c = ground arith

    -- A message that a hosting daemon accepts is no reserved action, its author is a member who can
    -- write, it has the head's successor as its number and the arguments as its parts, the author's
    -- and the host's signatures are those of the authoring arm, and it fits a frame. It is appended
    -- to the session, no other session changes, and one event tells of it.
    pub send-ok :
        (s : Session) (m : SessionMessage)
        → Map.get session r.sessions ≡ some s
        → s.kind ≡ local
        → (send env io session peer kind action payload authoring now answer r).0 ≡ ok m
        → (reserved kind action ≡ none)
          × (Set.contains peer.id s.members ≡ true)
          × Sequenced session s peer kind action payload authoring now m r
          × Built session s m r
              (send env io session peer kind action payload authoring now answer r).1
    send-ok s m g k h =
        let v : reserved kind action ≡ none = unfold send in ground arith in
        let c : Set.contains peer.id s.members ≡ true = unfold send in ground arith in
        let e = send-local s g k v c in
        let (q, b) =
          send_local-ok session s peer kind action payload authoring now m r
            (ap (λ (x : Reply σ SessionMessage). x.0) (sym e) ∙ h) in
        (v, c, q, subst (λ (x : Reply σ SessionMessage). Built session s m r x.1) (sym e) b)

    -- A send that does not succeed leaves every session, and what clients were told, as it was.
    pub send-refused :
        is_ok (send env io session peer kind action payload authoring now answer r).0 ≡ false
        → ((send env io session peer kind action payload authoring now answer r).1.sessions
            ≡ r.sessions)
          × ((send env io session peer kind action payload authoring now answer r).1.emitted
              ≡ r.emitted)
    unfolding send send_local send_built request with_store
    send-refused h = ground arith
