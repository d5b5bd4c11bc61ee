-- ===== src/Registry/Invariant/Sending.antt =====
-- crates/artel-daemon/src/session.rs: the invariant through `send`, and through the admission that
-- sends a grant.
use artel.Common.{ℕ, ◌≡◌, refl, inl, inr, none, some, arith, Result, ok, Option-cases, Result-cases}
use artel.Common.Map
use artel.Common.Map.{get-insert, get-remove}
use artel.Protocol.Bytes.{Bytes}
use artel.Protocol.Ids.{SessionId}
use artel.Protocol.Message.{PeerInfo, MessageKind, SessionMessage}
use artel.Session.{Session, SessionKind, local, remote, append_message}
use artel.Session.WellFormed.{append_message-WellFormed}
use artel.Store.{SessionStore}
use artel.Registry.State.{Env, Registry, BridgeError, request}
use artel.Registry.Send.{Authoring, send}
use artel.Registry.Send.Accepted.{send-ok, send-refused}
use artel.Registry.Invariant.{AllWellFormed, keep, put}

module _ (env : Env) {σ : Type 0} (io : SessionStore σ) where
  module _ (session : SessionId) (peer : PeerInfo) (kind : MessageKind) (action payload : Bytes)
      (authoring : Authoring) (now : ℕ) (answer : Result BridgeError SessionMessage)
      (r : Registry σ) where
    send-remote :
        (s : Session)
        → Map.get session r.sessions ≡ some s
        → s.kind ≡ remote
        → (send env io session peer kind action payload authoring now answer r).1.sessions
          ≡ r.sessions
    unfolding send request
    send-remote s g k = ground arith

    send-unknown :
        Map.get session r.sessions ≡ none
        → (send env io session peer kind action payload authoring now answer r).1.sessions
          ≡ r.sessions
    unfolding send
    send-unknown g = ground arith

    sent-AllWellFormed :
        (s : Session) (m : SessionMessage) (k : SessionKind)
        → s.kind ≡ k
        → Map.get session r.sessions ≡ some s
        → (send env io session peer kind action payload authoring now answer r).0 ≡ ok m
        → AllWellFormed env.postcard r
        → AllWellFormed env.postcard
            (send env io session peer kind action payload authoring now answer r).1
    sent-AllWellFormed s m remote k found h inv =
        keep env.postcard r (send env io session peer kind action payload authoring now answer r).1
          (send-remote s found k) inv
    sent-AllWellFormed s m local k found h inv =
        let (_, _, sequenced, built) =
          send-ok env io session peer kind action payload authoring now answer r s m found k h in
        put env.postcard session (append_message env.postcard s m) r
          (send env io session peer kind action payload authoring now answer r).1 built.sessions
          (append_message-WellFormed env.postcard s m k (omega (arith, sequenced.next_seq))
            (inv session s found))
          inv

    pub send-AllWellFormed :
        AllWellFormed env.postcard r
        → AllWellFormed env.postcard
            (send env io session peer kind action payload authoring now answer r).1
    send-AllWellFormed inv =
        let result = send env io session peer kind action payload authoring now answer r in
        elim (Option-cases (Map.get session r.sessions)) [
          | inl missing ↦ keep env.postcard r result.1 (send-unknown missing) inv
          | inr (s, found) ↦ elim (Result-cases result.0) [
            | inl (m, sent) ↦ sent-AllWellFormed s m s.kind refl found sent inv
            | inr (inl (e, refused)) ↦
                keep env.postcard r result.1
                  (send-refused env io session peer kind action payload authoring now answer r
                    (ground arith)).0
                  inv
            | inr (inr panicked) ↦
                keep env.postcard r result.1
                  (send-refused env io session peer kind action payload authoring now answer r
                    (ground arith)).0
                  inv
          ]
        ]
