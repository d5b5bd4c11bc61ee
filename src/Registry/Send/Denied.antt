-- ===== src/Registry/Send/Denied.antt =====
-- crates/artel-daemon/src/session.rs (`send`): a peer whose capability the host has revoked.
use artel.Common.{ℕ, ◌≡◌, refl, ap, ◌∙◌, true, false, some, arith, Result, ok, ◌==◌, is_ok}
use artel.Common.Map
use artel.Common.Map.{get-insert, get-remove}
use artel.Protocol.Bytes.{Bytes}
use artel.Protocol.Ids.{SessionId, PeerId}
use artel.Protocol.Message.{PeerInfo, MessageKind, SessionMessage}
use artel.Session.{can_write, Session, local, append_message}
use artel.Store.{SessionStore}
use artel.Registry.State.{Env, Registry, BridgeError}
use artel.Registry.Send.{send_local, Authoring, send}
use artel.Registry.Send.Accepted.{send-ok}
use artel.Registry.Host.{host}
use artel.Registry.Send.Accepted.{send-ok}
use artel.Common.Map.{get-insert_self}
use artel.Session.{apply_capability_to, project_action}
use artel.Protocol.Capability.{revoke}
use artel.Protocol.Message.{is_capability, capability, SessionMessage}

module _ (env : Env) {σ : Type 0} (io : SessionStore σ) where
  -- On a session hosted here, a peer that cannot write is refused, whatever else it sends.
  pub send-denied :
      (id : SessionId) (peer : PeerInfo) (kind : MessageKind) (action payload : Bytes)
      (authoring : Authoring) (now : ℕ) (answer : Result BridgeError SessionMessage)
      (r : Registry σ) (s : Session)
      → Map.get id r.sessions ≡ some s
      → s.kind ≡ local
      → can_write s peer.id ≡ false
      → is_ok (send env io id peer kind action payload authoring now answer r).0 ≡ false
  unfolding send send_local
  send-denied id peer kind action payload authoring now answer r s found hosted floor = ground arith

  revoked-cannot_write :
      (s : Session) (m : SessionMessage) (p : PeerId)
      → is_capability m.kind ≡ true
      → m.peer.id ≡ s.host
      → env.postcard.decode_action m.payload ≡ some (revoke p)
      → (p == s.host) ≡ false
      → can_write (append_message env.postcard s m) p ≡ false
  unfolding can_write append_message apply_capability_to project_action
  revoked-cannot_write s m p c h d other = ground (arith, Map.get-remove p p s.caps)

  append_message-kind :
      (s : Session) (m : SessionMessage) → (append_message env.postcard s m).kind ≡ s.kind
  unfolding append_message
  append_message-kind s m = ground arith

  -- Right after a session hosted here has accepted its host's revocation of another peer, any
  -- message of that peer is refused, whatever its kind, its action, its payload and its authoring
  -- are.
  pub send-revoked :
      (id : SessionId) (host : PeerInfo) (action payload : Bytes) (authoring : Authoring) (now : ℕ)
      (answer : Result BridgeError SessionMessage) (r : Registry σ) (s : Session)
      (m : SessionMessage) (peer : PeerInfo) (kind : MessageKind) (action' payload' : Bytes)
      (authoring' : Authoring) (now' : ℕ) (answer' : Result BridgeError SessionMessage)
      → Map.get id r.sessions ≡ some s
      → s.kind ≡ local
      → host.id ≡ s.host
      → env.postcard.decode_action payload ≡ some (revoke peer.id)
      → (peer.id == s.host) ≡ false
      → (send env io id host capability action payload authoring now answer r).0 ≡ ok m
      → is_ok
          (send env io id peer kind action' payload' authoring' now' answer'
            (send env io id host capability action payload authoring now answer r).1).0
        ≡ false
  send-revoked id host action payload authoring now answer r s m peer kind action' payload'
        authoring' now' answer' found hosted root decoded other sent =
      let (_, _, sequenced, built) =
        send-ok env io id host capability action payload authoring now answer r s m found hosted
          sent in
      let after = (send env io id host capability action payload authoring now answer r).1 in
      let there : Map.get id after.sessions ≡ some (append_message env.postcard s m) =
        ap (Map.get id) built.sessions
        ∙ get-insert_self id (append_message env.postcard s m) r.sessions in
      send-denied id peer kind action' payload' authoring' now' answer' after
        (append_message env.postcard s m) there (append_message-kind s m ∙ hosted)
        (revoked-cannot_write s m peer.id
          (ap is_capability sequenced.same_kind ∙ unfold is_capability in refl)
          (ap (λ (p : PeerInfo). p.id) sequenced.author ∙ root)
          (ap env.postcard.decode_action sequenced.same_payload ∙ decoded) other)
