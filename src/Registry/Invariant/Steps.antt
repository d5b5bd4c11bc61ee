-- ===== src/Registry/Invariant/Steps.antt =====
-- crates/artel-daemon/src/session.rs: the registry as a state machine. A step is one operation, with
-- any arguments and any answers of the network, on any storage.
use artel.Common.{
  ℕ, ◌≡◌, sym, ap, ◌∙◌, inl, inr, true, Option, some, List, [], arith, Result, Option-cases,
}
use artel.Common.Map
use artel.Common.Map.{get-insert, get-remove}
use artel.Protocol.Bytes.{Bytes}
use artel.Protocol.Ids.{SessionId, TicketId, PeerId}
use artel.Protocol.Capability.{Capability, read_write, permits_write}
use artel.Protocol.Message.{PeerInfo, MessageKind, SessionMessage}
use artel.Session.{can_write, Session, local, remote, CapClaim}
use artel.Store.{SessionStore}
use artel.Registry.State.{Env, Registry, BridgeError, with_store}
use artel.Registry.Invariant.Sending.{send-AllWellFormed}
use artel.Registry.Join.{host_closed_session, advance_host_epoch_watermark, join}
use artel.Registry.Deliver.{
  emit_workspace_ticket, publish_workspace_ticket, lock_remote_session_from_host,
}
use artel.Session.Caps.{get-project_caps_host}
use artel.Registry.Attachments.{registered, register_attachment, forget_attachment}
use artel.Registry.Invariant.Local.{
  revoke_ticket-AllWellFormed, issue_ticket-AllWellFormed, leave-AllWellFormed,
  remove_member-AllWellFormed, host-AllWellFormed,
}
use artel.Registry.Invariant.Joining.{join-AllWellFormed}
use artel.Registry.Invariant.Admission.{
  ensure_member-AllWellFormed, apply_inbound-AllWellFormed, emit_workspace_ticket-AllWellFormed,
}
use artel.Registry.Invariant.Network.{
  host_closed_session-AllWellFormed, advance_host_epoch_watermark-AllWellFormed,
  publish_workspace_ticket-AllWellFormed,
}
use artel.Registry.Tickets.{revoke_ticket, issue_ticket}
use artel.Registry.Send.{Authoring, send}
use artel.Registry.Host.{host}
use artel.Registry.Members.{ensure_member, remove_member, leave}
use artel.Registry.Mirror.{apply_inbound}
use artel.Registry.Invariant.{AllWellFormed, keep}

module _ (env : Env) {σ : Type 0} (io : SessionStore σ) where
  pub data Step (r : Registry σ) : Registry σ → Type 0 where
    hosts :
        (peer : PeerInfo) (requested : Option SessionId) (granted_cap : Capability) (expiry_ms : ℕ)
        (ids : List (SessionId × TicketId)) (now : ℕ)
        → Step r (host env io peer requested granted_cap expiry_ms ids now r).1
    issues :
        (id : SessionId) (granted_cap : Capability) (expiry_ms : ℕ) (tid : TicketId) (now : ℕ)
        → Step r (issue_ticket env io id granted_cap expiry_ms tid now r).1
    revokes : (id : SessionId) (tid : TicketId) → Step r (revoke_ticket io id tid r).1
    joins :
        (ticket : Bytes) (peer : PeerInfo) (outcome : Result BridgeError (Unit {0}))
        → Step r (join env io ticket peer outcome r).1
    leaves : (id : SessionId) (peer : PeerId) → Step r (leave io id peer r).1
    removes : (id : SessionId) (peer : PeerId) → Step r (remove_member io id peer r).1
    ensures :
        (id : SessionId) (peer : PeerInfo) (claim : Option CapClaim) (now : ℕ)
        → Step r (ensure_member env io id peer claim now r).1
    sends :
        (id : SessionId) (peer : PeerInfo) (kind : MessageKind) (action payload : Bytes)
        (authoring : Authoring) (now : ℕ) (answer : Result BridgeError SessionMessage)
        → Step r (send env io id peer kind action payload authoring now answer r).1
    receives :
        (id : SessionId) (s : Session) (m : SessionMessage)
        → Map.get id r.sessions ≡ some s
        → s.kind ≡ remote
        → Step r (apply_inbound env io id s m r)
    closes : (id : SessionId) → Step r (host_closed_session io id r).1
    advances : (id : SessionId) (epoch : ℕ) → Step r (advance_host_epoch_watermark io id epoch r).1
    publishes :
        (id : SessionId) (envelope : Bytes) → Step r (publish_workspace_ticket io id envelope r).1
    takes :
        (id : SessionId) (sender : PeerId) (envelope : Bytes)
        → Step r (emit_workspace_ticket io id sender envelope r).1
    attaches :
        (id : SessionId) (kind payload : Bytes)
        → Step r (register_attachment io id kind payload r).1
    forgets : (id : SessionId) (kind : Bytes) → Step r (forget_attachment io id kind r).1

  -- What operations make of a registry.
  pub data Reachable (start : Registry σ) : Registry σ → Type 0 where
    initially : Reachable start start
    after : {r r' : Registry σ} → Reachable start r → Step r r' → Reachable start r'

  taken-AllWellFormed :
      (id : SessionId) (sender : PeerId) (envelope : Bytes) (r : Registry σ)
      → AllWellFormed env.postcard r
      → AllWellFormed env.postcard (emit_workspace_ticket io id sender envelope r).1
  taken-AllWellFormed id sender envelope r inv = elim (Option-cases (Map.get id r.sessions)) [
    | inl missing ↦
        keep env.postcard r (emit_workspace_ticket io id sender envelope r).1
          (unfold emit_workspace_ticket lock_remote_session_from_host in ground arith) inv
    | inr (s, found) ↦
        emit_workspace_ticket-AllWellFormed env.postcard io id sender envelope s r found inv
  ]

  attached-sessions :
      (id : SessionId) (kind payload : Bytes) (r : Registry σ)
      → (register_attachment io id kind payload r).1.sessions ≡ r.sessions
  unfolding register_attachment registered with_store
  attached-sessions id kind payload r = ground arith

  forgotten-sessions :
      (id : SessionId) (kind : Bytes) (r : Registry σ)
      → (forget_attachment io id kind r).1.sessions ≡ r.sessions
  unfolding forget_attachment with_store
  forgotten-sessions id kind r = ground arith

  -- Whichever of the fifteen operations a step is, with any arguments, any storage and any answers
  -- of the network: if every session of the registry is well formed before it, every session is
  -- well formed after it. Well formed is a mirror whose log rises strictly up to its head at most,
  -- and a session hosted here whose log is numbered from 1 to its head, whose host is a member,
  -- and whose capabilities are those that its log projects to.
  pub step-AllWellFormed :
      (r r' : Registry σ) → Step r r' → AllWellFormed env.postcard r → AllWellFormed env.postcard r'
  step-AllWellFormed r _ (hosts peer requested granted_cap expiry_ms ids now) inv =
      host-AllWellFormed env io peer requested granted_cap expiry_ms ids now r inv
  step-AllWellFormed r _ (issues id granted_cap expiry_ms tid now) inv =
      issue_ticket-AllWellFormed env io id granted_cap expiry_ms tid now r inv
  step-AllWellFormed r _ (revokes id tid) inv =
      revoke_ticket-AllWellFormed env.postcard io id tid r inv
  step-AllWellFormed r _ (joins ticket peer outcome) inv =
      join-AllWellFormed env io ticket peer outcome r inv
  step-AllWellFormed r _ (leaves id peer) inv = leave-AllWellFormed env.postcard io id peer r inv
  step-AllWellFormed r _ (removes id peer) inv =
      remove_member-AllWellFormed env.postcard io id peer r inv
  step-AllWellFormed r _ (ensures id peer claim now) inv =
      ensure_member-AllWellFormed env io id peer claim now r inv
  step-AllWellFormed r _ (sends id peer kind action payload authoring now answer) inv =
      send-AllWellFormed env io id peer kind action payload authoring now answer r inv
  step-AllWellFormed r _ (receives id s m found mirror) inv =
      apply_inbound-AllWellFormed env.postcard io env id s m r mirror found inv
  step-AllWellFormed r _ (closes id) inv =
      host_closed_session-AllWellFormed env.postcard io id r inv
  step-AllWellFormed r _ (advances id epoch) inv =
      advance_host_epoch_watermark-AllWellFormed env.postcard io id epoch r inv
  step-AllWellFormed r _ (publishes id envelope) inv =
      publish_workspace_ticket-AllWellFormed env.postcard io id envelope r inv
  step-AllWellFormed r _ (takes id sender envelope) inv =
      taken-AllWellFormed id sender envelope r inv
  step-AllWellFormed r r' (attaches id kind payload) inv =
      keep env.postcard r r' (attached-sessions id kind payload r) inv
  step-AllWellFormed r r' (forgets id kind) inv =
      keep env.postcard r r' (forgotten-sessions id kind r) inv

  -- In a registry that operations make of one without sessions, every session is well formed.
  pub Reachable-AllWellFormed :
      (start r : Registry σ)
      → start.sessions ≡ []
      → Reachable start r
      → AllWellFormed env.postcard r
  Reachable-AllWellFormed start _ e initially =
      λ id s found. unfold Map.get in absurd (ground (arith, ap (Map.get id) (sym e) ∙ found))
  Reachable-AllWellFormed start r e (after {r = before} path step) =
      step-AllWellFormed before r step (Reachable-AllWellFormed start before e path)

  -- In a registry that operations make of one without sessions, the host of every session hosted
  -- here can write to it, whatever capability messages its log holds.
  pub Reachable-host_can_write :
      (start r : Registry σ) (id : SessionId) (s : Session)
      → start.sessions ≡ []
      → Reachable start r
      → Map.get id r.sessions ≡ some s
      → s.kind ≡ local
      → can_write s s.host ≡ true
  unfolding can_write
  Reachable-host_can_write start r id s e path found hosted =
      let w = Reachable-AllWellFormed start r e path id s found in
      let root : Map.get s.host s.caps ≡ some read_write =
        ap (Map.get s.host) (w.projected hosted)
        ∙ get-project_caps_host env.postcard s.host s.log in
      unfold permits_write in ground arith
