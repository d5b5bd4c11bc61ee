-- ===== src/Registry/Atomic.antt =====
-- crates/artel-daemon/src/session.rs: an operation that fails, for instance because the storage
-- does, leaves the sessions in memory as they were.
use artel.Common.{ℕ, ◌≡◌, false, arith, is_ok}
use artel.Protocol.Bytes.{Bytes}
use artel.Protocol.Ids.{SessionId, TicketId, PeerId}
use artel.Protocol.Capability.{Capability}
use artel.Protocol.Message.{PeerInfo}
use artel.Session.{Session}
use artel.Store.{SessionStore}
use artel.Registry.State.{Env, Registry, with_store}
use artel.Registry.Join.{host_closed_session, advance_host_epoch_watermark}
use artel.Registry.Deliver.{emit_workspace_ticket, lock_remote_session_from_host}
use artel.Registry.Tickets.{put_ledger, revoke_ticket, issue_ticket}
use artel.Registry.Host.{resume, create}
use artel.Registry.Members.{drop_member, remove_member, close, leave}

module _ {σ : Type 0} (io : SessionStore σ) where
  leave-err :
      (id : SessionId) (peer : PeerId) (r : Registry σ)
      → is_ok (leave io id peer r).0 ≡ false
      → (leave io id peer r).1.sessions ≡ r.sessions
  unfolding leave close drop_member with_store
  leave-err id peer r h = ground arith

  remove_member-err :
      (id : SessionId) (peer : PeerId) (r : Registry σ)
      → is_ok (remove_member io id peer r).0 ≡ false
      → (remove_member io id peer r).1.sessions ≡ r.sessions
  unfolding remove_member drop_member with_store
  remove_member-err id peer r h = ground arith

  revoke_ticket-err :
      (id : SessionId) (tid : TicketId) (r : Registry σ)
      → is_ok (revoke_ticket io id tid r).0 ≡ false
      → (revoke_ticket io id tid r).1.sessions ≡ r.sessions
  unfolding revoke_ticket put_ledger with_store
  revoke_ticket-err id tid r h = ground arith

  emit_workspace_ticket-err :
      (id : SessionId) (sender : PeerId) (envelope : Bytes) (r : Registry σ)
      → is_ok (emit_workspace_ticket io id sender envelope r).0 ≡ false
      → (emit_workspace_ticket io id sender envelope r).1.sessions ≡ r.sessions
  unfolding emit_workspace_ticket lock_remote_session_from_host with_store
  emit_workspace_ticket-err id sender envelope r h = ground arith

  host_closed_session-err :
      (id : SessionId) (r : Registry σ)
      → is_ok (host_closed_session io id r).0 ≡ false
      → (host_closed_session io id r).1.sessions ≡ r.sessions
  unfolding host_closed_session with_store
  host_closed_session-err id r h = ground arith

  advance_host_epoch_watermark-err :
      (id : SessionId) (epoch : ℕ) (r : Registry σ)
      → is_ok (advance_host_epoch_watermark io id epoch r).0 ≡ false
      → (advance_host_epoch_watermark io id epoch r).1.sessions ≡ r.sessions
  unfolding advance_host_epoch_watermark with_store
  advance_host_epoch_watermark-err id epoch r h = ground arith

module _ (env : Env) {σ : Type 0} (io : SessionStore σ) where
  issue_ticket-err :
      (id : SessionId) (granted_cap : Capability) (expiry_ms : ℕ) (tid : TicketId) (now : ℕ)
      (r : Registry σ)
      → is_ok (issue_ticket env io id granted_cap expiry_ms tid now r).0 ≡ false
      → (issue_ticket env io id granted_cap expiry_ms tid now r).1.sessions ≡ r.sessions
  unfolding issue_ticket put_ledger with_store
  issue_ticket-err id granted_cap expiry_ms tid now r h = ground arith

  resume-err :
      (id : SessionId) (s : Session) (peer : PeerInfo) (granted_cap : Capability) (expiry_ms : ℕ)
      (tid : TicketId) (now : ℕ) (r : Registry σ)
      → is_ok (resume env io id s peer granted_cap expiry_ms tid now r).0 ≡ false
      → (resume env io id s peer granted_cap expiry_ms tid now r).1.sessions ≡ r.sessions
  unfolding resume with_store
  resume-err id s peer granted_cap expiry_ms tid now r h = ground arith

  create-err :
      (id : SessionId) (peer : PeerInfo) (granted_cap : Capability) (expiry_ms : ℕ) (tid : TicketId)
      (now : ℕ) (r : Registry σ)
      → is_ok (create env io id peer granted_cap expiry_ms tid now r).0 ≡ false
      → (create env io id peer granted_cap expiry_ms tid now r).1.sessions ≡ r.sessions
  unfolding create with_store
  create-err id peer granted_cap expiry_ms tid now r h = ground arith
