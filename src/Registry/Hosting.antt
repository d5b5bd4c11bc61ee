-- ===== src/Registry/Hosting.antt =====
-- crates/artel-daemon/src/session.rs (`host`): the outcomes of hosting an id.
pub mod Again
use artel.Common.{
  ℕ, suc, ◌+◌, ◌≡◌, sym, ap, ◌∙◌, subst, ◌⊎◌, Bool, true, false, Option, none, some, List, [], ◌∷◌,
  ◌++◌, arith, Result, ok, err, if◌then◌else◌, ◌==◌, ◌&&◌, Result-cases, is_ok, leb, Bool-cases,
  not, ◌||◌,
}
use artel.Common.Map
use artel.Common.Map.{get-insert, get-remove}
use artel.Common.Set
use artel.Protocol.Bytes.{Bytes}
use artel.Protocol.Ids.{Seq, SessionId, TicketId, PeerId}
use artel.Protocol.Capability.{Capability, read_write, permits_write}
use artel.Protocol.Message.{PeerInfo, MessageKind, SessionMessage}
use artel.Protocol.Signing.{verify_message, verify_seq}
use artel.Session.{
  can_write, Postcard, Session, SessionKind, local, remote, is_local, append_message, new, CapClaim,
}
use artel.Session.WellFormed.{
  WellFormed, append_message-WellFormed, new-WellFormed, WellFormed-ledger, WellFormed-epoch,
  WellFormed-part, WellFormed-join, WellFormed-envelope,
}
use artel.Store.{Io-cases, SessionStore, Io, done, failed}
use artel.Registry.State.{
  Env, Registry, Reply, Event, Request, session_closed, BridgeError, put_session, emit, request,
  ask, with_store, with_session, with_local, stored,
}
use artel.Registry.Rules.{
  stored-keeps, if-keeps, and_then-keeps, lookup-keeps, result-keeps, with_session-keeps,
  with_local-keeps,
}
use artel.Protocol.Ticket.{TicketEntry, TicketStatus, active, revoked}
use artel.Registry.Join.{
  fresh_mirror, claim_remote_mirror, rollback_remote_mirror, subscribe_mirror, enrol,
  host_closed_session, advance_host_epoch_watermark, materialise_remote_session, locate, join,
  bearer_check,
}
use artel.Registry.Deliver.{
  emit_workspace_ticket, publish_workspace_ticket, deliver_all, emit_live,
  lock_remote_session_from_host, holds_ticket,
}
use artel.Protocol.Ticket.{TicketEntry, SessionTicket, host_peer_id, decode}
use artel.Session.Caps.{get-project_caps_host}
use artel.Session.Order.{Consecutive}
use artel.Registry.Attachments.{registered, register_attachment, forget_attachment}
use artel.Registry.Tickets.{find_status, set_revoked, put_ledger, revoke_ticket, issue_ticket}
use artel.Registry.Send.{Authoring, send}
use artel.Registry.Send.Accepted.{send-ok, send-refused}
use artel.Registry.Host.{resume, created, create, host_pass, try_create, host, Hosted, or_retry}
use artel.Registry.Members.{
  is_member, check_claim?, admissible?, claimed_cap, note_use, admit, record_use,
  deliver_workspace_ticket_to, auto_grant_on_join, after_admission, ensure_member, drop_member,
  remove_member, close, leave,
}
use artel.Registry.Mirror.{
  mirror_insert, partition_point, has_seq_at, authentic, accept_inbound, apply_inbound,
}
use artel.Registry.Mirror.Order.{mirror_insert-WellFormed}
use artel.Registry.Subscribe.{
  is_none, synthetic_ticket_message, shown_to_clients, shown_to_peers, replay, subscribe, log_since,
  cutoff_of, ticket_prelude,
}
use artel.Registry.State.{
  unknown_session, not_member, storage, not_host, session_conflict, capability_denied,
  ticket_expired, ticket_not_admissible, peer_left, peer_joined, SessionError, message,
}
use artel.Registry.Host.{saturating_suc, Hosted, or_retry}
use artel.Registry.Tickets.{set_revoked, ledger_entry}
use artel.Session.{ticket_admissible, entry_admits, apply_capability_to, project_action}
use artel.Protocol.Capability.{CapabilityAction, grant, revoke}
use artel.Protocol.Message.{is_capability, capability, SessionMessage}
use artel.Protocol.Ticket.{is_active, TicketStatus, active, revoked}
use artel.Registry.Send.{reserved, reserved_system_action}
use artel.Registry.Members.{is_member, check_claim}
use artel.Common.{◌≢◌, any, filter, ◌≤◌, ◌<◌, ◌-◌, u64_mod, ltb, get_elem?, insert_at}
use artel.Registry.Mirror.{
  mirror_insert, partition_point, has_seq_at, authentic, accept_inbound, apply_inbound, verified,
}
use artel.Registry.Mirror.Order.{mirror_insert_comm}

module _ (env : Env) {σ : Type 0} (io : SessionStore σ) where
  -- Hosting a named id whose session has another host, or is a mirror, is a conflict, and changes
  -- nothing.
  pub host-conflict :
      (peer : PeerInfo) (id : SessionId) (granted_cap : Capability) (expiry_ms : ℕ)
      (fresh : SessionId) (tid : TicketId) (rest : List (SessionId × TicketId)) (now : ℕ)
      (r : Registry σ) (s : Session)
      → Map.get id r.sessions ≡ some s
      → (s.host == peer.id && is_local s.kind) ≡ false
      → host env io peer (some id) granted_cap expiry_ms ((fresh, tid) ∷ rest) now r
        ≡ (err (session_conflict id), r)
  unfolding host host_pass resume
  host-conflict peer id granted_cap expiry_ms fresh tid rest now r s found other = ground arith

  -- Hosting the id of a session that is here, if it is accepted, keeps the session: its epoch goes
  -- up by one, up to the greatest u64, its ledger gains the new ticket, and the rest of it is as
  -- it was.
  pub host-resumes :
      (peer : PeerInfo) (id : SessionId) (granted_cap : Capability) (expiry_ms : ℕ)
      (fresh : SessionId) (tid : TicketId) (rest : List (SessionId × TicketId)) (now : ℕ)
      (r : Registry σ) (s : Session)
      → Map.get id r.sessions ≡ some s
      → is_ok (host env io peer (some id) granted_cap expiry_ms ((fresh, tid) ∷ rest) now r).0
        ≡ true
      → Map.get id
          (host env io peer (some id) granted_cap expiry_ms ((fresh, tid) ∷ rest) now r).1.sessions
        ≡ some (record s {
          host_epoch = saturating_suc s.host_epoch;
          tickets = s.tickets ++ ledger_entry tid granted_cap expiry_ms now ∷ [];
        })
  unfolding host host_pass resume put_session request with_store
  host-resumes peer id granted_cap expiry_ms fresh tid rest now r s found done_ =
      let kept : Session = record s {
        host_epoch = saturating_suc s.host_epoch;
        tickets = s.tickets ++ ledger_entry tid granted_cap expiry_ms now ∷ [];
      } in
      ground (arith, Map.get-insert_self id kept r.sessions)

  -- Hosting a named id that is not taken, if it is accepted, makes a new session with the caller
  -- as its host, the floor that the storage gives for the id as its epoch, and the one new ticket
  -- in its ledger.
  pub host-creates :
      (peer : PeerInfo) (id : SessionId) (granted_cap : Capability) (expiry_ms : ℕ)
      (fresh : SessionId) (tid : TicketId) (rest : List (SessionId × TicketId)) (now floor : ℕ)
      (r : Registry σ)
      → Map.get id r.sessions ≡ none
      → (io.epoch_floor id r.store).0 ≡ done floor
      → is_ok (host env io peer (some id) granted_cap expiry_ms ((fresh, tid) ∷ rest) now r).0
        ≡ true
      → Map.get id
          (host env io peer (some id) granted_cap expiry_ms ((fresh, tid) ∷ rest) now r).1.sessions
        ≡ some (created id peer floor granted_cap expiry_ms tid now)
  unfolding host host_pass try_create create put_session request with_store
  host-creates peer id granted_cap expiry_ms fresh tid rest now floor r missing kept done_ =
      ground (
        arith,
        Map.get-insert_self id (created id peer floor granted_cap expiry_ms tid now) r.sessions,
      )

  -- Every drawn id is that of a session that is here.
  abbrev pub AllTaken : List (SessionId × TicketId) → Registry σ → Type 0
  AllTaken [] r = Unit {0}
  AllTaken ((id, _) ∷ draws) r = (Map.get id r.sessions ≢ none) × AllTaken draws r
