-- ===== src/Registry/Tickets.antt =====
-- crates/artel-daemon/src/session.rs: `mint_ticket`, `ledger_entry`, `issue_ticket`,
-- `revoke_ticket` and `list_tickets`. A fresh random id and the clock are arguments.
use artel.Common.{ℕ, Option, none, some, List, [], ◌∷◌, ◌++◌, ok, err, if◌then◌else◌, ◌==◌}
use artel.Protocol.Bytes.{Bytes}
use artel.Protocol.Ids.{SessionId, TicketId}
use artel.Protocol.Capability.{Capability}
use artel.Protocol.Message.{signature_unsigned}
use artel.Protocol.Signing.{sign_ticket_cap}
use artel.Protocol.Ticket.{TicketEntry, TicketStatus, active, revoked, SessionTicket, encode}
use artel.Session.{Session}
use artel.Store.{SessionStore}
use artel.Registry.State.{Env, Registry, Reply, unknown_ticket, with_local, stored, put_session}

unfoldable pub ledger_entry : TicketId → Capability → ℕ → ℕ → TicketEntry
ledger_entry ticket_id granted_cap expiry_ms now = record {
  ticket_id = ticket_id;
  granted_cap = granted_cap;
  expiry_ms = expiry_ms;
  issued_at_ms = now;
  status = active;
  used_by = [];
}

-- `iter().position(|t| t.ticket_id == id)`, giving the status found there.
unfoldable pub find_status : TicketId → List TicketEntry → Option TicketStatus
find_status id [] = none
find_status id (t ∷ ts) = if t.ticket_id == id then some t.status else find_status id ts

-- `tickets[idx].status = Revoked` at the first entry with that id.
unfoldable pub set_revoked : TicketId → List TicketEntry → List TicketEntry
set_revoked id [] = []
set_revoked id (t ∷ ts) =
    if t.ticket_id == id then record t { status = revoked } ∷ ts else t ∷ set_revoked id ts

module _ (env : Env) {σ : Type 0} where
  -- The bearer ticket, before it is written as text.
  unfoldable pub mint : Registry σ → TicketId → SessionId → Capability → ℕ → ℕ → SessionTicket
  mint r tid session_id granted_cap expiry_ms host_epoch = record {
    ticket_id = tid;
    session_id = session_id;
    host_addr = r.daemon_addr;
    granted_cap = granted_cap;
    expiry_ms = expiry_ms;
    host_epoch = host_epoch;
    cap_sig = elim r.signing_key [
      | none ↦ signature_unsigned
      | some key ↦ sign_ticket_cap env.ed25519 key tid session_id granted_cap expiry_ms host_epoch
    ];
  }

  unfoldable pub mint_ticket : Registry σ → TicketId → SessionId → Capability → ℕ → ℕ → Bytes
  mint_ticket r tid session_id granted_cap expiry_ms host_epoch =
      encode env.tickets (mint r tid session_id granted_cap expiry_ms host_epoch)

module _ {σ : Type 0} (io : SessionStore σ) where
  -- The ledger is stored, and then changed in memory.
  unfoldable pub put_ledger :
      {A : Type 0} → SessionId → Session → List TicketEntry → A → Registry σ → Reply σ A
  put_ledger session s tickets answer r =
      stored (io.put_tickets session tickets r.store) r
        λ _ r'. (ok answer, put_session session (record s { tickets = tickets }) r')

  unfoldable pub revoke_ticket : SessionId → TicketId → Registry σ → Reply σ (Unit {0})
  revoke_ticket session ticket_id r = with_local session r λ s.
      elim (find_status ticket_id s.tickets) [
        | none ↦ (err (unknown_ticket ticket_id), r)
        | some revoked ↦ (ok tt, r)
        | some active ↦ put_ledger session s (set_revoked ticket_id s.tickets) tt r
      ]

module _ (env : Env) {σ : Type 0} (io : SessionStore σ) where
  unfoldable pub issue_ticket :
      SessionId → Capability → ℕ → TicketId → ℕ → Registry σ → Reply σ (Bytes × TicketId)
  issue_ticket session granted_cap expiry_ms tid now r = with_local session r λ s.
      put_ledger io session s (s.tickets ++ ledger_entry tid granted_cap expiry_ms now ∷ [])
        (mint_ticket env r tid session granted_cap expiry_ms s.host_epoch, tid) r

module _ {σ : Type 0} where
  unfoldable pub list_tickets : SessionId → Registry σ → Reply σ (List TicketEntry)
  list_tickets session r = with_local session r λ s. (ok s.tickets, r)
