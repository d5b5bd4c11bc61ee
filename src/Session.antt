-- ===== src/Session.antt =====
-- crates/artel-daemon/src/session.rs (`Session`) and store/record.rs: one session as the daemon
-- holds it, the record of it that is stored, and the projection of its log to capabilities.
-- The event channel and the delivery lanes are runtime only, and no part of the state here.
pub mod Order
pub mod Caps
pub mod WellFormed
use artel.Common.{
  ℕ, ◌-◌, ◌^◌, Bool, true, false, not, Option, none, some, List, [], ◌∷◌, ◌++◌, if◌then◌else◌, ◌==◌,
  leb, any, ◌&&◌, length, min, u64_mod,
}
use artel.Common.Map
use artel.Common.Map.{Map}
use artel.Protocol.Bytes.{Bytes}
use artel.Protocol.Ids.{SessionId, TicketId, PeerId, Seq}
use artel.Protocol.Capability.{
  Capability, read, read_write, permits_write, capability_eq, CapabilityAction, grant, revoke,
}
use artel.Protocol.Message.{PeerInfo, SigBytes, SessionMessage, is_capability}
use artel.Protocol.Ticket.{TicketEntry, is_active}

-- What the code calls of postcard: the encoding of a capability action and of the payloads of the
-- direct streams, and the size of a message.
pub record Postcard : Type 0 where
  pub encode_action : CapabilityAction → Bytes
  pub decode_action : Bytes → Option CapabilityAction
  pub serialized_size : SessionMessage → ℕ
  pub encode_upgrade : PeerId → Bytes → Bytes
  pub encode_downgrade : PeerId → Bytes
  pub encode_rotate : PeerId → ℕ → Bytes → Bytes

pub data SessionKind : Type 0 where
  local remote : SessionKind

unfoldable pub is_local : SessionKind → Bool
is_local local = true
is_local remote = false

pub record SessionRecord : Type 0 where
  pub id : SessionId
  pub host : PeerId
  pub members : List PeerId
  pub head : Seq
  pub log : List SessionMessage
  pub kind : SessionKind
  pub host_epoch : ℕ
  pub tickets : List TicketEntry
  pub workspace_ticket : Option Bytes

pub record Session : Type 0 where
  pub id : SessionId
  pub host : PeerId
  pub kind : SessionKind
  pub members : List PeerId
  pub log : List SessionMessage
  pub head : Seq
  pub host_epoch : ℕ
  pub caps : Map Capability
  pub tickets : List TicketEntry
  pub workspace_ticket : Option Bytes

pub record SessionSummary : Type 0 where
  pub id : SessionId
  pub is_host : Bool
  pub peer_count : ℕ
  pub last_seq : Option Seq

-- The claim of a join announcement.
pub record CapClaim : Type 0 where
  pub ticket_id : TicketId
  pub granted_cap : Capability
  pub expiry_ms : ℕ
  pub host_epoch : ℕ
  pub cap_sig : SigBytes

abbrev pub host_root : PeerId → Map Capability
host_root host = (host, read_write) ∷ []

unfoldable pub new : SessionId → PeerInfo → SessionKind → Session
new id host kind = record {
  id = id;
  host = host.id;
  kind = kind;
  members = host.id ∷ [];
  log = [];
  head = 0;
  host_epoch = 0;
  caps = host_root host.id;
  tickets = [];
  workspace_ticket = none;
}

-- `Session::record`
unfoldable pub to_record : Session → SessionRecord
to_record s = record {
  id = s.id;
  host = s.host;
  members = s.members;
  head = s.head;
  log = s.log;
  kind = s.kind;
  host_epoch = s.host_epoch;
  tickets = s.tickets;
  workspace_ticket = s.workspace_ticket;
}

-- `if head == Seq::ZERO { None } else { Some(head) }`
unfoldable pub last_seq : Seq → Option Seq
last_seq head = if head == 0 then none else some head

unfoldable pub summary : PeerId → Session → SessionSummary
unfolding last_seq
summary daemon_peer_id s = record {
  id = s.id;
  is_host = s.host == daemon_peer_id;
  peer_count = min (length s.members) (2 ^ 32 - 1);
  last_seq = last_seq s.head;
}

unfoldable pub can_write : Session → PeerId → Bool
can_write s peer = elim (Map.get peer s.caps) [ none ↦ false | some c ↦ permits_write c ]

-- The test on one ledger entry.
unfoldable pub entry_admits : CapClaim → TicketEntry → Bool
entry_admits claim t =
    t.ticket_id == claim.ticket_id
    && is_active t.status
    && capability_eq t.granted_cap claim.granted_cap
    && t.expiry_ms == claim.expiry_ms

-- Only a session that this daemon hosts has a ledger to ask.
unfoldable pub ticket_admissible : Session → CapClaim → Bool
ticket_admissible s claim = if is_local s.kind then any (entry_admits claim) s.tickets else true

-- An action that names the host is inert.
unfoldable pub project_action : PeerId → CapabilityAction → Map Capability → Map Capability
project_action host (grant peer cap) caps = if peer == host then caps else Map.insert peer cap caps
project_action host (revoke peer) caps = if peer == host then caps else Map.remove peer caps

-- `sort_by_key(|m| m.seq)`, which is stable.
unfoldable pub insert_by_seq : SessionMessage → List SessionMessage → List SessionMessage
insert_by_seq m [] = m ∷ []
insert_by_seq m (x ∷ xs) = if leb m.seq x.seq then m ∷ x ∷ xs else x ∷ insert_by_seq m xs

unfoldable pub sort_by_seq : List SessionMessage → List SessionMessage
unfolding insert_by_seq
sort_by_seq [] = []
sort_by_seq (m ∷ ms) = insert_by_seq m (sort_by_seq ms)

module _ (postcard : Postcard) where
  -- Only the host grants and revokes, and a payload that does not decode is inert.
  unfoldable pub apply_capability_to : Map Capability → PeerId → SessionMessage → Map Capability
  apply_capability_to caps host msg =
      if msg.peer.id == host
      then elim (postcard.decode_action msg.payload) [
        | none ↦ caps
        | some action ↦ project_action host action caps
      ]
      else caps

  -- The body of the loop over the log.
  unfoldable pub project_message : PeerId → Map Capability → SessionMessage → Map Capability
  project_message host caps msg =
      if is_capability msg.kind then apply_capability_to caps host msg else caps

  unfoldable pub project_all : PeerId → Map Capability → List SessionMessage → Map Capability
  project_all host caps [] = caps
  project_all host caps (m ∷ ms) = project_all host (project_message host caps m) ms

  unfoldable pub project_caps : PeerId → List SessionMessage → Map Capability
  project_caps host log = project_all host (host_root host) (sort_by_seq log)

  unfoldable pub apply_capability : Session → SessionMessage → Session
  apply_capability s msg = record s { caps = apply_capability_to s.caps s.host msg }

  -- The part of `Registry::send` that commits a message whose number is the head's successor.
  unfoldable pub append_message : Session → SessionMessage → Session
  unfolding apply_capability
  append_message s m =
      let appended : Session = record s { head = m.seq; log = s.log ++ m ∷ [] } in
      if is_capability m.kind then apply_capability appended m else appended

  unfoldable pub from_record : SessionRecord → Session
  from_record r = record {
    id = r.id;
    host = r.host;
    kind = r.kind;
    members = r.members;
    log = r.log;
    head = r.head;
    host_epoch = r.host_epoch;
    caps = project_caps r.host r.log;
    tickets = r.tickets;
    workspace_ticket = r.workspace_ticket;
  }
