-- ===== src/Store/Memory.antt =====
-- crates/artel-daemon/src/store/memory.rs: the in-memory storage against which the disk is checked.
pub mod Floors
use artel.Common.{
  ℕ, ◌+◌, ◌-◌, ◌%◌, Bool, true, false, not, Option, none, some, List, [], ◌∷◌, ◌++◌, if◌then◌else◌,
  ltb, max, u64_mod, length, ◌*◌,
}
use artel.Common.Map
use artel.Common.Map.{Map}
use artel.Common.Set
use artel.Protocol.Bytes.{Bytes, bytes_eq}
use artel.Protocol.Ids.{SessionId, PeerId}
use artel.Protocol.Message.{PeerInfo, SessionMessage}
use artel.Protocol.Ticket.{TicketEntry}
use artel.Session.{SessionRecord}
use artel.Store.{IoError, not_found, invalid_data, Io, done, failed, StoredAttachment, SessionStore}

-- Attachments by their kind.
pub record SessionEntry : Type 0 where
  pub session : SessionRecord
  pub attachments : List (Bytes × Bytes)

pub record MemoryStore : Type 0 where
  pub inner : Map SessionEntry
  pub epoch_floors : Map ℕ

abbrev pub empty : MemoryStore
empty = record { inner = []; epoch_floors = [] }

-- `WORKSPACE_TICKET_ENVELOPE_MAX` of crates/artel-protocol/src/upgrade.rs.
abbrev pub workspace_ticket_envelope_max : ℕ
workspace_ticket_envelope_max = 64 * 1024 - 64

unfoldable pub floor_of : SessionId → MemoryStore → ℕ
floor_of session m = elim (Map.get session m.epoch_floors) [ none ↦ 0 | some f ↦ f ]

-- Monotonic: a lower value changes nothing.
unfoldable pub raise_epoch_floor : SessionId → ℕ → MemoryStore → MemoryStore
raise_epoch_floor session raise_to m = record m {
  epoch_floors = Map.insert session (max (floor_of session m) raise_to) m.epoch_floors;
}

unfoldable pub create : SessionRecord → MemoryStore → Io (Unit {0}) × MemoryStore
create r m =
    let raised = raise_epoch_floor r.id ((r.host_epoch + 1) % u64_mod) m in
    let entry : SessionEntry = record { session = r; attachments = [] } in
    (done tt, record raised { inner = Map.insert r.id entry raised.inner })

-- `get_mut(&session).ok_or(NotFound)`, then a change of the stored record.
unfoldable pub update_record :
    SessionId → (SessionRecord → SessionRecord) → MemoryStore → Io (Unit {0}) × MemoryStore
update_record session change m = elim (Map.get session m.inner) [
  | none ↦ (failed not_found, m)
  | some entry ↦
      let changed : SessionEntry = record entry { session = change entry.session } in
      (done tt, record m { inner = Map.insert session changed m.inner })
]

unfoldable pub append : SessionId → SessionMessage → MemoryStore → Io (Unit {0}) × MemoryStore
append session message =
    update_record session
      (λ r. record r { head = max r.head message.seq; log = r.log ++ message ∷ [] })

unfoldable pub bump_host_epoch : SessionId → ℕ → MemoryStore → Io (Unit {0}) × MemoryStore
bump_host_epoch session epoch m =
    let raised = raise_epoch_floor session ((epoch + 1) % u64_mod) m in
    (done tt, (update_record session (λ r. record r { host_epoch = epoch }) raised).1)

unfoldable pub epoch_floor : SessionId → MemoryStore → Io ℕ × MemoryStore
epoch_floor session m = (done (floor_of session m), m)

unfoldable pub put_tickets :
    SessionId → List TicketEntry → MemoryStore → Io (Unit {0}) × MemoryStore
put_tickets session tickets = update_record session (λ r. record r { tickets = tickets })

unfoldable pub put_workspace_ticket : SessionId → Bytes → MemoryStore → Io (Unit {0}) × MemoryStore
put_workspace_ticket session envelope m =
    if ltb workspace_ticket_envelope_max (length envelope)
    then (failed invalid_data, m)
    else update_record session (λ r. record r { workspace_ticket = some envelope }) m

unfoldable pub add_member : SessionId → PeerInfo → MemoryStore → Io (Unit {0}) × MemoryStore
add_member session peer =
    update_record session (λ r. record r { members = Set.insert peer.id r.members })

unfoldable pub remove_member : SessionId → PeerId → MemoryStore → Io (Unit {0}) × MemoryStore
remove_member session peer =
    update_record session (λ r. record r { members = Set.remove peer r.members })

unfoldable pub delete : SessionId → MemoryStore → Io (Unit {0}) × MemoryStore
delete session m = (done tt, record m { inner = Map.remove session m.inner })

unfoldable pub records : Map SessionEntry → List SessionRecord
records [] = []
records ((id, entry) ∷ rest) = entry.session ∷ records rest

unfoldable pub load_all : MemoryStore → Io (List SessionRecord) × MemoryStore
load_all m = (done (records m.inner), m)

-- The attachments of one session, as a `HashMap` by kind.
unfoldable pub put_kind : Bytes → Bytes → List (Bytes × Bytes) → List (Bytes × Bytes)
put_kind kind payload [] = (kind, payload) ∷ []
put_kind kind payload ((k, p) ∷ rest) =
    if bytes_eq k kind then (kind, payload) ∷ rest else (k, p) ∷ put_kind kind payload rest

unfoldable pub drop_kind : Bytes → List (Bytes × Bytes) → List (Bytes × Bytes)
drop_kind kind [] = []
drop_kind kind ((k, p) ∷ rest) =
    let others = drop_kind kind rest in if bytes_eq k kind then others else (k, p) ∷ others

unfoldable pub put_attachment : SessionId → Bytes → Bytes → MemoryStore → Io Bool × MemoryStore
put_attachment session kind payload m = elim (Map.get session m.inner) [
  | none ↦ (done false, m)
  | some entry ↦
      let changed : SessionEntry = record entry {
        attachments = put_kind kind payload entry.attachments;
      } in
      (done true, record m { inner = Map.insert session changed m.inner })
]

-- `kind_filter.is_some_and(|f| f != kind)` skips an entry.
unfoldable pub wanted : Option Bytes → Bytes → Bool
wanted none kind = true
wanted (some f) kind = bytes_eq f kind

unfoldable pub of_kind : Option Bytes → SessionId → List (Bytes × Bytes) → List StoredAttachment
of_kind filter session [] = []
of_kind filter session ((kind, payload) ∷ rest) =
    let others = of_kind filter session rest in
    if wanted filter kind
    then record { session = session; kind = kind; payload = payload } ∷ others
    else others

unfoldable pub all_of_kind : Option Bytes → Map SessionEntry → List StoredAttachment
all_of_kind filter [] = []
all_of_kind filter ((session, entry) ∷ rest) =
    of_kind filter session entry.attachments ++ all_of_kind filter rest

unfoldable pub list_attachments :
    Option Bytes → MemoryStore → Io (List StoredAttachment) × MemoryStore
list_attachments filter m = (done (all_of_kind filter m.inner), m)

unfoldable pub delete_attachment : SessionId → Bytes → MemoryStore → Io (Unit {0}) × MemoryStore
delete_attachment session kind m = elim (Map.get session m.inner) [
  | none ↦ (done tt, m)
  | some entry ↦
      let changed : SessionEntry = record entry {
        attachments = drop_kind kind entry.attachments;
      } in
      (done tt, record m { inner = Map.insert session changed m.inner })
]

abbrev pub memory_store : SessionStore MemoryStore
memory_store = record {
  create = create;
  append = append;
  bump_host_epoch = bump_host_epoch;
  epoch_floor = epoch_floor;
  put_tickets = put_tickets;
  put_workspace_ticket = put_workspace_ticket;
  add_member = add_member;
  remove_member = remove_member;
  delete = delete;
  load_all = load_all;
  put_attachment = put_attachment;
  list_attachments = list_attachments;
  delete_attachment = delete_attachment;
}
