-- ===== src/Store/Fs/Files.antt =====
-- crates/artel-daemon/src/store/fs.rs: the small files beside the log, each of which is replaced as
-- a whole.
use artel.Common.{ℕ, Option, none, some, List, [], if◌then◌else◌, ltb, length, ◌==◌}
use artel.Protocol.Bytes.{Bytes}
use artel.Protocol.Ticket.{TicketEntry}
use artel.Session.{SessionRecord}
use artel.Store.{invalid_data, done}
use artel.Store.Memory.{workspace_ticket_envelope_max}
use artel.Store.Fs.{
  Meta, current_version, Formats, SessionDir, Step, ◌>>=◌, ◌>>◌, pure, fail, change, with_dir,
  write_atomic, encoded, decoded,
}

unfoldable pub from_record : SessionRecord → Meta
from_record r = record {
  version = current_version;
  host = r.host;
  members = r.members;
  head = r.head;
  kind = r.kind;
  host_epoch = r.host_epoch;
}

unfoldable pub put_meta : Bytes → SessionDir → SessionDir
put_meta bytes dir = record dir { meta_file = some bytes }

unfoldable pub put_ledger : Bytes → SessionDir → SessionDir
put_ledger bytes dir = record dir { tickets_file = some bytes }

unfoldable pub put_envelope : Bytes → SessionDir → SessionDir
put_envelope bytes dir = record dir { workspace_file = some bytes }

unfoldable pub write_workspace_ticket : Bytes → Step (Unit {0})
unfolding write_atomic put_envelope
write_workspace_ticket envelope =
    if ltb workspace_ticket_envelope_max (length envelope)
    then fail invalid_data
    else write_atomic put_envelope envelope

unfoldable pub read_workspace_ticket : Step (Option Bytes)
unfolding with_dir
read_workspace_ticket = with_dir λ dir. elim dir.workspace_file [
  | none ↦ pure none
  | some bytes ↦
      if ltb workspace_ticket_envelope_max (length bytes)
      then fail invalid_data
      else pure (some bytes)
]

module _ (f : Formats) where
  unfoldable pub read_meta : Step Meta
  unfolding with_dir decoded
  read_meta = with_dir λ dir. decoded f.meta dir.meta_file

  unfoldable pub write_meta : Meta → Step (Unit {0})
  unfolding encoded write_atomic put_meta
  write_meta meta = encoded f.meta meta >>= write_atomic put_meta

  unfoldable pub write_tickets : List TicketEntry → Step (Unit {0})
  unfolding encoded write_atomic put_ledger
  write_tickets tickets =
      encoded f.tickets (record { version = 1; entries = tickets }) >>= write_atomic put_ledger

  -- A missing file is an empty ledger.
  unfoldable pub read_tickets : Step (List TicketEntry)
  unfolding with_dir decoded
  read_tickets = with_dir λ dir. elim dir.tickets_file [
    | none ↦ pure []
    | some bytes ↦ decoded f.tickets (some bytes) >>= λ doc.
        if doc.version == 1 then pure doc.entries else fail invalid_data
  ]

  -- The floor that a file holds.
  unfoldable pub read_floor : Step ℕ
  unfolding decoded
  read_floor p = elim p.floor_file [
    | none ↦ (done 0, p)
    | some bytes ↦
        (decoded f.epoch_floor (some bytes) >>= λ doc.
        if doc.version == 1 then pure doc.floor else fail invalid_data)
          p
  ]

  unfoldable pub raise_floor : ℕ → ℕ → Step ℕ
  unfolding encoded change
  raise_floor raise_to current =
      if ltb current raise_to
      then encoded f.epoch_floor (record { version = 1; floor = raise_to })
        >>= (λ bytes. change (λ p. record p { floor_file = some bytes }) >> pure current)
      else pure current

  -- The floor before the call, which writes only a greater one.
  unfoldable pub read_and_raise_epoch_floor : ℕ → Step ℕ
  unfolding read_floor raise_floor
  read_and_raise_epoch_floor raise_to = read_floor >>= raise_floor raise_to
