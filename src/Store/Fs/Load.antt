-- ===== src/Store/Fs/Load.antt =====
-- crates/artel-daemon/src/store/fs.rs: `load_one` and `load_all`, which run at the daemon's start.
use artel.Common.{max, Bool, none, some, List, [], ◌∷◌, if◌then◌else◌, ◌==◌}
use artel.Common.Map.{Map}
use artel.Protocol.Ids.{SessionId, Seq}
use artel.Protocol.Message.{SessionMessage}
use artel.Protocol.Signing.{Ed25519}
use artel.Protocol.Ticket.{TicketEntry}
use artel.Session.{SessionRecord}
use artel.Store.{invalid_data, Io, done, failed}
use artel.Store.Fs.{
  Meta, current_version, Formats, SessionDir, Place, Step, ◌>>=◌, ◌>>◌, pure, fail, change,
  with_dir, Disk, at_session,
}
use artel.Store.Fs.Files.{read_meta, read_tickets, read_workspace_ticket}
use artel.Store.Fs.Log.{read_log}

-- `log.iter().map(|m| m.seq).max().unwrap_or(Seq::ZERO)`
unfoldable pub log_tail : List SessionMessage → Seq
log_tail [] = 0
log_tail (m ∷ log) = max m.seq (log_tail log)

-- `rename(tickets.json, tickets.json.corrupt)`
unfoldable pub quarantine : Step (Unit {0})
unfolding with_dir change
quarantine = with_dir λ dir. change λ p. record p {
  dir = some (record dir { quarantine_file = dir.tickets_file; tickets_file = none });
}

-- A ledger that cannot be parsed is put aside, and the session loads with an empty one.
unfoldable pub or_quarantine : Io (List TicketEntry) × Place → Io (List TicketEntry) × Place
unfolding quarantine
or_quarantine (failed invalid_data, p) = (quarantine >> pure []) p
or_quarantine x = x

module _ (e : Ed25519) (f : Formats) (verify : Bool) where
  -- What `load_one` reads behind the check of the version.
  unfoldable pub load_files : SessionId → Meta → Step SessionRecord
  unfolding read_log read_tickets read_workspace_ticket log_tail or_quarantine
  load_files id meta = do
    log ← read_log e f.message id verify
    tickets ← (λ p. or_quarantine (read_tickets f p))
    workspace_ticket ← read_workspace_ticket
    pure (record {
      id = id;
      host = meta.host;
      members = meta.members;
      head = max meta.head (log_tail log);
      log = log;
      kind = meta.kind;
      host_epoch = meta.host_epoch;
      tickets = tickets;
      workspace_ticket = workspace_ticket;
    })

  unfoldable pub load_one : SessionId → Step SessionRecord
  unfolding read_meta load_files
  load_one id = read_meta f >>= λ meta.
      if meta.version == current_version then load_files id meta else fail invalid_data

  -- The loop over the directories: one that fails to load is left out.
  unfoldable pub load_each : Map SessionDir → Disk → List SessionRecord × Disk
  unfolding load_one at_session
  load_each [] d = ([], d)
  load_each ((id, dir) ∷ rest) d =
      let (r, d1) = at_session id (load_one id) d in
      let (out, d2) = load_each rest d1 in (elim r [ done rec ↦ rec ∷ out | failed _ ↦ out ], d2)

  unfoldable pub load_all : Disk → Io (List SessionRecord) × Disk
  unfolding load_each
  load_all d = let (out, d1) = load_each d.sessions d in (done out, d1)
