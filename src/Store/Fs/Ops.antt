-- ===== src/Store/Fs/Ops.antt =====
-- crates/artel-daemon/src/store/fs.rs: the `SessionStore` calls on one session, but those on its
-- attachments. Each runs on a blocking thread with the paths of the session.
use artel.Common.{ℕ, ◌+◌, ◌%◌, max, u64_mod, none, some, List, [], ◌∷◌, Option}
use artel.Common.Set
use artel.Protocol.Bytes.{Bytes}
use artel.Protocol.Ids.{PeerId}
use artel.Protocol.Message.{PeerInfo, SessionMessage}
use artel.Protocol.Ticket.{TicketEntry}
use artel.Session.{SessionRecord}
use artel.Store.{not_found, done, failed}
use artel.Store.Fs.{Meta, Formats, empty_dir, Step, ◌>>=◌, ◌>>◌, pure, change, with_dir}
use artel.Store.Fs.Files.{
  from_record, read_meta, write_meta, write_tickets, write_workspace_ticket,
  read_and_raise_epoch_floor,
}
use artel.Store.Fs.Log.{append_log, open_log}

-- `ensure_dir` of the session directory.
unfoldable pub ensure_dir : Step (Unit {0})
unfolding change
ensure_dir p = elim p.dir [
  | some _ ↦ (done tt, p)
  | none ↦ change (λ p. record p { dir = some empty_dir }) p
]

-- `remove_dir_all`; a missing directory is no error.
unfoldable pub delete : Step (Unit {0})
unfolding change
delete p = elim p.dir [ none ↦ (done tt, p) | some _ ↦ change (λ p. record p { dir = none }) p ]

unfoldable pub put_workspace_ticket : Bytes → Step (Unit {0})
unfolding with_dir write_workspace_ticket
put_workspace_ticket envelope = with_dir λ _. write_workspace_ticket envelope

module _ (f : Formats) where
  unfoldable pub write_ledger : List TicketEntry → Step (Unit {0})
  unfolding write_tickets
  write_ledger [] = pure tt
  write_ledger (t ∷ tickets) = write_tickets f (t ∷ tickets)

  unfoldable pub write_sidecar : Option Bytes → Step (Unit {0})
  unfolding write_workspace_ticket
  write_sidecar none = pure tt
  write_sidecar (some envelope) = write_workspace_ticket envelope

  unfoldable pub append_all : List SessionMessage → Step (Unit {0})
  unfolding append_log
  append_all [] = pure tt
  append_all (m ∷ log) = append_log f.message m >> append_all log

  -- The floor is raised in front of the meta file, and a log that is there is kept.
  unfoldable pub create : SessionRecord → Step (Unit {0})
  unfolding ensure_dir read_and_raise_epoch_floor open_log write_meta from_record write_ledger
      write_sidecar append_all
  create r = do
    ensure_dir
    _ ← read_and_raise_epoch_floor f ((r.host_epoch + 1) % u64_mod)
    open_log
    write_meta f (from_record r)
    write_ledger r.tickets
    write_sidecar r.workspace_ticket
    append_all r.log

  -- `read_meta`, a change, `write_meta`.
  unfoldable pub update_meta : (Meta → Meta) → Step (Unit {0})
  unfolding read_meta write_meta
  update_meta g = read_meta f >>= λ meta. write_meta f (g meta)

  unfoldable pub append : SessionMessage → Step (Unit {0})
  unfolding append_log update_meta
  append message =
      append_log f.message message
      >> update_meta λ meta. record meta { head = max meta.head message.seq }

  -- A session without a meta file is unknown to the storage, and nothing happens.
  unfoldable pub bump_host_epoch : ℕ → Step (Unit {0})
  unfolding read_meta read_and_raise_epoch_floor write_meta
  bump_host_epoch epoch p =
      let (r, p1) = read_meta f p in
      elim r [
        | failed not_found ↦ (done tt, p1)
        | failed err ↦ (failed err, p1)
        | done meta ↦
            (read_and_raise_epoch_floor f ((epoch + 1) % u64_mod) >>= λ _.
            write_meta f (record meta { host_epoch = epoch }))
              p1
      ]

  unfoldable pub epoch_floor : Step ℕ
  unfolding read_and_raise_epoch_floor
  epoch_floor = read_and_raise_epoch_floor f 0

  unfoldable pub put_tickets : List TicketEntry → Step (Unit {0})
  unfolding with_dir write_tickets
  put_tickets tickets = with_dir λ _. write_tickets f tickets

  unfoldable pub add_member : PeerInfo → Step (Unit {0})
  unfolding update_meta
  add_member peer = update_meta λ meta. record meta { members = Set.insert peer.id meta.members }

  unfoldable pub remove_member : PeerId → Step (Unit {0})
  unfolding update_meta
  remove_member peer = update_meta λ meta. record meta { members = Set.remove peer meta.members }
