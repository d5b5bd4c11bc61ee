-- ===== src/Store/Fs/Whole.antt =====
-- crates/artel-daemon/src/store/fs.rs: the storage on disk behind the interface of the registry.
use artel.Common.{◌≡◌, refl, Bool, false, Option, none, some, arith, if◌then◌else◌, ◌==◌}
use artel.Common.Map
use artel.Common.Map.{Map, get-insert, get-remove}
use artel.Protocol.Bytes.{Bytes}
use artel.Protocol.Ids.{SessionId}
use artel.Protocol.Signing.{Ed25519}
use artel.Store.{done, SessionStore}
use artel.Store.Fs.{Formats, Step, Disk, place_of, put_entry, put_place, at_session}
use artel.Store.Fs.Attachments
use artel.Store.Fs.Attachments.{sweep_tmp_files}
use artel.Store.Fs.Load
use artel.Store.Fs.Ops

-- `FsLogStore::open`, on a disk that works.
unfoldable pub open_store : Disk → Disk
unfolding sweep_tmp_files
open_store d = record d { sessions = sweep_tmp_files d.sessions }

-- `pid` and `counter` make the unique names of files on their way.
unfoldable pub fs_store :
    Ed25519 → Formats → Bool → (Bytes → Bool) → Bytes → Bytes → SessionStore Disk
unfolding at_session Ops.create Ops.append Ops.bump_host_epoch Ops.epoch_floor Ops.put_tickets
    Ops.put_workspace_ticket Ops.add_member Ops.remove_member Ops.delete Load.load_all
    Attachments.put_attachment Attachments.list_attachments Attachments.delete_attachment
fs_store e f verify valid_utf8 pid counter = record {
  create = λ r. at_session r.id (Ops.create f r);
  append = λ id m. at_session id (Ops.append f m);
  bump_host_epoch = λ id epoch. at_session id (Ops.bump_host_epoch f epoch);
  epoch_floor = λ id. at_session id (Ops.epoch_floor f);
  put_tickets = λ id tickets. at_session id (Ops.put_tickets f tickets);
  put_workspace_ticket = λ id envelope. at_session id (Ops.put_workspace_ticket envelope);
  add_member = λ id peer. at_session id (Ops.add_member f peer);
  remove_member = λ id peer. at_session id (Ops.remove_member f peer);
  delete = λ id. at_session id Ops.delete;
  load_all = Load.load_all e f verify;
  put_attachment =
      λ id kind payload. at_session id (Attachments.put_attachment pid counter kind payload);
  list_attachments =
      λ filter d. (done (Attachments.list_attachments valid_utf8 filter d.sessions), d);
  delete_attachment = λ id kind. at_session id (Attachments.delete_attachment kind);
}

get-put_entry :
    {V : Type 0} (id j : SessionId) (o : Option V) (m : Map V)
    → Map.get j (put_entry id o m) ≡ (if id == j then o else Map.get j m)
unfolding put_entry
get-put_entry id j none m = get-remove id j m
get-put_entry id j (some v) m = get-insert id j v m

-- A call on one session reads and writes the files of that session alone.
pub at_session-other :
    {A : Type 0} (id j : SessionId) (m : Step A) (d : Disk)
    → (id == j) ≡ false
    → let (r, after) = at_session id m d in
      (r ≡ (m (place_of id d)).0)
      × ((place_of id after).dir ≡ (m (place_of id d)).1.dir)
      × ((place_of j after).dir ≡ (place_of j d).dir)
      × ((place_of j after).floor_file ≡ (place_of j d).floor_file)
unfolding at_session place_of put_place
at_session-other id j m d apart =
    let p = (m (place_of id d)).1 in
    (
      refl,
      ground (arith, get-put_entry id id p.dir d.sessions),
      ground (arith, get-put_entry id j p.dir d.sessions),
      ground (arith, get-put_entry id j p.floor_file d.epoch_floors),
    )
