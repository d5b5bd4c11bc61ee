-- ===== src/Store/Fs/Refines.antt =====
-- crates/artel-daemon/src/store/fs.rs against store/memory.rs: the two storages give the same
-- results, and hold the same record and epoch floor of a session.
use artel.Common.{
  ℕ, suc, ◌+◌, ◌-◌, ◌*◌, ◌%◌, ◌≤◌, max, ◌≡◌, refl, ap, ap₂, sym, ◌∙◌, subst, inl, inr, Bool, true,
  Option, some, List, [], ◌∷◌, ◌++◌, append-nil, arith, ltb, length, Bool-cases, u64_mod,
}
use artel.Common.Map
use artel.Protocol.Bytes.{Bytes}
use artel.Protocol.Ids.{SessionId, PeerId}
use artel.Protocol.Message.{PeerInfo, SessionMessage}
use artel.Protocol.Signing.{Ed25519}
use artel.Protocol.Ticket.{TicketEntry}
use artel.Session.{SessionRecord}
use artel.Store.{Io, done}
use artel.Store.Memory
use artel.Store.Memory.{
  MemoryStore, SessionEntry, floor_of, update_record, raise_epoch_floor,
  workspace_ticket_envelope_max,
}
use artel.Store.Fs.{
  max_frame_size, Meta, current_version, TicketsFile, Formats, FormatLaws, SessionDir, Place, Step,
  change, with_dir, write_atomic,
}
use artel.Store.Fs.Load.{load_one}
use artel.Store.Fs.Files.{write_workspace_ticket, put_envelope}
use artel.Store.Fs.Log.{passes, take}
use artel.Store.Fs.Log.Parts.{frame, frames, length-frame, place_with, take_all}
use artel.Store.Fs.Log.Writes.{with_log}
use artel.Store.Fs.Ops.{
  append, update_meta, bump_host_epoch, put_tickets, put_workspace_ticket, add_member,
  remove_member,
}
use artel.Store.Fs.Crash.{append-place, Rests-extend, frame_message-passes, record_of-append}
use artel.Store.Fs.Rest.{HoldsFloor, Rests, record_of, log_here, load_one_whole}
use artel.Store.Fs.Places.{
  update_meta-place, now_holds, write_tickets-place, raised_file-HoldsFloor, bump-place,
}

-- The calls that change a session that is there.
pub data StoreOp : Type 0 where
  append_op : SessionMessage → StoreOp
  bump_op : ℕ → StoreOp
  tickets_op : List TicketEntry → StoreOp
  envelope_op : Bytes → StoreOp
  add_op : PeerInfo → StoreOp
  remove_op : PeerId → StoreOp

-- A call on disk, and in memory.
unfoldable pub fs_op : Formats → StoreOp → Step (Unit {0})
unfolding append bump_host_epoch put_tickets put_workspace_ticket add_member remove_member
fs_op f (append_op m) = append f m
fs_op f (bump_op epoch) = bump_host_epoch f epoch
fs_op f (tickets_op tickets) = put_tickets f tickets
fs_op f (envelope_op envelope) = put_workspace_ticket envelope
fs_op f (add_op peer) = add_member f peer
fs_op f (remove_op peer) = remove_member f peer

unfoldable pub memory_op : SessionId → StoreOp → MemoryStore → Io (Unit {0}) × MemoryStore
unfolding Memory.append Memory.bump_host_epoch Memory.put_tickets Memory.put_workspace_ticket
    Memory.add_member Memory.remove_member
memory_op id (append_op m) = Memory.append id m
memory_op id (bump_op epoch) = Memory.bump_host_epoch id epoch
memory_op id (tickets_op tickets) = Memory.put_tickets id tickets
memory_op id (envelope_op envelope) = Memory.put_workspace_ticket id envelope
memory_op id (add_op peer) = Memory.add_member id peer
memory_op id (remove_op peer) = Memory.remove_member id peer

raised_floor_of :
    (id : SessionId) (k : ℕ) (mem : MemoryStore)
    → floor_of id (raise_epoch_floor id k mem) ≡ max (floor_of id mem) k
unfolding floor_of raise_epoch_floor
raised_floor_of id k mem =
    rw (floor_of, Map.get-insert_self id (max (floor_of id mem) k) mem.epoch_floors) refl

module _ (e : Ed25519) (f : Formats) (verify : Bool) (id : SessionId) where
  -- A message that `read_log` gives back: its frame is small enough, and its signature passes.
  abbrev pub IsFine : StoreOp → Type 0
  IsFine (append_op m) =
      (q : Bytes) × (f.message.encode m ≡ some q)
      × (length q ≤ max_frame_size)
      × (passes e id verify m ≡ true)
  IsFine _ = Unit {0}

  -- The files of a session hold what the memory holds of it.
  pub record Mirrors (p : Place) (mem : MemoryStore) : Type 0 where
    pub dir : SessionDir
    pub floor : Option Bytes
    pub left : ℕ
    pub meta : Meta
    pub payloads : List Bytes
    pub tickets : List TicketEntry
    pub envelope : Option Bytes
    pub entry : SessionEntry
    pub here : p ≡ place_with dir floor left
    pub rests : Rests f meta payloads tickets envelope [] dir
    pub found : Map.get id mem.inner ≡ some entry
    pub same : entry.session ≡ record_of e f verify id meta payloads tickets envelope
    pub floor_part : HoldsFloor f floor (floor_of id mem)

  abbrev Agrees : ℕ → Io (Unit {0}) × Place → Io (Unit {0}) × MemoryStore → Type 0
  Agrees n x y = (x.0 ≡ y.0) × Mirrors x.1 y.1 × (n ≤ x.1.left)

  -- A call that changes the record on both sides.
  updated-Agrees :
      (n : ℕ) (x : Io (Unit {0}) × Place) (mem : MemoryStore) (entry : SessionEntry)
      (update : SessionRecord → SessionRecord) (dir : SessionDir) (floor : Option Bytes) (left : ℕ)
      (meta : Meta) (payloads : List Bytes) (tickets : List TicketEntry) (envelope : Option Bytes)
      → x ≡ (done tt, place_with dir floor left)
      → n ≤ left
      → Rests f meta payloads tickets envelope [] dir
      → Map.get id mem.inner ≡ some entry
      → update entry.session ≡ record_of e f verify id meta payloads tickets envelope
      → HoldsFloor f floor (floor_of id mem)
      → Agrees n x (update_record id update mem)
  unfolding update_record floor_of
  updated-Agrees n x mem entry update dir floor left meta payloads tickets envelope is enough rests
        found same holds =
      let changed : SessionEntry = record entry { session = update entry.session } in
      rw (is, update_record, found)
        (
          refl,
          record {
            dir = dir;
            floor = floor;
            left = left;
            meta = meta;
            payloads = payloads;
            tickets = tickets;
            envelope = envelope;
            entry = changed;
            here = refl;
            rests = rests;
            found = Map.get-insert_self id changed mem.inner;
            same = same;
            floor_part = holds;
          },
          enough,
        )

  module _ (L : FormatLaws f) where
    -- A change of the meta file alone.
    meta-Agrees :
        (n : ℕ) (g : Meta → Meta) (update : SessionRecord → SessionRecord) (dir : SessionDir)
        (floor : Option Bytes) (left : ℕ) (meta : Meta) (payloads : List Bytes)
        (tickets : List TicketEntry) (envelope : Option Bytes) (mem : MemoryStore)
        (entry : SessionEntry)
        → n ≤ left
        → Rests f meta payloads tickets envelope [] dir
        → Map.get id mem.inner ≡ some entry
        → update entry.session ≡ record_of e f verify id (g meta) payloads tickets envelope
        → (g meta).version ≡ current_version
        → HoldsFloor f floor (floor_of id mem)
        → Agrees n (update_meta f g (place_with dir floor (suc left))) (update_record id update mem)
    meta-Agrees n g update dir floor left meta payloads tickets envelope mem entry enough rests
          found same version holds =
        updated-Agrees n _ mem entry update _ floor left (g meta) payloads tickets envelope
          (update_meta-place f L g meta dir floor left rests.meta_part) enough
          (record {
            meta_part = now_holds f L (g meta) version;
            log_part = rests.log_part;
            fits_part = rests.fits_part;
            ledger_part = rests.ledger_part;
            envelope_part = rests.envelope_part;
            envelope_eq = rests.envelope_eq;
          })
          found same holds

    module _ (n left : ℕ) (dir : SessionDir) (floor : Option Bytes) (meta : Meta)
        (payloads : List Bytes) (tickets : List TicketEntry) (envelope : Option Bytes)
        (mem : MemoryStore) (entry : SessionEntry)
        (rests : Rests f meta payloads tickets envelope [] dir)
        (found : Map.get id mem.inner ≡ some entry)
        (same : entry.session ≡ record_of e f verify id meta payloads tickets envelope)
        (holds : HoldsFloor f floor (floor_of id mem))
        (enough : max_frame_size + 5 + n ≤ suc left) where
      version_here : meta.version ≡ current_version
      version_here = let (_, _, _, v) = rests.meta_part in v

      unchanged : Mirrors (place_with dir floor (suc left)) mem
      unchanged = record {
        dir = dir;
        floor = floor;
        left = suc left;
        meta = meta;
        payloads = payloads;
        tickets = tickets;
        envelope = envelope;
        entry = entry;
        here = refl;
        rests = rests;
        found = found;
        same = same;
        floor_part = holds;
      }

      op-Agrees_at :
          (op : StoreOp)
          → IsFine op
          → Agrees n (fs_op f op (place_with dir floor (suc left))) (memory_op id op mem)
      unfolding fs_op memory_op add_member remove_member Memory.add_member Memory.remove_member
          Memory.put_tickets Memory.put_workspace_ticket put_workspace_ticket with_dir
          write_workspace_ticket write_atomic put_envelope change Memory.append
          Memory.bump_host_epoch raise_epoch_floor
      op-Agrees_at (add_op peer) fine =
          meta-Agrees n _ _ dir floor left meta payloads tickets envelope mem entry (omega arith)
            rests found (rw same refl) version_here holds
      op-Agrees_at (remove_op peer) fine =
          meta-Agrees n _ _ dir floor left meta payloads tickets envelope mem entry (omega arith)
            rests found (rw same refl) version_here holds
      op-Agrees_at (tickets_op now) fine =
          let doc : TicketsFile = record { version = 1; entries = now } in
          let (bytes, total) = L.tickets_total doc in
          updated-Agrees n _ mem entry _ _ floor left meta payloads now envelope
            (write_tickets-place f L now dir floor left) (omega arith)
            (record {
              meta_part = rests.meta_part;
              log_part = rests.log_part;
              fits_part = rests.fits_part;
              ledger_part = L.tickets_law doc bytes total;
              envelope_part = rests.envelope_part;
              envelope_eq = rests.envelope_eq;
            })
            found (rw same refl) holds
      op-Agrees_at (envelope_op now) fine =
          elim (Bool-cases (ltb workspace_ticket_envelope_max (length now))) [
            | inl large ↦
                rw (Memory.put_workspace_ticket, write_workspace_ticket, large)
                  (refl, unchanged, omega arith)
            | inr small ↦
                rw (Memory.put_workspace_ticket, write_workspace_ticket, small)
                  (updated-Agrees n _ mem entry _ _ floor left meta payloads tickets (some now) refl
                    (omega arith)
                    (record {
                      meta_part = rests.meta_part;
                      log_part = rests.log_part;
                      fits_part = rests.fits_part;
                      ledger_part = rests.ledger_part;
                      envelope_part = ground arith;
                      envelope_eq = refl;
                    })
                    found (rw same refl) holds)
          ]
      op-Agrees_at (append_op m) (q, enc, small, ok) =
          let log = frames payloads in
          let raised : Meta = record meta { head = max meta.head m.seq } in
          let (bytes, total) = L.meta_total raised in
          let size = length-frame q in
          let more : ltb (length (frame q)) (suc left) ≡ true = ground arith in
          let here : dir ≡ with_log log dir =
            log_here dir log (rests.log_part ∙ ap some (append-nil log)) in
          let all : take (suc left) (frame q) ≡ frame q =
            take_all (suc left) (frame q) (omega arith) in
          let ran =
            append-place e f verify id L meta log m q dir floor (suc left) rests.meta_part enc
              small in
          updated-Agrees n _ mem entry _ _ floor _ raised (payloads ++ q ∷ []) tickets envelope
            (ap (λ d. append f m (place_with d floor (suc left))) here ∙ rw (more, all) at ran)
            (omega arith)
            (Rests-extend meta raised payloads tickets envelope q dir (some bytes) rests
              (bytes, refl, L.meta_law raised bytes total, version_here) small)
            found
            (rw same (
              sym (
                record_of-append e f verify id meta raised.head payloads tickets envelope m q
                  (frame_message-passes e f verify id m q (L.message_law m q enc) ok) (omega arith)
                  (omega arith))))
            holds
      op-Agrees_at (bump_op epoch) fine =
          let k = (epoch + 1) % u64_mod in
          let raised = raise_epoch_floor id k mem in
          let now : Meta = record meta { host_epoch = epoch } in
          let (bytes, total) = L.meta_total now in
          let ran =
            bump-place f L epoch (floor_of id mem) meta dir floor left rests.meta_part holds
              (omega arith) in
          let agrees =
            updated-Agrees n _ raised entry (λ r. record r { host_epoch = epoch }) _ _ _ now
              payloads tickets envelope ran (ground arith)
              (record {
                meta_part = (bytes, refl, L.meta_law now bytes total, version_here);
                log_part = rests.log_part;
                fits_part = rests.fits_part;
                ledger_part = rests.ledger_part;
                envelope_part = rests.envelope_part;
                envelope_eq = rests.envelope_eq;
              })
              found (rw same refl)
              (rw (raised_floor_of id k mem)
                (raised_file-HoldsFloor f L (floor_of id mem) k floor holds)) in
          (ap (λ x. x.0) ran, agrees.1, agrees.2)

    -- A call gives the same result on both sides, and leaves them alike.
    op-Agrees :
        (n : ℕ) (op : StoreOp) (p : Place) (mem : MemoryStore)
        → IsFine op
        → Mirrors p mem
        → max_frame_size + 5 + n ≤ p.left
        → Agrees n (fs_op f op p) (memory_op id op mem)
    op-Agrees n op p mem fine m enough =
        let size : m.left ≡ p.left = ap (λ q. q.left) (sym m.here) in
        let steps : m.left ≡ suc (m.left - 1) = omega arith in
        subst (λ q. Agrees n (fs_op f op q) (memory_op id op mem))
          (sym (m.here ∙ ap (place_with m.dir m.floor) steps))
          (op-Agrees_at n (m.left - 1) m.dir m.floor m.meta m.payloads m.tickets m.envelope mem
            m.entry m.rests m.found m.same m.floor_part (omega arith) op fine)

abbrev pub fs_ops : Formats → List StoreOp → Place → List (Io (Unit {0})) × Place
fs_ops f [] p = ([], p)
fs_ops f (op ∷ ops) p = let (x, p1) = fs_op f op p in let (xs, p2) = fs_ops f ops p1 in (x ∷ xs, p2)

abbrev pub memory_ops : SessionId → List StoreOp → MemoryStore → List (Io (Unit {0})) × MemoryStore
memory_ops id [] mem = ([], mem)
memory_ops id (op ∷ ops) mem =
    let (x, mem1) = memory_op id op mem in let (xs, mem2) = memory_ops id ops mem1 in (x ∷ xs, mem2)

module _ (e : Ed25519) (f : Formats) (verify : Bool) (id : SessionId) where
  abbrev AllFine : List StoreOp → Type 0
  AllFine [] = Unit {0}
  AllFine (op ∷ ops) = IsFine e f verify id op × AllFine ops

  module _ (L : FormatLaws f) where
    -- On a disk with room for each call, any sequence of calls on a session that is there gives the
    -- same results on disk as in memory, and leaves the files holding the record and the epoch
    -- floor that the memory holds.
    pub fs_ops-refines :
        (ops : List StoreOp) (p : Place) (mem : MemoryStore)
        → AllFine ops
        → Mirrors e f verify id p mem
        → length ops * (max_frame_size + 5) ≤ p.left
        → let (xs, p1) = fs_ops f ops p in
          let (ys, mem1) = memory_ops id ops mem in (xs ≡ ys) × Mirrors e f verify id p1 mem1
    fs_ops-refines [] p mem fine m enough = (refl, m)
    fs_ops-refines (op ∷ ops) p mem fine m enough =
        let (same, after, left) =
          op-Agrees e f verify id L (length ops * (max_frame_size + 5)) op p mem fine.0 m
            (omega arith) in
        let (rest, last) =
          fs_ops-refines ops (fs_op f op p).1 (memory_op id op mem).1 fine.1 after left in
        (ap₂ (λ x xs. x ∷ xs) same rest, last)

    -- On a disk with room for each call, a sequence of calls on a session that is there, in which
    -- every appended message is encoded in at most 16 MiB and has a signature that a load accepts,
    -- gives the same results on disk as in memory, and a restart then loads from the disk the record
    -- that the memory holds.
    pub fs_ops-load :
        (ops : List StoreOp) (p : Place) (mem : MemoryStore) (n : ℕ)
        → AllFine ops
        → Mirrors e f verify id p mem
        → length ops * (max_frame_size + 5) ≤ p.left
        → let (xs, p1) = fs_ops f ops p in
          let (ys, mem1) = memory_ops id ops mem in
          (xs ≡ ys)
          × ((entry : SessionEntry) × (Map.get id mem1.inner ≡ some entry)
              × ((load_one e f verify id (record p1 { left = suc n })).0 ≡ done entry.session))
    fs_ops-load ops p mem n fine m enough =
        let (same, last) = fs_ops-refines ops p mem fine m enough in
        (
          same,
          (
            last.entry,
            last.found,
            subst
                (λ q.
                  (load_one e f verify id (record q { left = suc n })).0 ≡ done last.entry.session)
                (sym last.here)
                (ap (λ x. x.0)
                    (load_one_whole e f verify id last.meta last.payloads last.tickets last.envelope
                      last.dir last.floor n last.rests)
                  ∙ ap done (sym last.same)),
          ),
        )
