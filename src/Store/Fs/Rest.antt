-- ===== src/Store/Fs/Rest.antt =====
-- crates/artel-daemon/src/store/fs.rs: a session directory that holds a record, and that `load_one`
-- gives the record back.
use artel.Common.{
  ℕ, suc, ◌≤◌, ◌<◌, max, ◌≡◌, refl, ap, sym, ◌∙◌, Bool, true, false, Option, none, some, List, [],
  ◌++◌, append-nil, arith, if◌then◌else◌, ltb, ◌==◌, length,
}
use artel.Protocol.Bytes.{Bytes}
use artel.Protocol.Ids.{SessionId}
use artel.Protocol.Signing.{Ed25519}
use artel.Protocol.Ticket.{TicketEntry}
use artel.Session.{SessionRecord}
use artel.Store.{done}
use artel.Store.Memory.{workspace_ticket_envelope_max}
use artel.Store.Fs.{
  max_frame_size, Meta, current_version, Formats, SessionDir, Place, with_dir, decoded,
}
use artel.Store.Fs.Files.{read_meta, read_tickets, read_workspace_ticket}
use artel.Store.Fs.Load.{log_tail, or_quarantine, load_files, load_one}
use artel.Store.Fs.Log.{take, is_empty}
use artel.Store.Fs.Log.Parts.{frame, frames, length-frame, Fits, place_with}
use artel.Store.Fs.Log.Frames.{messages, read_log-frames}
use artel.Store.Fs.Log.Writes.{with_log}

module _ (e : Ed25519) (f : Formats) (verify : Bool) (id : SessionId) where
  -- The record that a meta file, the frames of a log, a ledger and an envelope stand for.
  abbrev pub record_of : Meta → List Bytes → List TicketEntry → Option Bytes → SessionRecord
  record_of meta payloads tickets envelope = record {
    id = id;
    host = meta.host;
    members = meta.members;
    head = max meta.head (log_tail (messages e f.message id verify payloads));
    log = messages e f.message id verify payloads;
    kind = meta.kind;
    host_epoch = meta.host_epoch;
    tickets = tickets;
    workspace_ticket = envelope;
  }

abbrev pub HoldsMeta : Formats → Option Bytes → Meta → Type 0
HoldsMeta f file meta =
    (bytes : Bytes) × (file ≡ some bytes)
    × (f.meta.decode bytes ≡ some meta)
    × (meta.version ≡ current_version)

abbrev pub HoldsLedger : Formats → Option Bytes → List TicketEntry → Type 0
HoldsLedger f none tickets = tickets ≡ []
HoldsLedger f (some bytes) tickets =
    f.tickets.decode bytes ≡ some (record { version = 1; entries = tickets })

abbrev pub HoldsEnvelope : Option Bytes → Type 0
HoldsEnvelope none = Unit {0}
HoldsEnvelope (some bytes) = length bytes ≤ workspace_ticket_envelope_max

abbrev pub HoldsFloor : Formats → Option Bytes → ℕ → Type 0
HoldsFloor f none n = n ≡ 0
HoldsFloor f (some bytes) n = f.epoch_floor.decode bytes ≡ some (record { version = 1; floor = n })

-- A directory at rest: every file is whole. The log may have a torn frame behind `payloads`.
pub record Rests (f : Formats) (meta : Meta) (payloads : List Bytes) (tickets : List TicketEntry)
    (envelope : Option Bytes) (torn : Bytes) (dir : SessionDir) : Type 0 where
  pub meta_part : HoldsMeta f dir.meta_file meta
  pub log_part : dir.log_file ≡ some (frames payloads ++ torn)
  pub fits_part : Fits payloads
  pub ledger_part : HoldsLedger f dir.tickets_file tickets
  pub envelope_part : HoldsEnvelope dir.workspace_file
  pub envelope_eq : dir.workspace_file ≡ envelope

pub log_here : (dir : SessionDir) (log : Bytes) → dir.log_file ≡ some log → dir ≡ with_log log dir
log_here dir log h = ap (λ file. record dir { log_file = file }) h

pub read_meta-done :
    (f : Formats) (meta : Meta) (dir : SessionDir) (floor : Option Bytes) (left : ℕ)
    → HoldsMeta f dir.meta_file meta
    → read_meta f (place_with dir floor left) ≡ (done meta, place_with dir floor left)
unfolding read_meta with_dir decoded
read_meta-done f meta dir floor left (bytes, file, dec, version) = rw (file, decoded, dec) refl

read_tickets-done :
    (f : Formats) (tickets : List TicketEntry) (dir : SessionDir) (floor : Option Bytes) (left : ℕ)
    → HoldsLedger f dir.tickets_file tickets
    → read_tickets f (place_with dir floor left) ≡ (done tickets, place_with dir floor left)
unfolding read_tickets with_dir
read_tickets-done f tickets dir floor left h = go dir.tickets_file refl h
  where
    go :
        (o : Option Bytes)
        → dir.tickets_file ≡ o
        → HoldsLedger f o tickets
        → read_tickets f (place_with dir floor left) ≡ (done tickets, place_with dir floor left)
    go none file empty = rw (read_tickets, file, empty) refl
    go (some bytes) file dec = rw (read_tickets, file, decoded, dec) refl

read_workspace_ticket-done :
    (dir : SessionDir) (floor : Option Bytes) (left : ℕ)
    → HoldsEnvelope dir.workspace_file
    → read_workspace_ticket (place_with dir floor left)
      ≡ (done dir.workspace_file, place_with dir floor left)
unfolding read_workspace_ticket with_dir
read_workspace_ticket-done dir floor left h = go dir.workspace_file refl h
  where
    go :
        (o : Option Bytes)
        → dir.workspace_file ≡ o
        → HoldsEnvelope o
        → read_workspace_ticket (place_with dir floor left) ≡ (done o, place_with dir floor left)
    go none file small = rw (read_workspace_ticket, file) refl
    go (some bytes) file small =
        let fits : ltb workspace_ticket_envelope_max (length bytes) ≡ false = ground arith in
        rw (read_workspace_ticket, file, fits) refl

module _ (e : Ed25519) (f : Formats) (verify : Bool) (id : SessionId) where
  -- A directory that rests, with a frame torn at any byte behind its log, loads as its record; the
  -- torn bytes are cut off, and no other file changes.
  pub load_one-Rests :
      (k : ℕ) (meta : Meta) (payloads : List Bytes) (tickets : List TicketEntry)
      (envelope : Option Bytes) (q : Bytes) (dir : SessionDir) (floor : Option Bytes) (left : ℕ)
      → Rests f meta payloads tickets envelope (take k (frame q)) dir
      → length q ≤ max_frame_size
      → k < length (frame q)
      → load_one e f verify id (place_with dir floor (suc left)) ≡ (
        done (record_of e f verify id meta payloads tickets envelope),
        place_with
            (with_log (frames payloads) dir)
            floor
            (if is_empty (take k (frame q)) then suc left else left),
      )
  unfolding load_one load_files or_quarantine
  load_one-Rests k meta payloads tickets envelope q dir floor left rests h short =
      let (bytes, file, dec, version) = rests.meta_part in
      let kept = with_log (frames payloads) dir in
      let now = if is_empty (take k (frame q)) then suc left else left in
      let same : (meta.version == current_version) ≡ true = ground arith in
      rw
        (
          read_meta-done f meta dir floor (suc left) rests.meta_part,
          same,
          read_log-frames e f.message id verify k payloads q dir floor left rests.fits_part h short
              rests.log_part,
          read_tickets-done f tickets kept floor now rests.ledger_part,
          read_workspace_ticket-done kept floor now rests.envelope_part,
          rests.envelope_eq,
        )
        refl

  -- A directory at rest loads as its record, and the load changes nothing.
  pub load_one_whole :
      (meta : Meta) (payloads : List Bytes) (tickets : List TicketEntry) (envelope : Option Bytes)
      (dir : SessionDir) (floor : Option Bytes) (left : ℕ)
      → Rests f meta payloads tickets envelope [] dir
      → load_one e f verify id (place_with dir floor (suc left)) ≡ (
        done (record_of e f verify id meta payloads tickets envelope),
        place_with dir floor (suc left),
      )
  unfolding take is_empty
  load_one_whole meta payloads tickets envelope dir floor left rests =
      load_one-Rests 0 meta payloads tickets envelope [] dir floor left rests (omega arith)
        (omega (arith, length-frame []))
      ∙ ap
          (λ d. (
            done (record_of e f verify id meta payloads tickets envelope),
            place_with d floor (suc left),
          ))
          (sym (
            log_here dir (frames payloads)
              (rests.log_part ∙ ap some (append-nil (frames payloads)))))

  -- A place that stores a record, with nothing torn.
  pub record AtRest (r : SessionRecord) (p : Place) : Type 0 where
    pub dir : SessionDir
    pub meta : Meta
    pub payloads : List Bytes
    pub tickets : List TicketEntry
    pub envelope : Option Bytes
    pub here : p.dir ≡ some dir
    pub rests : Rests f meta payloads tickets envelope [] dir
    pub stored : r ≡ record_of e f verify id meta payloads tickets envelope
