-- ===== src/Store/Fs/Crash.antt =====
-- crates/artel-daemon/src/store/fs.rs: `append` when the disk fails at any moment of it.
use artel.Common.{
  ℕ, suc, ◌-◌, ◌≤◌, max, ◌≡◌, refl, ap, sym, ◌∙◌, subst, inl, inr, Bool, true, false, Option, some,
  List, [], ◌∷◌, ◌++◌, append-nil, arith, if◌then◌else◌, ltb, leb, length, Bool-cases,
}
use artel.Protocol.Bytes.{Bytes}
use artel.Protocol.Ids.{SessionId, Seq}
use artel.Protocol.Message.{SessionMessage}
use artel.Protocol.Signing.{Ed25519}
use artel.Protocol.Ticket.{TicketEntry}
use artel.Session.{SessionRecord}
use artel.Store.{done, failed, other}
use artel.Store.Fs.{
  max_frame_size, Meta, Formats, FormatLaws, SessionDir, Place, change, with_dir, write_atomic,
}
use artel.Store.Fs.Files.{write_meta, put_meta}
use artel.Store.Fs.Load.{log_tail, load_one}
use artel.Store.Fs.Log.{take, passes, frame_message}
use artel.Store.Fs.Log.Parts.{frame, frames, frames-append, Fits-append, place_with, take_all}
use artel.Store.Fs.Log.Frames.{messages, messages-append}
use artel.Store.Fs.Log.Writes.{with_log, encoded-done, append_log-frame}
use artel.Store.Fs.Ops.{append, update_meta}
use artel.Store.Fs.Rest.{
  HoldsMeta, record_of, Rests, load_one-Rests, load_one_whole, log_here, AtRest, read_meta-done,
}

abbrev pub with_meta : Bytes → SessionDir → SessionDir
with_meta bytes dir = record dir { meta_file = some bytes }

-- The meta file is written whole or not at all.
pub write_meta-place :
    (f : Formats) (meta : Meta) (bytes : Bytes) (dir : SessionDir) (floor : Option Bytes) (left : ℕ)
    → f.meta.encode meta ≡ some bytes
    → (write_meta f meta (place_with dir floor (suc left))
        ≡ (done tt, place_with (with_meta bytes dir) floor left))
      × (write_meta f meta (place_with dir floor 0) ≡ (failed other, place_with dir floor 0))
unfolding write_meta write_atomic with_dir change put_meta
write_meta-place f meta bytes dir floor left h = (
  rw (write_meta, encoded-done f.meta meta bytes _ h) refl,
  rw (write_meta, encoded-done f.meta meta bytes _ h) refl,
)

-- What the storage's caller means by appending a message to a record.
abbrev pub with_message : SessionMessage → SessionRecord → SessionRecord
with_message m r = record r { head = max r.head m.seq; log = r.log ++ m ∷ [] }

pub log_tail-append :
    (log : List SessionMessage) (m : SessionMessage)
    → log_tail (log ++ m ∷ []) ≡ max (log_tail log) m.seq
unfolding log_tail
log_tail-append [] m = omega arith
log_tail-append (x ∷ log) m = omega (arith, log_tail-append log m)

pub Rests-extend :
    {f : Formats} (meta now : Meta) (payloads : List Bytes) (tickets : List TicketEntry)
    (envelope : Option Bytes) (q : Bytes) (dir : SessionDir) (file : Option Bytes)
    → Rests f meta payloads tickets envelope [] dir
    → HoldsMeta f file now
    → length q ≤ max_frame_size
    → Rests f now
        (payloads ++ q ∷ [])
        tickets
        envelope
        []
        (record dir { meta_file = file; log_file = some (frames payloads ++ frame q) })
Rests-extend meta now payloads tickets envelope q dir file rests holds small = record {
  meta_part = holds;
  log_part = ap some (
      ap (λ t. frames payloads ++ t) (sym (append-nil (frame q)))
      ∙ sym (frames-append payloads (q ∷ []))
      ∙ sym (append-nil (frames (payloads ++ q ∷ []))));
  fits_part = Fits-append payloads q rests.fits_part small;
  ledger_part = rests.ledger_part;
  envelope_part = rests.envelope_part;
  envelope_eq = rests.envelope_eq;
}

module _ (e : Ed25519) (f : Formats) (verify : Bool) (id : SessionId) where
  pub frame_message-passes :
      (m : SessionMessage) (q : Bytes)
      → f.message.decode q ≡ some m
      → passes e id verify m ≡ true
      → frame_message e f.message id verify q ≡ m ∷ []
  unfolding frame_message
  frame_message-passes m q dec ok = rw (frame_message, dec, ok) refl

  -- The record of a log that grew by the frame of a message, with the old or the new meta file.
  pub record_of-append :
      (meta : Meta) (head : Seq) (payloads : List Bytes) (tickets : List TicketEntry)
      (envelope : Option Bytes) (m : SessionMessage) (q : Bytes)
      → frame_message e f.message id verify q ≡ m ∷ []
      → meta.head ≤ head
      → head ≤ max meta.head m.seq
      → record_of e f verify id (record meta { head = head }) (payloads ++ q ∷ []) tickets envelope
        ≡ with_message m (record_of e f verify id meta payloads tickets envelope)
  record_of-append meta head payloads tickets envelope m q one low high =
      let log = messages e f.message id verify payloads in
      let grew : messages e f.message id verify (payloads ++ q ∷ []) ≡ log ++ m ∷ [] =
        messages-append e f.message id verify payloads (q ∷ []) ∙ rw one refl in
      let tail = log_tail-append log m in
      let top : max head (log_tail (log ++ m ∷ [])) ≡ max (max meta.head (log_tail log)) m.seq =
        omega arith in
      rw (grew, top) refl

  module _ (L : FormatLaws f) where
    -- What `append` leaves: the log with as many bytes of the frame as the disk took, and the meta
    -- file of before or with the raised head.
    pub append-place :
        (meta : Meta) (log : Bytes) (m : SessionMessage) (q : Bytes) (dir : SessionDir)
        (floor : Option Bytes) (left : ℕ)
        → HoldsMeta f dir.meta_file meta
        → f.message.encode m ≡ some q
        → length q ≤ max_frame_size
        → let grown = with_log (log ++ take left (frame q)) dir in
          let (bytes, _) = L.meta_total (record meta { head = max meta.head m.seq }) in
          append f m (place_with (with_log log dir) floor left) ≡ (
            if ltb (length (frame q)) left
            then (done tt, place_with (with_meta bytes grown) floor (left - length (frame q) - 1))
            else (failed other, place_with grown floor (left - length (frame q))))
    unfolding append update_meta
    append-place meta log m q dir floor left holds enc small =
        let grown = with_log (log ++ take left (frame q)) dir in
        let rest = left - length (frame q) in
        let raised : Meta = record meta { head = max meta.head m.seq } in
        let (bytes, total) = L.meta_total raised in
        let logged = append_log-frame f.message log m q dir floor left enc small in
        let read = read_meta-done f meta grown floor rest holds in
        elim (Bool-cases (leb (length (frame q)) left)) [
          | inr e ↦
              let less : ltb (length (frame q)) left ≡ false = ground arith in
              rw (append, logged, e, less) refl
          | inl e ↦ elim (Bool-cases (ltb (length (frame q)) left)) [
            | inr less ↦
                let spent : rest ≡ 0 = ground arith in
                rw
                  (
                    append,
                    logged,
                    e,
                    less,
                    update_meta,
                    read,
                    spent,
                    (write_meta-place f raised bytes grown floor 0 total).1,
                  )
                  refl
            | inl more ↦
                let some_left : rest ≡ suc (rest - 1) = ground arith in
                rw (append, logged, e, more, update_meta, read)
                  (rw (ap (λ n. write_meta f raised (place_with grown floor n)) some_left)
                    (write_meta-place f raised bytes grown floor (rest - 1) total).0)
          ]
        ]

    append-crash_at :
        (meta : Meta) (payloads : List Bytes) (tickets : List TicketEntry) (envelope : Option Bytes)
        (m : SessionMessage) (q : Bytes) (dir : SessionDir) (floor : Option Bytes) (left n : ℕ)
        → Rests f meta payloads tickets envelope [] dir
        → f.message.encode m ≡ some q
        → length q ≤ max_frame_size
        → passes e id verify m ≡ true
        → let (result, after) =
            append f m (place_with (with_log (frames payloads) dir) floor left) in
          let r = record_of e f verify id meta payloads tickets envelope in
          (result ≡ (if ltb (length (frame q)) left then done tt else failed other))
          × ((load_one e f verify id (record after { left = suc n })).0
              ≡ done (if leb (length (frame q)) left then with_message m r else r))
    append-crash_at meta payloads tickets envelope m q dir floor left n rests enc small ok =
        let log = frames payloads in
        let raised : Meta = record meta { head = max meta.head m.seq } in
        let (bytes, total) = L.meta_total raised in
        let law = L.meta_law raised bytes total in
        let (_, _, _, version) = rests.meta_part in
        let place = append-place meta log m q dir floor left rests.meta_part enc small in
        let one = frame_message-passes m q (L.message_law m q enc) ok in
        let grown = with_log (log ++ take left (frame q)) dir in
        let bigger = payloads ++ q ∷ [] in
        elim (Bool-cases (leb (length (frame q)) left)) [
          | inr short ↦
              let less : ltb (length (frame q)) left ≡ false = ground arith in
              let torn : Rests f meta payloads tickets envelope (take left (frame q)) grown =
                record {
                  meta_part = rests.meta_part;
                  log_part = refl;
                  fits_part = rests.fits_part;
                  ledger_part = rests.ledger_part;
                  envelope_part = rests.envelope_part;
                  envelope_eq = rests.envelope_eq;
                } in
              rw (place, short, less)
                (
                  refl,
                  ap (λ x. x.0)
                      (load_one-Rests e f verify id left meta payloads tickets envelope q grown
                        floor n torn small (ground arith)),
                )
          | inl long ↦
              let all = take_all left (frame q) (ground arith) in
              elim (Bool-cases (ltb (length (frame q)) left)) [
                | inr less ↦
                    let loads =
                      load_one_whole e f verify id meta bigger tickets envelope _ floor n (
                        Rests-extend meta meta payloads tickets envelope q dir dir.meta_file rests
                          rests.meta_part small) in
                    rw (place, long, less, all)
                      (
                        refl,
                        ap (λ x. x.0) loads
                            ∙ ap done (
                                record_of-append meta meta.head payloads tickets envelope m q one
                                  (omega arith) (omega arith)),
                      )
                | inl more ↦
                    let loads =
                      load_one_whole e f verify id raised bigger tickets envelope _ floor n (
                        Rests-extend meta raised payloads tickets envelope q dir (some bytes) rests
                          (bytes, refl, law, version) small) in
                    rw (place, long, more, all)
                      (
                        refl,
                        ap (λ x. x.0) loads
                            ∙ ap done (
                                record_of-append meta raised.head payloads tickets envelope m q one
                                  (omega arith) (omega arith)),
                      )
              ]
        ]

    -- Of a message that postcard encodes in at most 16 MiB, and whose signature a load accepts (which
    -- also holds when the storage does not verify): an append to a session at rest, whose disk fails
    -- after any number of steps, is followed by a restart that loads the record of before or the
    -- record with the whole message, never a part; it succeeds exactly when the disk outlasts the
    -- frame, and then the message is there.
    pub append-crash :
        (r : SessionRecord) (m : SessionMessage) (q : Bytes) (p : Place) (n : ℕ)
        → AtRest e f verify id r p
        → f.message.encode m ≡ some q
        → length q ≤ max_frame_size
        → passes e id verify m ≡ true
        → let (result, after) = append f m p in
          (result ≡ (if ltb (length (frame q)) p.left then done tt else failed other))
          × ((load_one e f verify id (record after { left = suc n })).0
              ≡ done (if leb (length (frame q)) p.left then with_message m r else r))
    append-crash r m q p n at enc small ok =
        let kept = frames at.payloads in
        let dir : p.dir ≡ some (with_log kept at.dir) =
          at.here
          ∙ ap some (log_here at.dir kept (at.rests.log_part ∙ ap some (append-nil kept))) in
        subst
          (λ o.
            let (result, after) = append f m (record p { dir = o }) in
            (result ≡ (if ltb (length (frame q)) p.left then done tt else failed other))
            × ((load_one e f verify id (record after { left = suc n })).0
                ≡ done (if leb (length (frame q)) p.left then with_message m r else r)))
          (sym dir)
          (rw (at.stored) (
            append-crash_at at.meta at.payloads at.tickets at.envelope m q at.dir p.floor_file
              p.left n at.rests enc small ok))
