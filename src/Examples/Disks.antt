-- ===== src/Examples/Disks.antt =====
-- Runs over the storage on disk.
use artel.Common.{Memᴰ, ◌↔◌}
use artel.Protocol.Ids.Hex.{AllBytes}
use artel.Common.{ℕ, ◌≡◌, refl, arith, true, false, none, some, List, [], ◌∷◌, ◌++◌}
use artel.Common.Map
use artel.Protocol.Bytes.{Bytes, codes, be_bytes, bytes_eq}
use artel.Protocol.Ids.Hex.{to_hex, hex_lower}
use artel.Protocol.Message.{PeerInfo, chat, SessionMessage, signature_unsigned}
use artel.Protocol.Message
use artel.Protocol.Signing.{kind_tag}
use artel.Session.{SessionRecord, local}
use artel.Store.{done, failed, other}
use artel.Store.Memory.{MemoryStore, SessionEntry, floor_of, wanted}
use artel.Store.Fs.{Meta, SessionDir, Place, change, with_dir, write_atomic, encoded, decoded}
use artel.Store.Fs.Files
use artel.Store.Fs.Load.{log_tail, load_one}
use artel.Store.Fs.Log.{
  read_exact, take, is_empty, passes, frame_message, read_log, append_log, open_log, write_all,
  set_log,
}
use artel.Store.Fs.Log.Parts.{frame, frames, place_with}
use artel.Store.Fs.Log.Frames.{read_log-frames}
use artel.Store.Fs.Names.{
  attachment_filename, unique_tmp_name, is_number, all_bytes, is_digit, is_lower_hex, is_even,
  is_attachment_name, is_attachment_tmp, decode_attachment_filename, strip_suffix, split_number,
  rsplit_dot, decode_pairs, decode_lower_hex_nibble,
}
use artel.Store.Fs.Names.Laws.{decode-attachment_filename}
use artel.Store.Fs.Attachments.{Files, listed, list_files, sweep_files}
use artel.Store.Fs.Attachments.Readers.{sweep_files-attachment_filename}
use artel.Store.Fs.Ops.{append, create, bump_host_epoch, update_meta}
use artel.Store.Fs.Rest.{Rests, AtRest}
use artel.Store.Fs.Crash.{append-crash}
use artel.Store.Fs.Refines.{
  StoreOp, append_op, bump_op, add_op, Mirrors, fs_ops, memory_ops, fs_ops-load,
}
use artel.Store.Fs.Lives.{Lives}
use artel.Examples.{toy_ed25519}
use artel.Examples.Formats.{
  toy_formats, toy_formats-FormatLaws as laws, encode_message, decode_message, encode_meta,
  decode_meta, put, get,
}

abbrev hello : SessionMessage
hello =
    Message.new 1 500 (record { id = 3; display_name = [] }) chat (codes "say") (1 ∷ 2 ∷ [])
      (9 ∷ []) (8 ∷ [])

abbrev first_meta : Meta
first_meta = record {
  version = 3;
  host = 3;
  members = 3 ∷ [];
  head = 0;
  kind = local;
  host_epoch = 0;
}

abbrev first_dir : SessionDir
first_dir = record {
  meta_file = some (encode_meta first_meta);
  log_file = some [];
  tickets_file = none;
  quarantine_file = none;
  workspace_file = none;
  attachments = none;
}

abbrev first_record : SessionRecord
first_record = record {
  id = 7;
  host = 3;
  members = 3 ∷ [];
  head = 0;
  log = [];
  kind = local;
  host_epoch = 0;
  tickets = [];
  workspace_ticket = none;
}

-- A session that was just made, on a disk that lasts for so many steps.
abbrev first_place : ℕ → Place
first_place = place_with first_dir (some (1 ∷ 1 ∷ []))

abbrev first_Rests : Rests toy_formats first_meta [] [] none [] first_dir
first_Rests = record {
  meta_part = (encode_meta first_meta, refl, unfold encode_meta decode_meta put in refl, refl);
  log_part = refl;
  fits_part = tt;
  ledger_part = refl;
  envelope_part = tt;
  envelope_eq = refl;
}

first-AtRest : (left : ℕ) → AtRest toy_ed25519 toy_formats false 7 first_record (first_place left)
unfolding log_tail
first-AtRest left = record {
  dir = first_dir;
  meta = first_meta;
  payloads = [];
  tickets = [];
  envelope = none;
  here = refl;
  rests = first_Rests;
  stored = refl;
}

append-crash_example :
    ((append toy_formats hello (first_place 9)).0 ≡ failed other)
    × ((load_one toy_ed25519 toy_formats false 7
          (record (append toy_formats hello (first_place 9)).1 { left = 6 })).0
        ≡ done first_record)
unfolding be_bytes encode_message put kind_tag
append-crash_example =
    append-crash toy_ed25519 toy_formats false 7 laws first_record hello (encode_message hello)
      (first_place 9) 5 (first-AtRest 9) refl (omega arith) (unfold passes in refl)

-- With one step more than the frame has bytes, the append succeeds.
whole_append :
    ((append toy_formats hello (first_place 22)).0 ≡ done tt)
    × ((append toy_formats hello (first_place 21)).0 ≡ failed other)
unfolding append append_log open_log write_all set_log with_dir encoded be_bytes encode_message put
    kind_tag update_meta Files.read_meta Files.write_meta decoded decode_meta encode_meta
    write_atomic change take
whole_append = (refl, refl)

abbrev first_entry : SessionEntry
first_entry = record { session = first_record; attachments = [] }

abbrev first_memory : MemoryStore
first_memory = record { inner = (7, first_entry) ∷ []; epoch_floors = (7, 1) ∷ [] }

abbrev guest : PeerInfo
guest = record { id = 9; display_name = [] }

abbrev calls : List StoreOp
calls = append_op hello ∷ bump_op 1 ∷ add_op guest ∷ []

first-Mirrors : Mirrors toy_ed25519 toy_formats false 7 (first_place 60000000) first_memory
unfolding log_tail floor_of Map.get
first-Mirrors = record {
  dir = first_dir;
  floor = some (1 ∷ 1 ∷ []);
  left = 60000000;
  meta = first_meta;
  payloads = [];
  tickets = [];
  envelope = none;
  entry = first_entry;
  here = refl;
  rests = first_Rests;
  found = refl;
  same = refl;
  floor_part = refl;
}

fs_ops-load_example :
    let (xs, p) = fs_ops toy_formats calls (first_place 60000000) in
    let (ys, mem) = memory_ops 7 calls first_memory in
    (xs ≡ ys)
    × ((entry : SessionEntry) × (Map.get 7 mem.inner ≡ some entry)
        × ((load_one toy_ed25519 toy_formats false 7 (record p { left = 1 })).0
            ≡ done entry.session))
fs_ops-load_example =
    fs_ops-load toy_ed25519 toy_formats false 7 laws calls (first_place 60000000) first_memory 0
      (
        (
          encode_message hello,
          refl,
          unfold encode_message put in omega arith,
          unfold passes in refl,
        ),
        (tt, (tt, tt)),
      )
      first-Mirrors (omega arith)

-- A session made on an empty disk, whose epoch then goes up to 4.
abbrev bumped : Place
bumped =
    (bump_host_epoch toy_formats 4
      (create toy_formats first_record (record { dir = none; floor_file = none; left = 30 })).1).1

-- One whole frame, then the first six bytes of the next.
abbrev torn_dir : SessionDir
torn_dir = record first_dir {
  log_file = some (frames (encode_message hello ∷ []) ++ take 6 (frame (encode_message hello)));
}

read_log-frames_example :
    read_log toy_ed25519 (toy_formats.message) 7 false (place_with torn_dir none 5) ≡ (
      done (hello ∷ []),
      place_with (record torn_dir { log_file = some (frames (encode_message hello ∷ [])) }) none 4,
    )
unfolding take is_empty be_bytes encode_message decode_message kind_tag put get read_exact
    frame_message passes
read_log-frames_example =
    read_log-frames toy_ed25519 (toy_formats.message) 7 false 6 (encode_message hello ∷ [])
      (encode_message hello) torn_dir none 4 (omega arith, tt) (omega arith) (omega arith) refl

-- An attachment of the kind `a`, and a leftover of an earlier write of it.
abbrev files : Files
files =
    (unique_tmp_name (attachment_filename (b'a' ∷ [])) (codes "42") (codes "0"), 5 ∷ [])
    ∷ (attachment_filename (b'a' ∷ []), 4 ∷ [])
    ∷ []

listed_run :
    list_files (λ _. true) none 7 ((attachment_filename (b'b' ∷ []), 6 ∷ []) ∷ files)
    ≡ record { session = 7; kind = b'b' ∷ []; payload = 6 ∷ [] }
      ∷ record { session = 7; kind = b'a' ∷ []; payload = 4 ∷ [] }
      ∷ []
unfolding list_files listed is_attachment_tmp decode_attachment_filename attachment_filename
    unique_tmp_name to_hex hex_lower strip_suffix bytes_eq split_number rsplit_dot is_number
    all_bytes is_digit is_lower_hex is_attachment_name is_even decode_pairs decode_lower_hex_nibble
    wanted
listed_run = refl

decode-attachment_filename_example :
    decode_attachment_filename (λ _. true) (attachment_filename (codes "artel"))
    ≡ some (codes "artel")
decode-attachment_filename_example =
    decode-attachment_filename (λ _. true) (codes "artel")
      (omega arith, (omega arith, (omega arith, (omega arith, (omega arith, tt))))) refl

sweep_files-attachment_filename_example :
    ((kind payload : Bytes)
      → let file : Bytes × Bytes = (attachment_filename kind, payload) in
        Memᴰ file (sweep_files files) ↔ Memᴰ file files)
    × ((b : ℕ) (bs pid counter payload : Bytes)
        → AllBytes (b ∷ bs)
        → is_number pid ≡ true
        → is_number counter ≡ true
        → ¬ Memᴰ
            (unique_tmp_name (attachment_filename (b ∷ bs)) pid counter, payload)
            (sweep_files files))
sweep_files-attachment_filename_example = sweep_files-attachment_filename files
