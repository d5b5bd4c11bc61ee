-- ===== src/Store/Fs/Attachments.antt =====
-- crates/artel-daemon/src/store/fs.rs: attachments, each a file of its own, and the sweep of files
-- that a failed write left behind.
pub mod Writes
pub mod Readers
use artel.Common.{
  ℕ, Bool, true, false, not, Option, none, some, List, [], ◌∷◌, ◌++◌, if◌then◌else◌, ltb, length,
}
use artel.Common.Map.{Map}
use artel.Protocol.Bytes.{Bytes, bytes_eq}
use artel.Protocol.Ids.{SessionId}
use artel.Store.{IoError, not_found, invalid_data, other, Io, done, failed, StoredAttachment}
use artel.Store.Memory.{put_kind, drop_kind, wanted}
use artel.Store.Fs.{
  max_frame_size, max_kind_len, SessionDir, Place, Step, and_then, ◌>>=◌, ◌>>◌, pure, fail, change,
  with_dir, Disk,
}
use artel.Store.Fs.Log.{is_empty}
use artel.Store.Fs.Names.{
  attachment_filename, decode_attachment_filename, unique_tmp_name, is_attachment_tmp,
}

abbrev pub Files : Type 0
Files = List (Bytes × Bytes)

-- `ensure_dir` of the directory of attachments.
unfoldable pub ensure_attachments : Step Files
unfolding with_dir change
ensure_attachments = with_dir λ dir. elim dir.attachments [
  | some files ↦ pure files
  | none ↦ change (λ p. record p { dir = some (record dir { attachments = some [] }) }) >> pure []
]

unfoldable pub set_files : (Files → Files) → Step (Unit {0})
unfolding with_dir change
set_files g = with_dir λ dir. elim dir.attachments [
  | none ↦ fail not_found
  | some files ↦ change λ p. record p { dir = some (record dir { attachments = some (g files) }) }
]

-- `rename(from, to)`
unfoldable pub rename_file : Bytes → Bytes → Bytes → Files → Files
rename_file from to payload files = put_kind to payload (drop_kind from files)

-- A failed call, behind which the file under the unique name is removed if that can be done.
unfoldable pub or_remove : Bytes → Io (Unit {0}) × Place → Io (Unit {0}) × Place
unfolding set_files
or_remove tmp (done x, p) = (done x, p)
or_remove tmp (failed err, p) = (failed err, (set_files (drop_kind tmp) p).1)

-- `files.any(name)`
unfoldable pub has_file : Bytes → Files → Bool
has_file name [] = false
has_file name ((n, payload) ∷ files) = if bytes_eq n name then true else has_file name files

-- `create_new(true)`: a file that is there is an error.
unfoldable pub create_file : Bytes → Step (Unit {0})
unfolding set_files with_dir has_file
create_file tmp = with_dir λ dir. elim dir.attachments [
  | none ↦ fail not_found
  | some files ↦ if has_file tmp files then fail other else set_files (put_kind tmp [])
]

-- `write_all`: each byte that is written is a step of the disk.
unfoldable pub write_all : Bytes → Bytes → Bytes → Step (Unit {0})
unfolding set_files
write_all tmp written [] = pure tt
write_all tmp written (b ∷ bs) =
    set_files (put_kind tmp (written ++ b ∷ [])) >> write_all tmp (written ++ b ∷ []) bs

-- `sync_all`, `chmod` and `fsync_dir` change no file here, but can fail.
unfoldable pub settle : Step (Unit {0})
unfolding change
settle = change λ p. p

-- What comes after the bytes: the flush, the mode, the rename, and the flush of the directory.
unfoldable pub move_into_place : Bytes → Bytes → Bytes → Step (Unit {0})
unfolding settle set_files rename_file
move_into_place tmp name payload =
    settle >> (settle >> (set_files (rename_file tmp name payload) >> settle))

-- The payload is written under a unique name, then renamed.
unfoldable pub write_attachment : Bytes → Bytes → Bytes → Bytes → Step (Unit {0})
unfolding create_file write_all move_into_place or_remove unique_tmp_name
write_attachment pid counter name payload p =
    let tmp = unique_tmp_name name pid counter in
    or_remove tmp
      ((create_file tmp >> (write_all tmp [] payload >> move_into_place tmp name payload)) p)

-- `process id` and `counter` make the unique name.
unfoldable pub put_attachment : Bytes → Bytes → Bytes → Bytes → Step Bool
unfolding ensure_attachments write_attachment attachment_filename is_empty
put_attachment pid counter kind payload p =
    if ltb max_frame_size (length payload)
    then fail invalid_data p
    else if ltb max_kind_len (length kind)
    then fail invalid_data p
    else if is_empty kind
    then fail invalid_data p
    else elim p.dir [
      | none ↦ (done false, p)
      | some _ ↦
          (ensure_attachments >>= λ _.
          write_attachment pid counter (attachment_filename kind) payload >> pure true)
            p
    ]

-- One file of the listing: a leftover, a name that is no kind, a kind that is not asked for or a
-- file that is too large is skipped.
unfoldable pub listed :
    (Bytes → Bool) → Option Bytes → SessionId → Bytes × Bytes → List StoredAttachment
unfolding is_attachment_tmp decode_attachment_filename wanted
listed valid_utf8 filter id (name, payload) =
    if is_attachment_tmp name then [] else elim (decode_attachment_filename valid_utf8 name) [
      | none ↦ []
      | some kind ↦
          if wanted filter kind
          then if ltb max_frame_size (length payload)
            then []
            else record { session = id; kind = kind; payload = payload } ∷ []
          else []
    ]

unfoldable pub list_files :
    (Bytes → Bool) → Option Bytes → SessionId → Files → List StoredAttachment
unfolding listed
list_files valid_utf8 filter id [] = []
list_files valid_utf8 filter id (file ∷ files) =
    listed valid_utf8 filter id file ++ list_files valid_utf8 filter id files

-- The two loops of `list_attachments`; a session without the directory has none.
unfoldable pub list_attachments :
    (Bytes → Bool) → Option Bytes → Map SessionDir → List StoredAttachment
unfolding list_files
list_attachments valid_utf8 filter [] = []
list_attachments valid_utf8 filter ((id, dir) ∷ rest) =
    let others = list_attachments valid_utf8 filter rest in
    elim dir.attachments [
      | none ↦ others
      | some files ↦ list_files valid_utf8 filter id files ++ others
    ]

-- `remove_file`; a missing file is no error.
unfoldable pub delete_attachment : Bytes → Step (Unit {0})
unfolding set_files attachment_filename has_file
delete_attachment kind p = elim p.dir [
  | none ↦ (done tt, p)
  | some dir ↦ elim dir.attachments [
    | none ↦ (done tt, p)
    | some files ↦
        if has_file (attachment_filename kind) files
        then set_files (drop_kind (attachment_filename kind)) p
        else (done tt, p)
  ]
]

-- `sweep_tmp_files` of one session: what `open` removes on a disk that works.
unfoldable pub sweep_files : Files → Files
unfolding is_attachment_tmp
sweep_files [] = []
sweep_files ((name, payload) ∷ files) =
    let rest = sweep_files files in if is_attachment_tmp name then rest else (name, payload) ∷ rest

unfoldable pub sweep_tmp_files : Map SessionDir → Map SessionDir
unfolding sweep_files
sweep_tmp_files [] = []
sweep_tmp_files ((id, dir) ∷ rest) = elim dir.attachments [
  | none ↦ (id, dir) ∷ sweep_tmp_files rest
  | some files ↦ (id, record dir { attachments = some (sweep_files files) }) ∷ sweep_tmp_files rest
]
