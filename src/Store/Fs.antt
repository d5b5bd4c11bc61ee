-- ===== src/Store/Fs.antt =====
-- crates/artel-daemon/src/store/fs.rs: the storage on disk. The files of one session are a `Place`:
-- its directory and its epoch floor, which stands outside that directory. A change of a file
-- spends one step of `left`, and a byte written at the end of a log one step; at none left the disk
-- fails. So the numbers `left` stand for every moment at which power or the disk can fail.
-- Permissions are not modelled, and neither are paths that hold a file of another kind.
pub mod Log
pub mod Files
pub mod Load
pub mod Ops
pub mod Rest
pub mod Crash
pub mod Places
pub mod Refines
pub mod Quiet
pub mod FloorAbove
pub mod Lives
pub mod Whole
pub mod Names
pub mod Attachments
use artel.Common.{
  ℕ, zero, suc, ◌-◌, ◌*◌, ◌≡◌, Bool, Option, none, some, List, [], ◌∷◌, ◌++◌, if◌then◌else◌, leb,
  length,
}
use artel.Common.Map
use artel.Common.Map.{Map}
use artel.Protocol.Bytes.{Bytes}
use artel.Protocol.Ids.{SessionId, PeerId, Seq}
use artel.Protocol.Message.{SessionMessage}
use artel.Protocol.Ticket.{TicketEntry}
use artel.Session.{SessionRecord, SessionKind}
use artel.Store.{IoError, not_found, invalid_data, other, Io, done, failed}

-- 16 MiB
abbrev pub max_frame_size : ℕ
max_frame_size = 16 * 1024 * 1024

abbrev pub max_kind_len : ℕ
max_kind_len = 100

pub record Meta : Type 0 where
  pub version : ℕ
  pub host : PeerId
  pub members : List PeerId
  pub head : Seq
  pub kind : SessionKind
  pub host_epoch : ℕ

abbrev pub current_version : ℕ
current_version = 3

pub record TicketsFile : Type 0 where
  pub version : ℕ
  pub entries : List TicketEntry

pub record EpochFloorFile : Type 0 where
  pub version : ℕ
  pub floor : ℕ

-- What the code calls of postcard and of serde_json for one type: either can refuse a value.
pub record Codec (A : Type 0) : Type 0 where
  pub encode : A → Option Bytes
  pub decode : Bytes → Option A

-- What the crates document: a value that was encoded is decoded.
abbrev pub IsRoundTrip : {A : Type 0} → Codec A → Type 0
IsRoundTrip {A} c = (a : A) (bytes : Bytes) → c.encode a ≡ some bytes → c.decode bytes ≡ some a

pub record Formats : Type 0 where
  pub message : Codec SessionMessage
  pub meta : Codec Meta
  pub tickets : Codec TicketsFile
  pub epoch_floor : Codec EpochFloorFile

-- serde_json writes every value of a type without maps that have other keys than strings.
abbrev pub IsTotal : {A : Type 0} → Codec A → Type 0
IsTotal {A} c = (a : A) → (bytes : Bytes) × (c.encode a ≡ some bytes)

pub record FormatLaws (f : Formats) : Type 0 where
  pub message_law : IsRoundTrip f.message
  pub meta_law : IsRoundTrip f.meta
  pub tickets_law : IsRoundTrip f.tickets
  pub epoch_floor_law : IsRoundTrip f.epoch_floor
  pub meta_total : IsTotal f.meta
  pub tickets_total : IsTotal f.tickets
  pub epoch_floor_total : IsTotal f.epoch_floor

-- The files of a session directory; `attachments` is a directory of its own.
pub record SessionDir : Type 0 where
  pub meta_file : Option Bytes
  pub log_file : Option Bytes
  pub tickets_file : Option Bytes
  pub quarantine_file : Option Bytes
  pub workspace_file : Option Bytes
  pub attachments : Option (List (Bytes × Bytes))

abbrev pub empty_dir : SessionDir
empty_dir = record {
  meta_file = none;
  log_file = none;
  tickets_file = none;
  quarantine_file = none;
  workspace_file = none;
  attachments = none;
}

pub record Place : Type 0 where
  pub dir : Option SessionDir
  pub floor_file : Option Bytes
  pub left : ℕ

abbrev pub Step : Type 0 → Type 0
Step A = Place → Io A × Place

abbrev pub and_then : {A B : Type 0} → Io A × Place → (A → Step B) → Io B × Place
and_then (done a, p) f = f a p
and_then (failed e, p) f = (failed e, p)

infixl 5 ◌>>=◌ ◌>>◌
abbrev pub ◌>>=◌ : {A B : Type 0} → Step A → (A → Step B) → Step B
(m >>= f) p = and_then (m p) f

abbrev pub ◌>>◌ : {B : Type 0} → Step (Unit {0}) → Step B → Step B
(m >> k) p = and_then (m p) λ _. k

abbrev pub pure : {A : Type 0} → A → Step A
pure a p = (done a, p)

abbrev pub fail : {A : Type 0} → IoError → Step A
fail e p = (failed e, p)

-- One change that the disk makes as a whole: a directory, a rename, a removal, a truncation.
unfoldable pub change : (Place → Place) → Step (Unit {0})
change f p = elim p.left [ zero ↦ (failed other, p) | suc n ↦ (done tt, f (record p { left = n })) ]

-- A step on the files of the directory, which must be there.
unfoldable pub with_dir : {A : Type 0} → (SessionDir → Step A) → Step A
with_dir k p = elim p.dir [ none ↦ (failed not_found, p) | some dir ↦ k dir p ]

-- `write_bytes_atomic` and `write_json_atomic`: a file of the directory is written beside its
-- place, then renamed into it.
unfoldable pub write_atomic : (Bytes → SessionDir → SessionDir) → Bytes → Step (Unit {0})
unfolding change with_dir
write_atomic put bytes = with_dir λ dir. change λ p. record p { dir = some (put bytes dir) }

unfoldable pub encoded : {A : Type 0} → Codec A → A → Step Bytes
encoded c a p = elim (c.encode a) [ none ↦ (failed invalid_data, p) | some bytes ↦ (done bytes, p) ]

-- `read_json`
unfoldable pub decoded : {A : Type 0} → Codec A → Option Bytes → Step A
decoded c none p = (failed not_found, p)
decoded c (some bytes) p = elim (c.decode bytes) [
  | none ↦ (failed invalid_data, p)
  | some a ↦ (done a, p)
]

-- All directories, and the floors by session. A directory whose name is no session id is skipped
-- by every operation, and is left out here.
pub record Disk : Type 0 where
  pub sessions : Map SessionDir
  pub epoch_floors : Map Bytes
  pub left : ℕ

unfoldable pub place_of : SessionId → Disk → Place
place_of id d = record {
  dir = Map.get id d.sessions;
  floor_file = Map.get id d.epoch_floors;
  left = d.left;
}

-- The entry of a map after a change.
unfoldable pub put_entry : {V : Type 0} → SessionId → Option V → Map V → Map V
put_entry id none m = Map.remove id m
put_entry id (some v) m = Map.insert id v m

unfoldable pub put_place : SessionId → Place → Disk → Disk
unfolding put_entry
put_place id p d = record {
  sessions = put_entry id p.dir d.sessions;
  epoch_floors = put_entry id p.floor_file d.epoch_floors;
  left = p.left;
}

-- A step on the files of one session.
unfoldable pub at_session : {A : Type 0} → SessionId → Step A → Disk → Io A × Disk
unfolding place_of put_place
at_session id m d = let (r, p) = m (place_of id d) in (r, put_place id p d)
