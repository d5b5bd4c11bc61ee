-- ===== src/Store/Fs/Log.antt =====
-- crates/artel-daemon/src/store/fs.rs: the log file, a row of frames with their length in front.
pub mod Parts
pub mod Frames
pub mod Writes
use artel.Common.{
  ℕ, zero, suc, ◌+◌, ◌-◌, ◌*◌, Bool, true, false, Option, none, some, List, [], ◌∷◌, ◌++◌,
  if◌then◌else◌, ltb, leb, length, is_ok,
}
use artel.Protocol.Bytes.{Bytes, be_bytes}
use artel.Protocol.Ids.{SessionId}
use artel.Protocol.Message.{SessionMessage}
use artel.Protocol.Signing.{Ed25519, verify_message}
use artel.Store.{not_found, invalid_data, other, Io, done, failed}
use artel.Store.Fs.{
  max_frame_size, Codec, SessionDir, Place, Step, and_then, ◌>>=◌, ◌>>◌, pure, change, with_dir,
  encoded, fail,
}

-- `u32::from_be_bytes`, behind the bytes already read.
unfoldable pub from_be_bytes : ℕ → Bytes → ℕ
from_be_bytes high [] = high
from_be_bytes high (b ∷ bs) = from_be_bytes (high * 256 + b) bs

-- `read_exact` of `n` bytes: what it reads and what is left, or `none` at the end of the file.
unfoldable pub read_exact : ℕ → Bytes → Option (Bytes × Bytes)
read_exact zero bs = some ([], bs)
read_exact (suc n) [] = none
read_exact (suc n) (b ∷ bs) = elim (read_exact n bs) [
  | none ↦ none
  | some (front, rest) ↦ some (b ∷ front, rest)
]

unfoldable pub take : ℕ → Bytes → Bytes
take zero bs = []
take (suc n) [] = []
take (suc n) (b ∷ bs) = b ∷ take n bs

unfoldable pub set_log : Bytes → ℕ → SessionDir → Step (Unit {0})
set_log bytes left dir p =
    (done tt, record p { dir = some (record dir { log_file = some bytes }); left = left })

-- `OpenOptions::create(true)` makes the file if it is missing.
unfoldable pub open_log : Step (Unit {0})
unfolding with_dir change
open_log = with_dir λ dir. elim dir.log_file [
  | none ↦ change λ p. record p { dir = some (record dir { log_file = some [] }) }
  | some _ ↦ pure tt
]

-- `write_all` at the end of the log. When the disk fails, the first bytes are there.
unfoldable pub write_all : Bytes → Step (Unit {0})
unfolding with_dir set_log take
write_all bytes = with_dir λ dir p. elim dir.log_file [
  | none ↦ (failed not_found, p)
  | some log ↦
      if leb (length bytes) p.left
      then set_log (log ++ bytes) (p.left - length bytes) dir p
      else and_then (set_log (log ++ take p.left bytes) 0 dir p) λ _. fail other
]

unfoldable pub append_log : Codec SessionMessage → SessionMessage → Step (Unit {0})
unfolding encoded open_log write_all
append_log c message = encoded c message >>= λ payload.
    if ltb max_frame_size (length payload)
    then fail invalid_data
    else do open_log; write_all (be_bytes 4 (length payload)); write_all payload

-- What the loop of `read_log` has found: the messages, the length of the file up to the last whole
-- frame, and whether the rest is cut off.
pub record Scan : Type 0 where
  pub out : List SessionMessage
  pub last_good : ℕ
  pub cut : Bool

unfoldable pub is_empty : Bytes → Bool
is_empty [] = true
is_empty (b ∷ bs) = false

-- The panic of `verify_message` needs a payload of 4 GiB, which no frame of at most 16 MiB decodes
-- to, and counts as a failed check here.
unfoldable pub passes : Ed25519 → SessionId → Bool → SessionMessage → Bool
passes e id verify msg = if verify then is_ok (verify_message e id msg msg.signature) else true

module _ (e : Ed25519) (c : Codec SessionMessage) (id : SessionId) (verify : Bool) where
  -- What a whole frame adds to the log.
  unfoldable pub frame_message : Bytes → List SessionMessage
  unfolding passes
  frame_message buf = elim (c.decode buf) [
    | none ↦ []
    | some msg ↦ if passes e id verify msg then msg ∷ [] else []
  ]

  -- The loop, on what is left of the file. A pass reads at least 4 bytes, so one more than the
  -- length of the file is fuel enough.
  unfoldable pub scan : ℕ → Bytes → Scan
  unfolding read_exact from_be_bytes frame_message is_empty
  scan zero rest = record { out = []; last_good = 0; cut = true }
  scan (suc fuel) rest = elim (read_exact 4 rest) [
    | none ↦ record {
      out = [];
      last_good = 0;
      cut = elim (is_empty rest) [ true ↦ false | false ↦ true ];
    }
    | some (len_bytes, body) ↦
        let len = from_be_bytes 0 len_bytes in
        elim (ltb max_frame_size len) [
          | true ↦ record { out = []; last_good = 0; cut = true }
          | false ↦ elim (read_exact len body) [
            | none ↦ record { out = []; last_good = 0; cut = true }
            | some (buf, more) ↦
                let tail = scan fuel more in
                record {
                  out = frame_message buf ++ tail.out;
                  last_good = 4 + len + tail.last_good;
                  cut = tail.cut;
                }
          ]
        ]
  ]

  -- A missing log is an empty one. `set_len` cuts a torn frame off the end.
  unfoldable pub read_log : Step (List SessionMessage)
  unfolding with_dir scan take change
  read_log = with_dir λ dir. elim dir.log_file [
    | none ↦ pure []
    | some log ↦
        let found = scan (suc (length log)) log in
        if found.cut
        then (change (λ p. record p {
          dir = some (record dir { log_file = some (take found.last_good log) });
        })
            >> pure found.out)
        else pure found.out
  ]
