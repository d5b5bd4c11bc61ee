-- ===== src/Store/Fs/Log/Writes.antt =====
-- crates/artel-daemon/src/store/fs.rs: what `append_log` leaves when the disk fails at any byte.
use artel.Common.{
  ℕ, zero, suc, ◌-◌, ◌≤◌, ◌≡◌, refl, ap, inl, inr, Bool, false, Option, some, [], ◌∷◌, ◌++◌,
  append_assoc, arith, if◌then◌else◌, Bool-cases, ltb, leb, length,
}
use artel.Protocol.Bytes.{Bytes, be_bytes, length-be_bytes}
use artel.Protocol.Message.{SessionMessage}
use artel.Store.{Io, done, failed, other}
use artel.Store.Fs.{max_frame_size, Codec, SessionDir, Place, with_dir, encoded}
use artel.Store.Fs.Log.{append_log, open_log, write_all, set_log, take}
use artel.Store.Fs.Log.Parts.{take_all, take-append, frame, place_with, length-frame}

take_within : (k : ℕ) (xs ys : Bytes) → k ≤ length xs → take k (xs ++ ys) ≡ take k xs
unfolding take
take_within zero xs ys h = refl
take_within (suc k) [] ys h = absurd (omega arith)
take_within (suc k) (x ∷ xs) ys h = ap (x ∷◌) (take_within k xs ys (omega arith))

abbrev pub with_log : Bytes → SessionDir → SessionDir
with_log log dir = record dir { log_file = some log }

abbrev wrote : Bool → Io (Unit {0})
wrote enough = if enough then done tt else failed other

-- As many bytes are written as there are steps left.
write_all-log :
    (bytes log : Bytes) (dir : SessionDir) (floor : Option Bytes) (left : ℕ)
    → write_all bytes (place_with (with_log log dir) floor left) ≡ (
      wrote (leb (length bytes) left),
      place_with (with_log (log ++ take left bytes) dir) floor (left - length bytes),
    )
unfolding write_all with_dir set_log
write_all-log bytes log dir floor left = elim (Bool-cases (leb (length bytes) left)) [
  | inl e ↦ rw (e, take_all left bytes (ground arith)) refl
  | inr e ↦ let spent : left - length bytes ≡ 0 = ground arith in rw (e, spent) refl
]

pub encoded-done :
    {A : Type 0} (c : Codec A) (a : A) (q : Bytes) (p : Place)
    → c.encode a ≡ some q
    → encoded c a p ≡ (done q, p)
unfolding encoded
encoded-done c a q p h = rw (encoded, h) refl

module _ (c : Codec SessionMessage) where
  -- What `append_log` leaves of a log, with `left` steps until the disk fails: as many bytes
  -- of the new frame as it had steps for. It succeeds exactly when that is the whole frame.
  pub append_log-frame :
      (log : Bytes) (m : SessionMessage) (q : Bytes) (dir : SessionDir) (floor : Option Bytes)
      (left : ℕ)
      → c.encode m ≡ some q
      → length q ≤ max_frame_size
      → append_log c m (place_with (with_log log dir) floor left) ≡ (
        wrote (leb (length (frame q)) left),
        place_with (with_log (log ++ take left (frame q)) dir) floor (left - length (frame q)),
      )
  unfolding append_log open_log with_dir
  append_log-frame log m q dir floor left enc h =
      let small : ltb max_frame_size (length q) ≡ false = ground arith in
      let width = be_bytes 4 (length q) in
      let size = length-be_bytes 4 (length q) in
      let whole = length-frame q in
      elim (Bool-cases (leb (length width) left)) [
        | inl e ↦
            let parts : take left (frame q) ≡ width ++ take (left - length width) q =
              take-append left width q (ground arith) in
            let same : leb (length (frame q)) left ≡ leb (length q) (left - length width) =
              ground arith in
            let rest : left - length (frame q) ≡ left - length width - length q = omega arith in
            rw
              (
                append_log,
                encoded-done c m q _ enc,
                small,
                write_all-log width log dir floor left,
                e,
                take_all left width (ground arith),
                write_all-log q (log ++ width) dir floor (left - length width),
                parts,
                same,
                rest,
                append_assoc log width (take (left - length width) q),
              )
              refl
        | inr e ↦
            let parts : take left (frame q) ≡ take left width =
              take_within left width q (ground arith) in
            let same : leb (length (frame q)) left ≡ false = ground arith in
            let rest : left - length (frame q) ≡ 0 = ground arith in
            let none_left : left - length width ≡ 0 = ground arith in
            rw
              (
                append_log,
                encoded-done c m q _ enc,
                small,
                write_all-log width log dir floor left,
                e,
                parts,
                same,
                rest,
                none_left,
              )
              refl
      ]
