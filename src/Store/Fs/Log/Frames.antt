-- ===== src/Store/Fs/Log/Frames.antt =====
-- crates/artel-daemon/src/store/fs.rs: what `read_log` makes of a row of frames, the last of them torn
-- at any byte.
use artel.Common.{
  ℕ, zero, suc, ◌+◌, ◌-◌, ◌≤◌, ◌<◌, ◌≡◌, refl, ap, inl, inr, sym, subst, ◌∙◌, Bool, true, false,
  not, Option, none, some, List, [], ◌∷◌, ◌++◌, append-nil, append_assoc, arith, dec_lt,
  if◌then◌else◌, Bool-cases, ltb, length, length-append,
}
use artel.Protocol.Bytes.{Bytes, be_bytes, length-be_bytes}
use artel.Protocol.Ids.{SessionId}
use artel.Protocol.Message.{SessionMessage}
use artel.Protocol.Signing.{Ed25519}
use artel.Store.{done}
use artel.Store.Fs.{max_frame_size, Codec, SessionDir, Place, change, with_dir}
use artel.Store.Fs.Log.{
  from_be_bytes, read_exact, take, is_empty, Scan, frame_message, scan, read_log,
}
use artel.Store.Fs.Log.Parts.{
  from_be_bytes-be_bytes, read_exact-append, read_exact_short, length-take, take-append, take_front,
  frame, frames, Fits, read_exact_width, is_empty_width, is_empty→nil, place_with, length-frame,
}

module _ (e : Ed25519) (c : Codec SessionMessage) (id : SessionId) (verify : Bool) where
  abbrev pub messages : List Bytes → List SessionMessage
  messages [] = []
  messages (p ∷ ps) = frame_message e c id verify p ++ messages ps

  pub messages-append : (ps qs : List Bytes) → messages (ps ++ qs) ≡ messages ps ++ messages qs
  messages-append [] qs = refl
  messages-append (p ∷ ps) qs =
      rw (messages-append ps qs)
        (sym (append_assoc (frame_message e c id verify p) (messages ps) (messages qs)))

  abbrev torn_scan : Bool → Scan
  torn_scan cut = record { out = []; last_good = 0; cut = cut }

  scan_pass :
      (fuel : ℕ) (file len_bytes body buf more : Bytes)
      → read_exact 4 file ≡ some (len_bytes, body)
      → from_be_bytes 0 len_bytes ≤ max_frame_size
      → read_exact (from_be_bytes 0 len_bytes) body ≡ some (buf, more)
      → scan e c id verify (suc fuel) file ≡ record {
        out = frame_message e c id verify buf ++ (scan e c id verify fuel more).out;
        last_good = 4 + from_be_bytes 0 len_bytes + (scan e c id verify fuel more).last_good;
        cut = (scan e c id verify fuel more).cut;
      }
  unfolding scan
  scan_pass fuel file len_bytes body buf more first small second =
      let fits : ltb max_frame_size (from_be_bytes 0 len_bytes) ≡ false = ground arith in
      rw (scan, first, fits, second) refl

  scan_stops :
      (fuel : ℕ) (file len_bytes body : Bytes)
      → read_exact 4 file ≡ some (len_bytes, body)
      → read_exact (from_be_bytes 0 len_bytes) body ≡ none
      → scan e c id verify (suc fuel) file ≡ torn_scan true
  unfolding scan
  scan_stops fuel file len_bytes body first second =
      elim (Bool-cases (ltb max_frame_size (from_be_bytes 0 len_bytes))) [
        | inl large ↦ rw (scan, first, large) refl
        | inr small ↦ rw (scan, first, small, second) refl
      ]

  scan_short :
      (fuel : ℕ) (file : Bytes)
      → read_exact 4 file ≡ none
      → scan e c id verify (suc fuel) file ≡ torn_scan (not (is_empty file))
  unfolding scan is_empty
  scan_short fuel [] h = refl
  scan_short fuel (b ∷ bs) h = rw (scan, h) refl

  -- One pass over a whole frame.
  scan-frame :
      (fuel : ℕ) (p rest : Bytes)
      → length p ≤ max_frame_size
      → scan e c id verify (suc fuel) (frame p ++ rest) ≡ record {
        out = frame_message e c id verify p ++ (scan e c id verify fuel rest).out;
        last_good = 4 + length p + (scan e c id verify fuel rest).last_good;
        cut = (scan e c id verify fuel rest).cut;
      }
  scan-frame fuel p rest h =
      let len = from_be_bytes-be_bytes 4 (length p) (omega arith) in
      rw len at (
        scan_pass fuel (frame p ++ rest) (be_bytes 4 (length p)) (p ++ rest) p rest
          (rw (append_assoc (be_bytes 4 (length p)) p rest)
            (read_exact_width (be_bytes 4 (length p)) (p ++ rest) (length-be_bytes 4 (length p))))
          (omega arith) (rw len (read_exact-append p rest)))

  -- A frame of which not all bytes are there, at the end of the file.
  scan_torn :
      (fuel k : ℕ) (q : Bytes)
      → length q ≤ max_frame_size
      → k < length (frame q)
      → scan e c id verify (suc fuel) (take k (frame q))
        ≡ torn_scan (not (is_empty (take k (frame q))))
  scan_torn fuel k q h short = elim (dec_lt k 4) [
    | yes few ↦
        scan_short fuel (take k (frame q))
          (read_exact_short 4 (take k (frame q)) (omega (arith, length-take k (frame q))))
    | no many ↦
        let len = from_be_bytes-be_bytes 4 (length q) (omega arith) in
        let width = length-be_bytes 4 (length q) in
        let parts : take k (frame q) ≡ be_bytes 4 (length q) ++ take (k - 4) q =
          subst (λ w. take k (frame q) ≡ be_bytes 4 (length q) ++ take (k - w) q) width
            (take-append k (be_bytes 4 (length q)) q (omega arith)) in
        rw (parts, is_empty_width (be_bytes 4 (length q)) (take (k - 4) q) (omega arith))
          (scan_stops fuel _ (be_bytes 4 (length q)) (take (k - 4) q)
            (read_exact_width (be_bytes 4 (length q)) (take (k - 4) q) width)
            (rw len (
              read_exact_short (length q) (take (k - 4) q)
                (omega (arith, length-take (k - 4) q, length-frame q)))))
  ]

  -- The whole loop: the messages of the frames, and what is behind them is cut off.
  scan-frames :
      (fuel k : ℕ) (ps : List Bytes) (q : Bytes)
      → Fits ps
      → length q ≤ max_frame_size
      → k < length (frame q)
      → length (frames ps ++ take k (frame q)) ≤ fuel
      → scan e c id verify (suc fuel) (frames ps ++ take k (frame q)) ≡ record {
        out = messages ps;
        last_good = length (frames ps);
        cut = not (is_empty (take k (frame q)));
      }
  scan-frames fuel k [] q fit h short enough = scan_torn fuel k q h short
  scan-frames zero k (p ∷ ps) q fit h short enough = absurd (
      omega (
        arith,
        length-append (frame p ++ frames ps) (take k (frame q)),
        length-append (frame p) (frames ps),
        length-frame p,
      ))
  scan-frames (suc fuel) k (p ∷ ps) q fit h short enough =
      let t = take k (frame q) in
      let sizes : length (frame p ++ frames ps) ≡ 4 + length p + length (frames ps) =
        omega (arith, length-append (frame p) (frames ps), length-frame p) in
      let rest =
        scan-frames fuel k ps q fit.1 h short
          (omega (arith, length-append (frame p ++ frames ps) t, length-append (frames ps) t)) in
      rw
        (append_assoc (frame p) (frames ps) t, scan-frame (suc fuel) p (frames ps ++ t) fit.0, rest)
        (rw sizes refl)

  -- What `read_log` gives and leaves of a log whose last frame is torn.
  pub read_log-frames :
      (k : ℕ) (ps : List Bytes) (q : Bytes) (dir : SessionDir) (floor : Option Bytes) (left : ℕ)
      → Fits ps
      → length q ≤ max_frame_size
      → k < length (frame q)
      → dir.log_file ≡ some (frames ps ++ take k (frame q))
      → let place : Place = record { dir = some dir; floor_file = floor; left = suc left } in
        let kept : SessionDir = record dir { log_file = some (frames ps) } in
        read_log e c id verify place ≡ (
          done (messages ps),
          record {
            dir = some kept;
            floor_file = floor;
            left = if is_empty (take k (frame q)) then suc left else left;
          },
        )
  unfolding read_log with_dir change
  read_log-frames k ps q dir floor left fit h short log =
      let t = take k (frame q) in
      let found = scan-frames (length (frames ps ++ t)) k ps q fit h short (omega arith) in
      elim (Bool-cases (is_empty t)) [
        | inr e ↦ rw (log, found, e, take_front (frames ps) t) refl
        | inl e ↦
            let whole : frames ps ++ t ≡ frames ps =
              ap (λ z. frames ps ++ z) (is_empty→nil t e) ∙ append-nil (frames ps) in
            rw (log, found, e)
              (ap
                (λ file. (
                  done (messages ps),
                  place_with (record dir { log_file = some file }) floor (suc left),
                ))
                whole)
      ]
