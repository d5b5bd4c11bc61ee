-- ===== src/Store/Fs/Attachments/Writes.antt =====
-- crates/artel-daemon/src/store/fs.rs (`write_attachment`): what is left of a write, by the number of
-- steps that the disk lasts.
use artel.Common.{
  ap₂, ℕ, zero, suc, ◌+◌, ◌-◌, ◌≤◌, ◌<◌, ◌≡◌, refl, sym, ap, ◌∙◌, inl, inr, Bool, true, false,
  Option, some, [], ◌∷◌, ◌++◌, arith, if◌then◌else◌, Bool-cases, leb, length, append_assoc,
  append-nil, ◌⊎◌,
}
use artel.Protocol.Bytes.{Bytes, bytes_eq, bytes_eq_refl}
use artel.Store.{Io, done, failed, other}
use artel.Store.Memory.{put_kind, drop_kind}
use artel.Store.Fs.{SessionDir, Place, change, with_dir}
use artel.Store.Fs.Log.Parts.{place_with}
use artel.Store.Fs.Names.{unique_tmp_name}
use artel.Store.Fs.Attachments.{
  Files, set_files, rename_file, or_remove, create_file, write_all, settle, move_into_place,
  write_attachment, has_file,
}

drop_kind_fresh :
    (tmp : Bytes) (files : Files) → has_file tmp files ≡ false → drop_kind tmp files ≡ files
unfolding has_file drop_kind
drop_kind_fresh tmp [] fresh = refl
drop_kind_fresh tmp ((n, q) ∷ files) fresh = elim (Bool-cases (bytes_eq n tmp)) [
  | inl e ↦ absurd (ground arith)
  | inr e ↦ rw (drop_kind, e) (ap ((n, q) ∷◌) (drop_kind_fresh tmp files (rw e at fresh)))
]

drop-put_kind :
    (tmp payload : Bytes) (files : Files)
    → has_file tmp files ≡ false
    → drop_kind tmp (put_kind tmp payload files) ≡ files
unfolding has_file drop_kind put_kind
drop-put_kind tmp payload [] fresh = rw (drop_kind, bytes_eq_refl tmp) refl
drop-put_kind tmp payload ((n, q) ∷ files) fresh = elim (Bool-cases (bytes_eq n tmp)) [
  | inl e ↦ absurd (ground arith)
  | inr e ↦
      rw (put_kind, e)
        (rw (drop_kind, e) (ap ((n, q) ∷◌) (drop-put_kind tmp payload files (rw e at fresh))))
]

abbrev pub with_files : Files → SessionDir → SessionDir
with_files files dir = record dir { attachments = some files }

put-put_kind :
    (tmp p q : Bytes) (files : Files) → put_kind tmp q (put_kind tmp p files) ≡ put_kind tmp q files
unfolding put_kind
put-put_kind tmp p q [] = rw (put_kind, bytes_eq_refl tmp) refl
put-put_kind tmp p q ((n, r) ∷ files) = elim (Bool-cases (bytes_eq n tmp)) [
  | inl e ↦ rw (put_kind, e) (rw (put_kind, bytes_eq_refl tmp) refl)
  | inr e ↦ rw (put_kind, e) (rw (put_kind, e) (ap ((n, r) ∷◌) (put-put_kind tmp p q files)))
]

module _ (dir : SessionDir) (floor : Option Bytes) where
  abbrev pub place_of : Files → ℕ → Place
  place_of files left = place_with (with_files files dir) floor left

  create_file-place :
      (tmp : Bytes) (files : Files) (left : ℕ)
      → has_file tmp files ≡ false
      → (create_file tmp (place_of files 0) ≡ (failed other, place_of files 0))
        × (create_file tmp (place_of files (suc left))
            ≡ (done tt, place_of (put_kind tmp [] files) left))
  unfolding create_file set_files with_dir change
  create_file-place tmp files left fresh = rw (create_file, fresh) (refl, refl)

  -- The bytes all fit, or the disk ends with a part of them.
  write_all-place :
      (tmp written bs : Bytes) (files : Files) (left : ℕ)
      → ((length bs ≤ left)
          × (write_all tmp written bs (place_of (put_kind tmp written files) left)
              ≡ (done tt, place_of (put_kind tmp (written ++ bs) files) (left - length bs))))
        ⊎ ((left < length bs)
            × ((part : Bytes) × (write_all tmp written bs
                    (place_of (put_kind tmp written files) left)
                  ≡ (failed other, place_of (put_kind tmp part files) 0))))
  unfolding write_all set_files with_dir change
  write_all-place tmp written [] files left = inl (
    omega arith,
    ap₂ (λ w n. (done tt, place_of (put_kind tmp w files) n)) (sym (append-nil written))
        (omega arith),
  )
  write_all-place tmp written (b ∷ bs) files zero = inr (omega arith, (written, refl))
  write_all-place tmp written (b ∷ bs) files (suc left) =
      let one : write_all tmp written (b ∷ bs) (place_of (put_kind tmp written files) (suc left))
          ≡ write_all tmp (written ++ b ∷ []) bs
              (place_of (put_kind tmp (written ++ b ∷ []) files) left) =
        ap (λ now. write_all tmp (written ++ b ∷ []) bs (place_of now left))
          (put-put_kind tmp written (written ++ b ∷ []) files) in
      elim (write_all-place tmp (written ++ b ∷ []) bs files left) [
        | inl (fits, all) ↦ inl (
          omega arith,
          one
              ∙ all
              ∙ ap₂ (λ w n. (done tt, place_of (put_kind tmp w files) n))
                  (append_assoc written (b ∷ []) bs) (omega arith),
        )
        | inr (short, (part, torn)) ↦ inr (omega arith, (part, one ∙ torn))
      ]

  move_into_place-place :
      (tmp name payload : Bytes) (files : Files) (left : ℕ)
      → has_file tmp files ≡ false
      → let here = place_of (put_kind tmp payload files) in
        let moved = place_of (put_kind name payload files) in
        (move_into_place tmp name payload (here 0) ≡ (failed other, here 0))
        × (move_into_place tmp name payload (here 1) ≡ (failed other, here 0))
        × (move_into_place tmp name payload (here 2) ≡ (failed other, here 0))
        × (move_into_place tmp name payload (here 3) ≡ (failed other, moved 0))
        × (move_into_place tmp name payload (here (suc (suc (suc (suc left)))))
            ≡ (done tt, moved left))
  unfolding move_into_place settle set_files rename_file with_dir change
  move_into_place-place tmp name payload files left fresh = (
    refl,
    refl,
    refl,
    rw (drop-put_kind tmp payload files fresh) refl,
    rw (drop-put_kind tmp payload files fresh) refl,
  )

-- What a write leaves, and whether that is the new file: no file, a part under the unique name, or
-- the whole under the name.
pub data Leaves (tmp name payload : Bytes) (files : Files) : Bool → Files → Type 0 where
  untouched : Leaves tmp name payload files false files
  partial : (part : Bytes) → Leaves tmp name payload files false (put_kind tmp part files)
  in_place : Leaves tmp name payload files true (put_kind name payload files)

module _ (dir : SessionDir) (floor : Option Bytes) where
  -- The call succeeds with `fine` and leaves the new file with `shown`.
  abbrev pub Ends : Bytes → Bytes → Bytes → Files → Bool → Bool → Io (Unit {0}) × Place → Type 0
  Ends tmp name payload files fine shown (result, after) =
      (result ≡ (if fine then done tt else failed other))
      × ((now : Files) × (after.dir ≡ some (with_files now dir))
          × Leaves tmp name payload files shown now)

  move_into_place-Ends :
      (tmp name payload : Bytes) (files : Files) (m : ℕ)
      → has_file tmp files ≡ false
      → Ends tmp name payload files (leb 4 m) (leb 3 m) (
          or_remove tmp
            (move_into_place tmp name payload (place_of dir floor (put_kind tmp payload files) m)))
  unfolding or_remove set_files with_dir change
  move_into_place-Ends tmp name payload files zero fresh =
      rw ((move_into_place-place dir floor tmp name payload files 0 fresh).0)
        (refl, (put_kind tmp payload files, refl, partial payload))
  move_into_place-Ends tmp name payload files (suc zero) fresh =
      rw ((move_into_place-place dir floor tmp name payload files 0 fresh).1)
        (refl, (put_kind tmp payload files, refl, partial payload))
  move_into_place-Ends tmp name payload files (suc (suc zero)) fresh =
      rw ((move_into_place-place dir floor tmp name payload files 0 fresh).2)
        (refl, (put_kind tmp payload files, refl, partial payload))
  move_into_place-Ends tmp name payload files (suc (suc (suc zero))) fresh =
      rw ((move_into_place-place dir floor tmp name payload files 0 fresh).3)
        (refl, (put_kind name payload files, refl, in_place))
  move_into_place-Ends tmp name payload files (suc (suc (suc (suc m)))) fresh =
      let four : leb 4 (suc (suc (suc (suc m)))) ≡ true = ground arith in
      let three : leb 3 (suc (suc (suc (suc m)))) ≡ true = ground arith in
      rw ((move_into_place-place dir floor tmp name payload files m fresh).4, four, three)
        (refl, (put_kind name payload files, refl, in_place))

  pub write_attachment-Ends :
      (pid counter name payload : Bytes) (files : Files) (left : ℕ)
      → let tmp = unique_tmp_name name pid counter in
        has_file tmp files ≡ false
        → Ends tmp name payload files
            (leb (length payload + 5) left)
            (leb (length payload + 4) left)
            (write_attachment pid counter name payload (place_of dir floor files left))
  unfolding write_attachment or_remove set_files with_dir change
  write_attachment-Ends pid counter name payload files zero fresh =
      let tmp = unique_tmp_name name pid counter in
      let none_fine : leb (length payload + 5) 0 ≡ false = ground arith in
      let none_shown : leb (length payload + 4) 0 ≡ false = ground arith in
      rw
        (write_attachment, (create_file-place dir floor tmp files 0 fresh).0, none_fine, none_shown)
        (refl, (files, refl, untouched))
  write_attachment-Ends pid counter name payload files (suc left) fresh =
      let tmp = unique_tmp_name name pid counter in
      let made = (create_file-place dir floor tmp files left fresh).1 in
      elim (write_all-place dir floor tmp [] payload files left) [
        | inl (fits, all) ↦
            let m = left - length payload in
            let fine : leb (length payload + 5) (suc left) ≡ leb 4 m = ground arith in
            let shown : leb (length payload + 4) (suc left) ≡ leb 3 m = ground arith in
            rw (write_attachment, made, all, fine, shown)
              (move_into_place-Ends tmp name payload files m fresh)
        | inr (short, (part, torn)) ↦
            let none_fine : leb (length payload + 5) (suc left) ≡ false = ground arith in
            let none_shown : leb (length payload + 4) (suc left) ≡ false = ground arith in
            rw (write_attachment, made, torn, none_fine, none_shown)
              (refl, (put_kind tmp part files, refl, partial part))
      ]
