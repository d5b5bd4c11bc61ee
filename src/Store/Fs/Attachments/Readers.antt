-- ===== src/Store/Fs/Attachments/Readers.antt =====
-- crates/artel-daemon/src/store/fs.rs: what a listing shows while attachments are written, swept or
-- lost half way.
use artel.Common.{
  ◌≡◌, refl, ap, Bool, true, [], ◌∷◌, arith, ℕ, not, ◌↔◌, Memᴰ, Memᴰ-filter, subst, sym,
  filter as filter_list,
}
use artel.Protocol.Bytes.{Bytes}
use artel.Store.Fs.Names.{unique_tmp_name, is_attachment_tmp, is_number, attachment_filename}
use artel.Store.Fs.Names.Laws.{
  is_attachment_tmp-unique_tmp_name, is_attachment_tmp-attachment_filename,
}
use artel.Protocol.Ids.Hex.{AllBytes}
use artel.Store.Fs.Attachments.{Files, sweep_files}

swept :
    (files : Files) → sweep_files files ≡ filter_list (λ file. not (is_attachment_tmp file.0)) files
unfolding sweep_files filter_list
swept [] = refl
swept ((name, payload) ∷ files) = ground (arith, swept files)

-- The sweep of leftovers keeps every file that is named for a kind, and adds none; and it takes every
-- file under a unique name that a put of an attachment makes.
pub sweep_files-attachment_filename :
    (files : Files)
    → ((kind payload : Bytes)
        → let file : Bytes × Bytes = (attachment_filename kind, payload) in
          Memᴰ file (sweep_files files) ↔ Memᴰ file files)
      × ((b : ℕ) (bs pid counter payload : Bytes)
          → AllBytes (b ∷ bs)
          → is_number pid ≡ true
          → is_number counter ≡ true
          → ¬ Memᴰ
              (unique_tmp_name (attachment_filename (b ∷ bs)) pid counter, payload)
              (sweep_files files))
sweep_files-attachment_filename files =
    let test : Bytes × Bytes → Bool = λ file. not (is_attachment_tmp file.0) in
    (
      λ kind payload.
          let file : Bytes × Bytes = (attachment_filename kind, payload) in
          let live = ap not (is_attachment_tmp-attachment_filename kind) in
          let same : Memᴰ file (filter_list test files) ↔ Memᴰ file files = (
            λ m. ((Memᴰ-filter test files file).0 m).0,
            λ m. (Memᴰ-filter test files file).1 (m, live),
          ) in
          subst (λ l. Memᴰ file l ↔ Memᴰ file files) (sym (swept files)) same,
      λ b bs pid counter payload h hp hc m.
          let name = unique_tmp_name (attachment_filename (b ∷ bs)) pid counter in
          let file : Bytes × Bytes = (name, payload) in
          let is = is_attachment_tmp-unique_tmp_name b bs pid counter h hp hc in
          let kept = ((Memᴰ-filter test files file).0 (subst (Memᴰ file) (swept files) m)).1 in
          absurd (ground arith),
    )
