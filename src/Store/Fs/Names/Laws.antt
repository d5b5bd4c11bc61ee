-- ===== src/Store/Fs/Names/Laws.antt =====
-- crates/artel-daemon/src/store/fs.rs: the names of attachments are read back, and are told apart
-- from the names of files on their way.
use artel.Common.{
  ℕ, ◌/◌, ◌%◌, ◌<◌, ◌≡◌, refl, ap, sym, ◌∙◌, inl, inr, Bool, true, false, none, some, [], ◌∷◌, ◌++◌,
  append_assoc, arith, Bool-cases, length, length-append,
}
use artel.Protocol.Bytes.{Bytes, bytes_eq, bytes_eq→eq}
use artel.Protocol.Ids.Hex.{hex_lower, to_hex, length-to_hex, AllBytes}
use artel.Store.Fs.Names.{
  attachment_file_suffix, tmp_suffix, attachment_filename, decode_lower_hex_nibble, strip_suffix,
  decode_pairs, is_even, decode_attachment_filename, unique_tmp_name, rsplit_dot, is_digit,
  is_lower_hex, all_bytes, is_number, is_attachment_name, split_number, is_attachment_tmp,
}

bytes_eq_longer : (x : ℕ) (xs s t : Bytes) → length s ≡ length t → bytes_eq (x ∷ xs ++ t) s ≡ false
bytes_eq_longer x xs s t h = elim (Bool-cases (bytes_eq (x ∷ xs ++ t) s)) [
  | inr e ↦ e
  | inl e ↦
      let same = ap length (bytes_eq→eq (x ∷ xs ++ t) s e) in
      absurd (omega (arith, length-append xs t))
]

strip_suffix-append :
    (xs s : Bytes) → strip_suffix s s ≡ some [] → strip_suffix s (xs ++ s) ≡ some xs
unfolding strip_suffix
strip_suffix-append [] s h = h
strip_suffix-append (x ∷ xs) s h =
    rw (strip_suffix, bytes_eq_longer x xs s s refl, strip_suffix-append xs s h) refl

strip_suffix_other :
    (xs s t : Bytes)
    → length s ≡ length t
    → strip_suffix s t ≡ none
    → strip_suffix s (xs ++ t) ≡ none
unfolding strip_suffix
strip_suffix_other [] s t l h = h
strip_suffix_other (x ∷ xs) s t l h =
    rw (strip_suffix, bytes_eq_longer x xs s t l, strip_suffix_other xs s t l h) refl

strip_bin :
    (xs : Bytes) → strip_suffix attachment_file_suffix (xs ++ attachment_file_suffix) ≡ some xs
unfolding strip_suffix bytes_eq
strip_bin xs = strip_suffix-append xs attachment_file_suffix refl

strip_tmp : (xs : Bytes) → strip_suffix tmp_suffix (xs ++ tmp_suffix) ≡ some xs
unfolding strip_suffix bytes_eq
strip_tmp xs = strip_suffix-append xs tmp_suffix refl

strip_tmp_bin : (xs : Bytes) → strip_suffix tmp_suffix (xs ++ attachment_file_suffix) ≡ none
unfolding strip_suffix bytes_eq
strip_tmp_bin xs = strip_suffix_other xs tmp_suffix attachment_file_suffix refl refl

decode_lower_hex_nibble-hex_lower :
    (n : ℕ) → n < 16 → decode_lower_hex_nibble (hex_lower n) ≡ some n
unfolding decode_lower_hex_nibble hex_lower
decode_lower_hex_nibble-hex_lower n h = ground arith

decode_pairs-to_hex : (bs : Bytes) → AllBytes bs → decode_pairs (to_hex bs) ≡ some bs
unfolding decode_pairs to_hex
decode_pairs-to_hex [] h = refl
decode_pairs-to_hex (b ∷ bs) h = ground (
  arith,
  decode_lower_hex_nibble-hex_lower (b / 16) (omega arith),
  decode_lower_hex_nibble-hex_lower (b % 16) (omega arith),
  decode_pairs-to_hex bs h.1,
)

is_even-length-to_hex : (bs : Bytes) → is_even (length (to_hex bs)) ≡ true
unfolding is_even
is_even-length-to_hex bs = ground (arith, length-to_hex bs)

-- The file name of a kind decodes to the kind.
pub decode-attachment_filename :
    (valid_utf8 : Bytes → Bool) (kind : Bytes)
    → AllBytes kind
    → valid_utf8 kind ≡ true
    → decode_attachment_filename valid_utf8 (attachment_filename kind) ≡ some kind
unfolding decode_attachment_filename attachment_filename
decode-attachment_filename valid_utf8 kind h ok =
    rw
      (
        decode_attachment_filename,
        strip_bin (to_hex kind),
        is_even-length-to_hex kind,
        decode_pairs-to_hex kind h,
        ok,
      )
      refl

-- The file name of a kind is not taken for a leftover.
pub is_attachment_tmp-attachment_filename :
    (kind : Bytes) → is_attachment_tmp (attachment_filename kind) ≡ false
unfolding is_attachment_tmp attachment_filename
is_attachment_tmp-attachment_filename kind =
    rw (is_attachment_tmp, strip_tmp_bin (to_hex kind)) refl

rsplit_dot_digits : (bs : Bytes) → all_bytes is_digit bs ≡ true → rsplit_dot bs ≡ none
unfolding rsplit_dot all_bytes is_digit
rsplit_dot_digits [] h = refl
rsplit_dot_digits (b ∷ bs) h = ground (arith, rsplit_dot_digits bs)

rsplit_dot-append :
    (xs ys : Bytes) → rsplit_dot ys ≡ none → rsplit_dot (xs ++ b'.' ∷ ys) ≡ some (xs, ys)
unfolding rsplit_dot
rsplit_dot-append [] ys h = rw (rsplit_dot, h) refl
rsplit_dot-append (x ∷ xs) ys h = rw (rsplit_dot, rsplit_dot-append xs ys h) refl

is_number-rsplit_dot : (bs : Bytes) → is_number bs ≡ true → rsplit_dot bs ≡ none
unfolding is_number
is_number-rsplit_dot [] h = cc
is_number-rsplit_dot (b ∷ bs) h = rsplit_dot_digits (b ∷ bs) h

split_number-append :
    (xs ys : Bytes) → is_number ys ≡ true → split_number (xs ++ b'.' ∷ ys) ≡ some xs
unfolding split_number
split_number-append xs ys h =
    rw (split_number, rsplit_dot-append xs ys (is_number-rsplit_dot ys h), h) refl

is_lower_hex-hex_lower : (n : ℕ) → n < 16 → is_lower_hex (hex_lower n) ≡ true
unfolding is_lower_hex is_digit hex_lower
is_lower_hex-hex_lower n h = ground arith

all_bytes-to_hex : (bs : Bytes) → AllBytes bs → all_bytes is_lower_hex (to_hex bs) ≡ true
unfolding all_bytes to_hex
all_bytes-to_hex [] h = refl
all_bytes-to_hex (b ∷ bs) h =
    rw
      (
        all_bytes,
        is_lower_hex-hex_lower (b / 16) (omega arith),
        is_lower_hex-hex_lower (b % 16) (omega arith),
        all_bytes-to_hex bs h.1,
      )
      refl

is_attachment_name-attachment_filename :
    (b : ℕ) (bs : Bytes)
    → AllBytes (b ∷ bs)
    → is_attachment_name (attachment_filename (b ∷ bs)) ≡ true
unfolding is_attachment_name attachment_filename to_hex
is_attachment_name-attachment_filename b bs h =
    rw
      (
        is_attachment_name,
        strip_bin (to_hex (b ∷ bs)),
        is_even-length-to_hex (b ∷ bs),
        all_bytes-to_hex (b ∷ bs) h,
      )
      refl

-- The unique name under which a payload is first written is taken for a leftover.
pub is_attachment_tmp-unique_tmp_name :
    (b : ℕ) (bs pid counter : Bytes)
    → AllBytes (b ∷ bs)
    → is_number pid ≡ true
    → is_number counter ≡ true
    → is_attachment_tmp (unique_tmp_name (attachment_filename (b ∷ bs)) pid counter) ≡ true
unfolding is_attachment_tmp unique_tmp_name
is_attachment_tmp-unique_tmp_name b bs pid counter h hp hc =
    let name = attachment_filename (b ∷ bs) in
    let parts : unique_tmp_name name pid counter
        ≡ ((name ++ b'.' ∷ pid) ++ b'.' ∷ counter) ++ tmp_suffix =
      sym (
        append_assoc (name ++ b'.' ∷ pid) (b'.' ∷ counter) tmp_suffix
        ∙ append_assoc name (b'.' ∷ pid) (b'.' ∷ counter ++ tmp_suffix)) in
    rw
      (
        parts,
        is_attachment_tmp,
        strip_tmp ((name ++ b'.' ∷ pid) ++ b'.' ∷ counter),
        split_number-append (name ++ b'.' ∷ pid) counter hc,
        split_number-append name pid hp,
      )
      (is_attachment_name-attachment_filename b bs h)
