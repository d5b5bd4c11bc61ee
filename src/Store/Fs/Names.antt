-- ===== src/Store/Fs/Names.antt =====
-- crates/artel-daemon/src/store/fs.rs: the file names of attachments, and of the files that are
-- written beside them. A file name is a byte string, and a kind is the bytes of a `str`.
pub mod Laws
use artel.Common.{
  ℕ, suc, ◌+◌, ◌-◌, ◌*◌, ◌%◌, Bool, true, false, Option, none, some, List, [], ◌∷◌, ◌++◌,
  if◌then◌else◌, leb, ◌==◌, ◌&&◌, length,
}
use artel.Protocol.Bytes.{Bytes, codes, bytes_eq}
use artel.Protocol.Ids.Hex.{to_hex}

abbrev pub attachment_file_suffix : Bytes
attachment_file_suffix = codes ".bin"

abbrev pub tmp_suffix : Bytes
tmp_suffix = codes ".tmp"

-- Two lowercase hex digits for each byte, then the suffix.
unfoldable pub attachment_filename : Bytes → Bytes
attachment_filename kind = to_hex kind ++ attachment_file_suffix

unfoldable pub decode_lower_hex_nibble : ℕ → Option ℕ
decode_lower_hex_nibble c =
    if leb b'0' c && leb c b'9'
    then some (c - b'0')
    else if leb b'a' c && leb c b'f'
    then some (c - b'a' + 10)
    else none

abbrev map_some : (Bytes → Bytes) → Option Bytes → Option Bytes
map_some g none = none
map_some g (some bs) = some (g bs)

-- `str::strip_suffix`
unfoldable pub strip_suffix : Bytes → Bytes → Option Bytes
strip_suffix suffix [] = if bytes_eq [] suffix then some [] else none
strip_suffix suffix (c ∷ cs) =
    let rest = strip_suffix suffix cs in
    if bytes_eq (c ∷ cs) suffix then some [] else map_some (c ∷◌) rest

abbrev both : Option ℕ → Option ℕ → Option Bytes → Option Bytes
both (some hi) (some lo) (some out) = some ((hi * 16 + lo) ∷ out)
both _ _ _ = none

-- The loop over pairs of characters.
unfoldable pub decode_pairs : Bytes → Option Bytes
unfolding decode_lower_hex_nibble
decode_pairs (hi ∷ lo ∷ rest) =
    both (decode_lower_hex_nibble hi) (decode_lower_hex_nibble lo) (decode_pairs rest)
decode_pairs _ = some []

unfoldable pub is_even : ℕ → Bool
is_even n = n % 2 == 0

abbrev checked_utf8 : (Bytes → Bool) → Option Bytes → Option Bytes
checked_utf8 valid none = none
checked_utf8 valid (some bs) = if valid bs then some bs else none

-- `valid_utf8` is `String::from_utf8(bytes).is_ok()`.
unfoldable pub decode_attachment_filename : (Bytes → Bool) → Bytes → Option Bytes
unfolding strip_suffix decode_pairs is_even
decode_attachment_filename valid_utf8 name = elim (strip_suffix attachment_file_suffix name) [
  | none ↦ none
  | some stem ↦ if is_even (length stem) then checked_utf8 valid_utf8 (decode_pairs stem) else none
]

-- `unique_tmp_path`, with the process id and the counter in decimal digits.
unfoldable pub unique_tmp_name : Bytes → Bytes → Bytes → Bytes
unique_tmp_name name pid counter = name ++ b'.' ∷ (pid ++ b'.' ∷ (counter ++ tmp_suffix))

-- `str::rsplit_once('.')`
unfoldable pub rsplit_dot : Bytes → Option (Bytes × Bytes)
rsplit_dot [] = none
rsplit_dot (c ∷ cs) = elim (rsplit_dot cs) [
  | some (front, back) ↦ some (c ∷ front, back)
  | none ↦ if c == b'.' then some ([], cs) else none
]

unfoldable pub is_digit : ℕ → Bool
is_digit c = leb b'0' c && leb c b'9'

unfoldable pub is_lower_hex : ℕ → Bool
unfolding is_digit
is_lower_hex c = if is_digit c then true else leb b'a' c && leb c b'f'

unfoldable pub all_bytes : (ℕ → Bool) → Bytes → Bool
all_bytes test [] = true
all_bytes test (c ∷ cs) = test c && all_bytes test cs

-- Not empty, and digits only.
unfoldable pub is_number : Bytes → Bool
unfolding is_digit all_bytes
is_number [] = false
is_number (c ∷ cs) = all_bytes is_digit (c ∷ cs)

-- The last test of `is_attachment_tmp`, on the name in front of both numbers.
unfoldable pub is_attachment_name : Bytes → Bool
unfolding strip_suffix is_even is_lower_hex all_bytes
is_attachment_name name = elim (strip_suffix attachment_file_suffix name) [
  | none ↦ false
  | some [] ↦ false
  | some (c ∷ stem) ↦
      if is_even (length (c ∷ stem)) then all_bytes is_lower_hex (c ∷ stem) else false
]

-- A name in front of a number: `none` if there is none.
unfoldable pub split_number : Bytes → Option Bytes
unfolding rsplit_dot is_number
split_number name = elim (rsplit_dot name) [
  | none ↦ none
  | some (front, back) ↦ if is_number back then some front else none
]

unfoldable pub is_attachment_tmp : Bytes → Bool
unfolding strip_suffix split_number is_attachment_name
is_attachment_tmp name = elim (strip_suffix tmp_suffix name) [
  | none ↦ false
  | some stem ↦ elim (split_number stem) [
    | none ↦ false
    | some before_counter ↦ elim (split_number before_counter) [
      | none ↦ false
      | some before_pid ↦ is_attachment_name before_pid
    ]
  ]
]
