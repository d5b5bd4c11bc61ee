-- ===== src/Protocol/Ids/Hex.antt =====
-- crates/artel-protocol/src/ids.rs: lowercase hex, written by `PeerId::to_hex` and the JSON
-- serializer, and read back by `visit_str` with `decode_nibble`.
use artel.Common.{
  ℕ, zero, suc, ◌+◌, ◌-◌, ◌*◌, ◌/◌, ◌%◌, ◌<◌, ◌≡◌, refl, ap, sym, subst, ◌∙◌, Option, none, some,
  [], ◌∷◌, arith, length, if◌then◌else◌, leb, ◌==◌, ◌&&◌,
}
use artel.Protocol.Bytes.{Bytes}

-- `HEX_LOWER[n]`
unfoldable pub hex_lower : ℕ → ℕ
hex_lower n = if leb n 9 then b'0' + n else b'a' + n - 10

-- `to_hex`: the high half of each byte, then the low half.
unfoldable pub to_hex : Bytes → Bytes
unfolding hex_lower
to_hex [] = []
to_hex (b ∷ bs) = hex_lower (b / 16) ∷ hex_lower (b % 16) ∷ to_hex bs

unfoldable pub decode_nibble : ℕ → Option ℕ
decode_nibble b =
    if leb b'0' b && leb b b'9'
    then some (b - b'0')
    else if leb b'a' b && leb b b'f'
    then some (b - b'a' + 10)
    else if leb b'A' b && leb b b'F'
    then some (b - b'A' + 10)
    else none

abbrev push_byte : Option ℕ → Option ℕ → Option Bytes → Option Bytes
push_byte (some hi) (some lo) (some out) = some ((hi * 16 + lo) ∷ out)
push_byte _ _ _ = none

-- The loop over `as_chunks::<2>()`, which leaves an odd last character out.
unfoldable pub decode_chunks : Bytes → Option Bytes
unfolding decode_nibble
decode_chunks (a ∷ b ∷ rest) = push_byte (decode_nibble a) (decode_nibble b) (decode_chunks rest)
decode_chunks _ = some []

-- `visit_str` for an array of `n` bytes.
unfoldable pub visit_str : ℕ → Bytes → Option Bytes
unfolding decode_chunks
visit_str n s = if length s == n * 2 then decode_chunks s else none

-- Every entry is a byte.
abbrev pub AllBytes : Bytes → Type 0
AllBytes [] = Unit {0}
AllBytes (b ∷ bs) = (b < 256) × AllBytes bs

decode_nibble-hex_lower : (n : ℕ) → n < 16 → decode_nibble (hex_lower n) ≡ some n
unfolding decode_nibble hex_lower
decode_nibble-hex_lower n h = ground arith

pub length-to_hex : (bs : Bytes) → length (to_hex bs) ≡ length bs * 2
unfolding to_hex
length-to_hex [] = refl
length-to_hex (b ∷ bs) = omega (arith, length-to_hex bs)

decode_chunks-to_hex : (bs : Bytes) → AllBytes bs → decode_chunks (to_hex bs) ≡ some bs
unfolding to_hex decode_chunks
decode_chunks-to_hex [] h = refl
decode_chunks-to_hex (b ∷ bs) h = ground (
  arith,
  decode_nibble-hex_lower (b / 16) (omega arith),
  decode_nibble-hex_lower (b % 16) (omega arith),
  decode_chunks-to_hex bs h.1,
)

-- What `to_hex` writes for a byte array, `visit_str` of that width reads back as the same bytes.
pub visit_str-to_hex : (bs : Bytes) → AllBytes bs → visit_str (length bs) (to_hex bs) ≡ some bs
unfolding visit_str
visit_str-to_hex bs h = ground (arith, length-to_hex bs, decode_chunks-to_hex bs h)

decode_nibble-lt : (c n : ℕ) → decode_nibble c ≡ some n → n < 16
unfolding decode_nibble
decode_nibble-lt c n h = ground arith

push_byte-AllBytes :
    (hi lo : Option ℕ) (rest : Option Bytes) (out : Bytes)
    → ((n : ℕ) → hi ≡ some n → n < 16)
    → ((n : ℕ) → lo ≡ some n → n < 16)
    → ((r : Bytes) → rest ≡ some r → AllBytes r)
    → push_byte hi lo rest ≡ some out
    → AllBytes out
push_byte-AllBytes (some h) (some l) (some r) [] bh bl br e = tt
push_byte-AllBytes (some h) (some l) (some r) (o ∷ out) bh bl br e =
    let small : h < 16 = bh h refl in
    let low : l < 16 = bl l refl in
    let head : h * 16 + l ≡ o = ground arith in
    let tail : r ≡ out = ground arith in (omega arith, subst AllBytes tail (br r refl))
push_byte-AllBytes _ _ _ out bh bl br e = cc

decode_chunks-AllBytes : (s out : Bytes) → decode_chunks s ≡ some out → AllBytes out
unfolding decode_chunks
decode_chunks-AllBytes (a ∷ b ∷ rest) out e =
    push_byte-AllBytes (decode_nibble a) (decode_nibble b) (decode_chunks rest) out
      (decode_nibble-lt a) (decode_nibble-lt b) (decode_chunks-AllBytes rest) e
decode_chunks-AllBytes (a ∷ []) [] e = tt
decode_chunks-AllBytes (a ∷ []) (o ∷ out) e = cc
decode_chunks-AllBytes [] [] e = tt
decode_chunks-AllBytes [] (o ∷ out) e = cc

push_byte-length :
    (hi lo : Option ℕ) (rest : Option Bytes) (out : Bytes) (n : ℕ)
    → ((r : Bytes) → rest ≡ some r → length r ≡ n)
    → push_byte hi lo rest ≡ some out
    → length out ≡ suc n
push_byte-length (some h) (some l) (some r) [] n br e = cc
push_byte-length (some h) (some l) (some r) (o ∷ out) n br e =
    let tail : r ≡ out = ground arith in ap suc (ap length (sym tail) ∙ br r refl)
push_byte-length _ _ _ out n br e = cc

decode_chunks-length :
    (s out : Bytes) (n : ℕ) → length s ≡ n * 2 → decode_chunks s ≡ some out → length out ≡ n
unfolding decode_chunks
decode_chunks-length (a ∷ b ∷ rest) out zero l e = absurd (omega arith)
decode_chunks-length (a ∷ b ∷ rest) out (suc n) l e =
    push_byte-length (decode_nibble a) (decode_nibble b) (decode_chunks rest) out n
      (λ r p. decode_chunks-length rest r n (omega arith) p) e
decode_chunks-length (a ∷ []) out n l e = absurd (omega arith)
decode_chunks-length [] [] n l e = omega arith
decode_chunks-length [] (o ∷ out) n l e = cc

-- A text that `visit_str` accepts as `n` bytes has 2 n characters, and gives exactly `n` numbers
-- below 256.
pub visit_str-AllBytes :
    (n : ℕ) (s out : Bytes)
    → visit_str n s ≡ some out
    → (length s ≡ n * 2) × (length out ≡ n) × AllBytes out
unfolding visit_str
visit_str-AllBytes n s out e =
    let len : length s ≡ n * 2 = ground arith in
    let chunks : decode_chunks s ≡ some out = ground arith in
    (len, decode_chunks-length s out n len chunks, decode_chunks-AllBytes s out chunks)
