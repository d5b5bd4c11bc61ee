-- ===== src/Protocol/Ticket/Text.antt =====
-- crates/artel-protocol/src/ticket.rs: what `encode` writes, `decode` reads back.
use artel.Common.{
  ℕ, ◌≤◌, ◌≡◌, ◌≢◌, ◌⊎◌, refl, ap, ◌∙◌, some, [], ◌∷◌, ◌++◌, arith, filter, not, ok, err,
}
use artel.Protocol.Bytes.{Bytes}
use artel.Protocol.Ticket.{
  TicketCodec, SessionTicket, unsupported_version, ticket_version, ticket_prefix, ascii_lower,
  ascii_upper, map_bytes, is_whitespace, strip_prefix, encode, decode, decode_frame,
}

-- The letters of base32: A to Z and 2 to 7.
abbrev pub AllBase32 : Bytes → Type 0
AllBase32 [] = Unit {0}
AllBase32 (c ∷ cs) = (((b'A' ≤ c) × (c ≤ b'Z')) ⊎ ((b'2' ≤ c) × (c ≤ b'7'))) × AllBase32 cs

-- What the two crates document: decoding undoes encoding, and base32 text has that alphabet.
pub record TicketCodecLaws (codec : TicketCodec) : Type 0 where
  pub base32_round : (bs : Bytes) → codec.base32_decode (codec.base32_encode bs) ≡ some bs
  pub base32_letters : (bs : Bytes) → AllBase32 (codec.base32_encode bs)
  pub body_round : (t : SessionTicket) → codec.body_decode (codec.body_encode t) ≡ some t

upper-lower : (cs : Bytes) → AllBase32 cs → map_bytes ascii_upper (map_bytes ascii_lower cs) ≡ cs
unfolding map_bytes ascii_upper ascii_lower
upper-lower [] h = refl
upper-lower (c ∷ cs) h = ground (arith, upper-lower cs h.1)

-- Lowered base32 text has no whitespace to drop.
filter-lower :
    (cs : Bytes)
    → AllBase32 cs
    → filter (λ c. not (is_whitespace c)) (map_bytes ascii_lower cs) ≡ map_bytes ascii_lower cs
unfolding filter map_bytes ascii_lower is_whitespace
filter-lower [] h = refl
filter-lower (c ∷ cs) h = ground (arith, filter-lower cs h.1)

filter-prefix :
    (cs : Bytes)
    → filter (λ c. not (is_whitespace c)) (ticket_prefix ++ cs)
      ≡ ticket_prefix ++ filter (λ c. not (is_whitespace c)) cs
unfolding filter is_whitespace
filter-prefix cs = refl

strip_prefix-append : (ps s : Bytes) → strip_prefix ps (ps ++ s) ≡ some s
unfolding strip_prefix
strip_prefix-append [] s = refl
strip_prefix-append (p ∷ ps) s = ground (arith, strip_prefix-append ps s)

module _ (codec : TicketCodec) (laws : TicketCodecLaws codec) where
  open laws use {base32_round, base32_letters, body_round}

  -- A text that, without its whitespace, is the text form of a frame decodes as that frame.
  decode-frame :
      (raw frame : Bytes)
      → filter (λ c. not (is_whitespace c)) raw
        ≡ ticket_prefix ++ map_bytes ascii_lower (codec.base32_encode frame)
      → decode codec raw ≡ decode_frame codec frame
  unfolding decode
  decode-frame raw frame h = rw (
    h,
    strip_prefix-append,
    upper-lower (codec.base32_encode frame) (base32_letters frame),
    base32_round,
    decode,
  )

  -- A ticket's text form decodes to the ticket, also with whitespace put anywhere into it.
  pub decode-encode :
      (t : SessionTicket) (raw : Bytes)
      → filter (λ c. not (is_whitespace c)) raw ≡ encode codec t
      → decode codec raw ≡ ok t
  unfolding encode decode_frame
  decode-encode t raw h = rw (decode-frame raw _ h, body_round)

  pub encode_plain :
      (t : SessionTicket) → filter (λ c. not (is_whitespace c)) (encode codec t) ≡ encode codec t
  unfolding encode
  encode_plain t =
      filter-prefix _ ∙ ap (λ cs. ticket_prefix ++ cs) (filter-lower _ (base32_letters _))

  -- A frame with any other version byte is refused by that version, whatever stands behind it.
  pub decode_other_version :
      (version : ℕ) (rest : Bytes)
      → version ≢ ticket_version
      → decode codec (ticket_prefix ++ map_bytes ascii_lower (codec.base32_encode (version ∷ rest)))
        ≡ err (unsupported_version version)
  unfolding decode_frame
  decode_other_version version rest h =
      decode-frame _ (version ∷ rest) (
        filter-prefix _
        ∙ ap (λ cs. ticket_prefix ++ cs) (filter-lower _ (base32_letters (version ∷ rest))))
      ∙ ground arith
