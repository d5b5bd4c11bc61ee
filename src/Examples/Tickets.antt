-- ===== src/Examples/Tickets.antt =====
-- A lawful instance of base32 and postcard for tickets, and runs of the theorems on their text form.
-- Base32 stands in unary here: a byte is that many letters A, and then a B.
use artel.Common.{
  ℕ, zero, suc, ◌+◌, ◌≡◌, inl, refl, ap, ◌∙◌, Option, none, some, List, [], ◌∷◌, arith,
  if◌then◌else◌, ◌==◌, ok,
}
use artel.Protocol.Bytes.{Bytes, codes}
use artel.Protocol.Capability.{Capability, read, read_write}
use artel.Protocol.Ticket.{TicketCodec, SessionTicket, encode, decode}
use artel.Protocol.Ticket.Text.{AllBase32, TicketCodecLaws, decode-encode, encode_plain}

unfoldable unary : ℕ → Bytes → Bytes
unary zero rest = b'B' ∷ rest
unary (suc n) rest = b'A' ∷ unary n rest

unfoldable base32 : Bytes → Bytes
base32 [] = []
base32 (b ∷ bs) = unary b (base32 bs)

-- Reads letters, with the count of the byte at hand.
unfoldable read_unary : ℕ → Bytes → Option Bytes
read_unary n [] = some []
read_unary n (c ∷ cs) =
    let more = read_unary (suc n) cs in
    let done = read_unary 0 cs in
    if c == b'A' then more else elim done [ none ↦ none | some bs ↦ some (n ∷ bs) ]

read_unary-unary :
    (n b : ℕ) (rest bs : Bytes)
    → read_unary 0 rest ≡ some bs
    → read_unary n (unary b rest) ≡ some ((n + b) ∷ bs)
unfolding read_unary unary
read_unary-unary n zero rest bs h = ground arith
read_unary-unary n (suc b) rest bs h =
    let more = read_unary-unary (suc n) b rest bs h in ground arith

read_unary-base32 : (bs : Bytes) → read_unary 0 (base32 bs) ≡ some bs
unfolding base32
read_unary-base32 [] = unfold read_unary in refl
read_unary-base32 (b ∷ bs) =
    read_unary-unary 0 b (base32 bs) bs (read_unary-base32 bs) ∙ ground arith

unary-AllBase32 : (n : ℕ) (rest : Bytes) → AllBase32 rest → AllBase32 (unary n rest)
unfolding unary
unary-AllBase32 zero rest h = (inl (omega arith, omega arith), h)
unary-AllBase32 (suc n) rest h = (inl (omega arith, omega arith), unary-AllBase32 n rest h)

base32-AllBase32 : (bs : Bytes) → AllBase32 (base32 bs)
unfolding base32
base32-AllBase32 [] = tt
base32-AllBase32 (b ∷ bs) = unary-AllBase32 b (base32 bs) (base32-AllBase32 bs)

-- A list of texts: 2 and a byte, 1 in front of each text, and 0 at the end.
unfoldable write_text : Bytes → Bytes → Bytes
write_text [] rest = rest
write_text (b ∷ bs) rest = 2 ∷ b ∷ write_text bs rest

unfoldable write_all : List Bytes → Bytes → Bytes
write_all [] rest = 0 ∷ rest
write_all (a ∷ texts) rest = 1 ∷ write_text a (write_all texts rest)

unfoldable push_byte :
    ℕ → Option ((Bytes × List Bytes) × Bytes) → Option ((Bytes × List Bytes) × Bytes)
push_byte b none = none
push_byte b (some ((text, texts), rest)) = some ((b ∷ text, texts), rest)

unfoldable push_text : Option ((Bytes × List Bytes) × Bytes) → Option ((Bytes × List Bytes) × Bytes)
push_text none = none
push_text (some ((text, texts), rest)) = some (([], text ∷ texts), rest)

unfoldable read_all : Bytes → Option ((Bytes × List Bytes) × Bytes)
read_all [] = none
read_all (tag ∷ []) = if tag == 0 then some (([], []), []) else none
read_all (tag ∷ b ∷ rest) =
    let next = read_all (b ∷ rest) in
    let later = read_all rest in
    if tag == 0
    then some (([], []), b ∷ rest)
    else if tag == 1
    then push_text next
    else push_byte b later

read_all-text :
    (a : Bytes) (rest : Bytes) (texts : List Bytes) (end : Bytes)
    → read_all rest ≡ some (([], texts), end)
    → read_all (write_text a rest) ≡ some ((a, texts), end)
unfolding write_text read_all push_byte
read_all-text [] rest texts end h = h
read_all-text (b ∷ bs) rest texts end h = ap (push_byte b) (read_all-text bs rest texts end h)

read_all-one :
    (rest : Bytes) (x : (Bytes × List Bytes) × Bytes)
    → read_all rest ≡ some x
    → read_all (1 ∷ rest) ≡ push_text (some x)
unfolding read_all
read_all-one [] x h = cc
read_all-one (b ∷ bs) x h = ap push_text h

read_all-write_all :
    (texts : List Bytes) (end : Bytes) → read_all (write_all texts end) ≡ some (([], texts), end)
unfolding write_all
read_all-write_all [] [] = unfold read_all in refl
read_all-write_all [] (e ∷ end) = unfold read_all in refl
read_all-write_all (a ∷ texts) end =
    read_all-one (write_text a (write_all texts end)) ((a, texts), end)
      (read_all-text a (write_all texts end) texts end (read_all-write_all texts end))
    ∙ unfold push_text in refl

unfoldable cap_code : Capability → ℕ
cap_code read = 0
cap_code read_write = 1

unfoldable cap_of : ℕ → Capability
cap_of c = if c == 0 then read else read_write

cap_of-cap_code : (c : Capability) → cap_of (cap_code c) ≡ c
unfolding cap_of cap_code
cap_of-cap_code read = refl
cap_of-cap_code read_write = refl

unfoldable write_body : SessionTicket → Bytes
write_body t =
    t.ticket_id
    ∷ t.session_id
    ∷ t.host_addr.peer_id
    ∷ cap_code t.granted_cap
    ∷ t.expiry_ms
    ∷ t.host_epoch
    ∷ write_all (t.host_addr.relay_url ∷ t.host_addr.direct_addrs) t.cap_sig

unfoldable ticket_of :
    ℕ → ℕ → ℕ → ℕ → ℕ → ℕ → Option ((Bytes × List Bytes) × Bytes) → Option SessionTicket
ticket_of i s p c x e none = none
ticket_of i s p c x e (some ((_, []), sig)) = none
ticket_of i s p c x e (some ((_, relay ∷ addrs), sig)) = some (record {
  ticket_id = i;
  session_id = s;
  host_addr = record { peer_id = p; relay_url = relay; direct_addrs = addrs };
  granted_cap = cap_of c;
  expiry_ms = x;
  host_epoch = e;
  cap_sig = sig;
})

unfoldable read_body : Bytes → Option SessionTicket
read_body (i ∷ s ∷ p ∷ c ∷ x ∷ e ∷ rest) = ticket_of i s p c x e (read_all rest)
read_body _ = none

read_body-write_body : (t : SessionTicket) → read_body (write_body t) ≡ some t
unfolding read_body write_body
read_body-write_body t =
    ap
      (ticket_of t.ticket_id t.session_id t.host_addr.peer_id (cap_code t.granted_cap) t.expiry_ms
        t.host_epoch)
      (read_all-write_all (t.host_addr.relay_url ∷ t.host_addr.direct_addrs) t.cap_sig)
    ∙ unfold ticket_of in
      ap (λ c. some (record t { granted_cap = c })) (cap_of-cap_code t.granted_cap)

abbrev unary_codec : TicketCodec
unary_codec = record {
  base32_encode = base32;
  base32_decode = read_unary 0;
  body_encode = write_body;
  body_decode = read_body;
}

unary_laws : TicketCodecLaws unary_codec
unary_laws = record {
  base32_round = read_unary-base32;
  base32_letters = base32-AllBase32;
  body_round = read_body-write_body;
}

abbrev sample : SessionTicket
sample = record {
  ticket_id = 3;
  session_id = 7;
  host_addr = record { peer_id = 5; relay_url = codes "r"; direct_addrs = codes "a" ∷ [] };
  granted_cap = read_write;
  expiry_ms = 0;
  host_epoch = 2;
  cap_sig = 1 ∷ 9 ∷ [];
}

decode-encode_example : decode unary_codec (encode unary_codec sample) ≡ ok sample
decode-encode_example =
    decode-encode unary_codec unary_laws sample (encode unary_codec sample)
      (encode_plain unary_codec unary_laws sample)
