-- ===== src/Protocol/Signing/Layout.antt =====
-- crates/artel-protocol/src/signing.rs: the signed byte strings determine what they were built from.
use artel.Common.{
  ℕ, ◌<◌, ◌^◌, ◌≡◌, refl, Option, some, [], ◌++◌, arith, length, get_elem?, ◌∙◌, sym,
}
use artel.Protocol.Bytes.{
  Bytes, be_bytes, length-be_bytes, append-eq_parts, be_bytes-append_injective, be_bytes_injective,
  cons_injective, append_injective_right,
}
use artel.Protocol.Ids.{SessionId, TicketId, PeerId, Seq}
use artel.Protocol.Capability.{Capability}
use artel.Protocol.Message.{MessageKind, SigBytes}
use artel.Protocol.Signing.{
  kind_tag, ctrl_frame_byte, cap_byte, CtrlFrame, canonical_head, canonical_bytes,
  seq_canonical_bytes, ctrl_canonical_bytes, ticket_cap_canonical_bytes, domain_tag, seq_domain_tag,
  ctrl_domain_tag, ticket_cap_domain_tag,
}

-- What a signature can be made over: a message body, a place in the log, a control frame, or the
-- claim of a ticket.
pub data Scope : Type 0 where
  body : SessionId → ℕ → ℕ → PeerId → MessageKind → Bytes → Bytes → Scope
  place : SessionId → Seq → SigBytes → Scope
  control : SessionId → CtrlFrame → ℕ → Scope
  claim : TicketId → SessionId → Capability → ℕ → ℕ → Scope

-- The bytes that are signed for it.
unfoldable pub signed_bytes : Scope → Option Bytes
signed_bytes (body session version timestamp_ms peer kind action payload) =
    canonical_bytes session version timestamp_ms (record { id = peer; display_name = [] }) kind
      action payload
signed_bytes (place session seq author_sig) = some (seq_canonical_bytes session seq author_sig)
signed_bytes (control session frame host_epoch) =
    some (ctrl_canonical_bytes session frame host_epoch)
signed_bytes (claim ticket session cap expiry_ms host_epoch) =
    some (ticket_cap_canonical_bytes ticket session cap expiry_ms host_epoch)

-- Each number fits its Rust type.
abbrev pub InRange : Scope → Type 0
InRange (body session version timestamp_ms peer kind action payload) =
    (session < 256 ^ 16) × (timestamp_ms < 256 ^ 8) × (peer < 256 ^ 32)
InRange (place session seq author_sig) = (session < 256 ^ 16) × (seq < 256 ^ 8)
InRange (control session frame host_epoch) = (session < 256 ^ 16) × (host_epoch < 256 ^ 8)
InRange (claim ticket session cap expiry_ms host_epoch) =
    (ticket < 256 ^ 16) × (session < 256 ^ 16) × (expiry_ms < 256 ^ 8) × (host_epoch < 256 ^ 8)

kind_tag_injective : (a b : MessageKind) → kind_tag a ≡ kind_tag b → a ≡ b
unfolding kind_tag
kind_tag_injective a b e = ground arith

ctrl_frame_byte_injective : (a b : CtrlFrame) → ctrl_frame_byte a ≡ ctrl_frame_byte b → a ≡ b
unfolding ctrl_frame_byte
ctrl_frame_byte_injective a b e = ground arith

cap_byte_injective : (a b : Capability) → cap_byte a ≡ cap_byte b → a ≡ b
unfolding cap_byte
cap_byte_injective a b e = ground arith

control_injective :
    (s t : SessionId) (f g : CtrlFrame) (m n : ℕ)
    → InRange (control s f m)
    → InRange (control t g n)
    → ctrl_canonical_bytes s f m ≡ ctrl_canonical_bytes t g n
    → control s f m ≡ control t g n
unfolding ctrl_canonical_bytes
control_injective s t f g m n a b e =
    let r = append_injective_right ctrl_domain_tag _ _ e in
    let (es, r1) = be_bytes-append_injective 16 s t _ _ a.0 b.0 r in
    let (ef, r2) = cons_injective (ctrl_frame_byte f) (ctrl_frame_byte g) _ _ r1 in
    cc (es, ctrl_frame_byte_injective f g ef, be_bytes_injective 8 m n a.1 b.1 r2)

place_injective :
    (s t : SessionId) (m n : Seq) (p q : SigBytes)
    → InRange (place s m p)
    → InRange (place t n q)
    → seq_canonical_bytes s m p ≡ seq_canonical_bytes t n q
    → place s m p ≡ place t n q
unfolding seq_canonical_bytes
place_injective s t m n p q a b e =
    let r = append_injective_right seq_domain_tag _ _ e in
    let (es, r1) = be_bytes-append_injective 16 s t _ _ a.0 b.0 r in
    let (em, ep) = be_bytes-append_injective 8 m n _ _ a.1 b.1 r1 in cc (es, em, ep)

claim_injective :
    (i j : TicketId) (s t : SessionId) (c d : Capability) (x y m n : ℕ)
    → InRange (claim i s c x m)
    → InRange (claim j t d y n)
    → ticket_cap_canonical_bytes i s c x m ≡ ticket_cap_canonical_bytes j t d y n
    → claim i s c x m ≡ claim j t d y n
unfolding ticket_cap_canonical_bytes
claim_injective i j s t c d x y m n a b e =
    let r = append_injective_right ticket_cap_domain_tag _ _ e in
    let (ei, r1) = be_bytes-append_injective 16 i j _ _ a.0 b.0 r in
    let (es, r2) = be_bytes-append_injective 16 s t _ _ a.1 b.1 r1 in
    let (ec, r3) = cons_injective (cap_byte c) (cap_byte d) _ _ r2 in
    let (ex, r4) = be_bytes-append_injective 8 x y _ _ a.2 b.2 r3 in
    cc (ei, es, cap_byte_injective c d ec, ex, be_bytes_injective 8 m n a.3 b.3 r4)

-- The head has one length for all bodies.
length-canonical_head :
    (s : SessionId) (u m : ℕ) (p : PeerId) (k : MessageKind)
    → length (canonical_head s u m p k) ≡ 70
unfolding canonical_head be_bytes
length-canonical_head s u m p k = refl

canonical_head_injective :
    (s t : SessionId) (u v m n : ℕ) (p q : PeerId) (k l : MessageKind)
    → InRange (body s u m p k [] [])
    → InRange (body t v n q l [] [])
    → canonical_head s u m p k ≡ canonical_head t v n q l
    → (s ≡ t) × (u ≡ v) × (m ≡ n) × (p ≡ q) × (k ≡ l)
unfolding canonical_head
canonical_head_injective s t u v m n p q k l a b e =
    let r = append_injective_right domain_tag _ _ e in
    let (es, r1) = be_bytes-append_injective 16 s t _ _ a.0 b.0 r in
    let (eu, r2) = cons_injective u v _ _ r1 in
    let (em, r3) = be_bytes-append_injective 8 m n _ _ a.1 b.1 r2 in
    let (ep, r4) = be_bytes-append_injective 32 p q _ _ a.2 b.2 r3 in
    let (ek, _) = cons_injective (kind_tag k) (kind_tag l) _ _ r4 in
    (es, eu, em, ep, kind_tag_injective k l ek)

-- The variable part: each text behind its length.
abbrev tail_bytes : Bytes → Bytes → Bytes
tail_bytes action payload =
    be_bytes 4 (length action) ++ (action ++ (be_bytes 4 (length payload) ++ payload))

tail_bytes_injective :
    (us vs ws xs : Bytes)
    → length us < 256 ^ 4
    → length ws < 256 ^ 4
    → tail_bytes us vs ≡ tail_bytes ws xs
    → (us ≡ ws) × (vs ≡ xs)
tail_bytes_injective us vs ws xs a b e =
    let (el, r) = be_bytes-append_injective 4 (length us) (length ws) _ _ a b e in
    let (eu, r1) = append-eq_parts us ws _ _ el r in
    (
      eu,
      (append-eq_parts (be_bytes 4 (length vs)) (be_bytes 4 (length xs)) vs xs
          (omega (arith, length-be_bytes 4 (length vs), length-be_bytes 4 (length xs))) r1).1,
    )

signed_bytes-body :
    (s : SessionId) (u m : ℕ) (p : PeerId) (k : MessageKind) (us vs bytes : Bytes)
    → signed_bytes (body s u m p k us vs) ≡ some bytes
    → (length us < 256 ^ 4) × (canonical_head s u m p k ++ tail_bytes us vs ≡ bytes)
unfolding signed_bytes canonical_bytes
signed_bytes-body s u m p k us vs bytes e = ground arith

some_ℕ_injective : (x y : ℕ) → some x ≡ some y → x ≡ y
some_ℕ_injective x y e = ground arith

some_injective : (x y : Bytes) → some x ≡ some y → x ≡ y
some_injective x y e = ground arith

body_injective :
    (s t : SessionId) (u v m n : ℕ) (p q : PeerId) (k l : MessageKind) (us vs ws xs bytes : Bytes)
    → InRange (body s u m p k us vs)
    → InRange (body t v n q l ws xs)
    → signed_bytes (body s u m p k us vs) ≡ some bytes
    → signed_bytes (body t v n q l ws xs) ≡ some bytes
    → body s u m p k us vs ≡ body t v n q l ws xs
body_injective s t u v m n p q k l us vs ws xs bytes a b e f =
    let (hu, x) = signed_bytes-body s u m p k us vs bytes e in
    let (hw, y) = signed_bytes-body t v n q l ws xs bytes f in
    let (heads, tails) =
      append-eq_parts (canonical_head s u m p k) (canonical_head t v n q l) _ _
        (length-canonical_head s u m p k ∙ sym (length-canonical_head t v n q l)) (x ∙ sym y) in
    let h = canonical_head_injective s t u v m n p q k l a b heads in
    let w = tail_bytes_injective us vs ws xs hu hw tails in cc (h.0, h.1, h.2, h.3, h.4, w.0, w.1)

-- The four tags differ in their ninth letter.
abbrev marker : Scope → ℕ
marker (body _ _ _ _ _ _ _) = b'g'
marker (place _ _ _) = b'q'
marker (control _ _ _) = b'r'
marker (claim _ _ _ _ _) = b'c'

signed_bytes-marker :
    (x : Scope) (bytes : Bytes) → signed_bytes x ≡ some bytes → get_elem? bytes 8 ≡ some (marker x)
unfolding signed_bytes canonical_head seq_canonical_bytes ctrl_canonical_bytes
    ticket_cap_canonical_bytes
signed_bytes-marker (body s u m p k us vs) bytes e =
    rw (← (signed_bytes-body s u m p k us vs bytes e).1)
signed_bytes-marker (place s m p) bytes e = rw (← some_injective _ _ e)
signed_bytes-marker (control s f m) bytes e = rw (← some_injective _ _ e)
signed_bytes-marker (claim i s c x m) bytes e = rw (← some_injective _ _ e)

marker-eq :
    (x y : Scope) (bytes : Bytes)
    → signed_bytes x ≡ some bytes
    → signed_bytes y ≡ some bytes
    → marker x ≡ marker y
marker-eq x y bytes e f =
    some_ℕ_injective _ _ (sym (signed_bytes-marker x bytes e) ∙ signed_bytes-marker y bytes f)

-- Two scopes with numbers in range and one signed byte string are equal: kind, session and every
-- field that is signed.
pub signed_bytes_injective :
    (x y : Scope) (bytes : Bytes)
    → InRange x
    → InRange y
    → signed_bytes x ≡ some bytes
    → signed_bytes y ≡ some bytes
    → x ≡ y
unfolding signed_bytes
signed_bytes_injective (body s u m p k us vs) (body t v n q l ws xs) bytes a b e f =
    body_injective s t u v m n p q k l us vs ws xs bytes a b e f
signed_bytes_injective (place s m p) (place t n q) bytes a b e f =
    place_injective s t m n p q a b (ground arith)
signed_bytes_injective (control s f m) (control t g n) bytes a b e h =
    control_injective s t f g m n a b (ground arith)
signed_bytes_injective (claim i s c x m) (claim j t d y n) bytes a b e f =
    claim_injective i j s t c d x y m n a b (ground arith)
signed_bytes_injective x y bytes a b e f = absurd (omega (arith, marker-eq x y bytes e f))
