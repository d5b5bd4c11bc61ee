-- ===== src/Protocol/Ticket.antt =====
-- crates/artel-protocol/src/ticket.rs: the ledger's entries, the ticket, and its text form. Base32
-- and postcard are other crates, hence parameters.
pub mod Text
use artel.Common.{
  ℕ, Bool, true, false, Option, none, some, List, [], ◌∷◌, ◌++◌, if◌then◌else◌, ◌==◌, ◌&&◌, ltb,
  leb, ◌+◌, ◌-◌, Result, ok, err, filter, ◌||◌, not,
}
use artel.Protocol.Bytes.{Bytes, codes}
use artel.Protocol.Ids.{SessionId, TicketId, PeerId}
use artel.Protocol.Capability.{Capability}
use artel.Protocol.Message.{SigBytes}

pub data TicketStatus : Type 0 where
  active revoked : TicketStatus

unfoldable pub is_active : TicketStatus → Bool
is_active active = true
is_active revoked = false

pub record TicketEntry : Type 0 where
  pub ticket_id : TicketId
  pub granted_cap : Capability
  pub expiry_ms : ℕ
  pub issued_at_ms : ℕ
  pub status : TicketStatus
  pub used_by : List PeerId

-- How to reach the host. A direct address is an opaque byte string.
pub record WireEndpointAddr : Type 0 where
  pub peer_id : PeerId
  pub relay_url : Bytes
  pub direct_addrs : List Bytes

pub record SessionTicket : Type 0 where
  pub ticket_id : TicketId
  pub session_id : SessionId
  pub host_addr : WireEndpointAddr
  pub granted_cap : Capability
  pub expiry_ms : ℕ
  pub host_epoch : ℕ
  pub cap_sig : SigBytes

unfoldable pub host_peer_id : SessionTicket → PeerId
host_peer_id t = t.host_addr.peer_id

abbrev pub ticket_version : ℕ
ticket_version = 6

abbrev pub ticket_prefix : Bytes
ticket_prefix = codes "artel:"

-- What the code calls of data_encoding (BASE32_NOPAD) and of postcard on the `WireBody`, whose
-- fields are those of the ticket.
pub record TicketCodec : Type 0 where
  pub base32_encode : Bytes → Bytes
  pub base32_decode : Bytes → Option Bytes
  pub body_encode : SessionTicket → Bytes
  pub body_decode : Bytes → Option SessionTicket

pub data TicketError : Type 0 where
  missing_prefix : TicketError
  invalid_base32 : TicketError
  malformed : TicketError
  unsupported_version : ℕ → TicketError

-- `to_ascii_lowercase` and `to_ascii_uppercase`, one character at a time.
unfoldable pub ascii_lower : ℕ → ℕ
ascii_lower c = if leb b'A' c && leb c b'Z' then c + 32 else c

unfoldable pub ascii_upper : ℕ → ℕ
ascii_upper c = if leb b'a' c && leb c b'z' then c - 32 else c

unfoldable pub map_bytes : (ℕ → ℕ) → Bytes → Bytes
map_bytes f [] = []
map_bytes f (b ∷ bs) = f b ∷ map_bytes f bs

-- `char::is_whitespace`: the code points with the Unicode property White_Space. A text is a list of
-- code points here.
unfoldable pub is_whitespace : ℕ → Bool
is_whitespace c =
    c == 32
    || (leb 9 c && leb c 13)
    || c == 133
    || c == 160
    || c == 5760
    || (leb 8192 c && leb c 8202)
    || c == 8232
    || c == 8233
    || c == 8239
    || c == 8287
    || c == 12288

-- `strip_prefix`
unfoldable pub strip_prefix : Bytes → Bytes → Option Bytes
strip_prefix [] s = some s
strip_prefix (p ∷ ps) [] = none
strip_prefix (p ∷ ps) (c ∷ s) = if p == c then strip_prefix ps s else none

module _ (codec : TicketCodec) where
  unfoldable pub encode : SessionTicket → Bytes
  encode ticket =
      ticket_prefix
      ++ map_bytes ascii_lower (codec.base32_encode (ticket_version ∷ codec.body_encode ticket))

  -- The frame: a version byte, which is checked before anything behind it is read.
  unfoldable pub decode_frame : Bytes → Result TicketError SessionTicket
  decode_frame [] = err malformed
  decode_frame (version ∷ rest) =
      if version == ticket_version
      then elim (codec.body_decode rest) [ none ↦ err malformed | some ticket ↦ ok ticket ]
      else err (unsupported_version version)

  unfoldable pub decode : Bytes → Result TicketError SessionTicket
  decode raw = elim (strip_prefix ticket_prefix (filter (λ c. not (is_whitespace c)) raw)) [
    | none ↦ err missing_prefix
    | some body ↦ elim (codec.base32_decode (map_bytes ascii_upper body)) [
      | none ↦ err invalid_base32
      | some bytes ↦ decode_frame bytes
    ]
  ]
