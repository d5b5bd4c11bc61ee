-- ===== src/Protocol/Signing.antt =====
-- crates/artel-protocol/src/signing.rs: the byte strings that are signed, and the checks made on a
-- received signature. The signature scheme is the crate ed25519_dalek, a parameter.
pub mod Layout
pub mod Accepts
use Prim.Native.String.{String}
use artel.Common.{
  ℕ, ◌^◌, ◌≡◌, ◌≢◌, Bool, true, false, Option, none, some, [], ◌∷◌, ◌++◌, length, if◌then◌else◌,
  ltb, Result, ok, err, panic,
}
use artel.Protocol.Bytes.{Bytes, codes, bytes_eq, be_bytes}
use artel.Protocol.Ids.{SessionId, TicketId, PeerId, Seq}
use artel.Protocol.Capability.{Capability, read, read_write}
use artel.Protocol.Message.{
  PeerInfo, MessageKind, chat, tool, system, capability, SigBytes, signature_unsigned,
  message_format, SessionMessage,
}

-- What the code calls of ed25519_dalek. A secret key is named by a number.
pub record Ed25519 : Type 0 where
  -- `key.sign(bytes).to_bytes()`
  pub sign : ℕ → Bytes → SigBytes
  -- `VerifyingKey::from_bytes(id).is_ok()`
  pub valid_key : PeerId → Bool
  -- `verifying.verify_strict(bytes, sig).is_ok()`
  pub verify_strict : PeerId → Bytes → SigBytes → Bool

-- What the crate documents: a signature made with a key verifies under that key's public half,
-- which is a valid key. A signature is never all zeros.
pub record Ed25519Laws (e : Ed25519) : Type 0 where
  pub public : ℕ → PeerId
  pub valid_public : (k : ℕ) → e.valid_key (public k) ≡ true
  pub verify-sign : (k : ℕ) (m : Bytes) → e.verify_strict (public k) m (e.sign k m) ≡ true
  pub sign-ne-unsigned : (k : ℕ) (m : Bytes) → bytes_eq (e.sign k m) signature_unsigned ≡ false

pub data VerifyError : Type 0 where
  sentinel_unsigned : VerifyError
  version_too_old : ℕ → ℕ → VerifyError
  bad_key : VerifyError
  bad_sig : VerifyError

unfoldable pub verify_reason : VerifyError → String
verify_reason sentinel_unsigned = "unsigned sentinel"
verify_reason (version_too_old _ _) = "message version below signed floor"
verify_reason bad_key = "peer.id is not a valid ed25519 key"
verify_reason bad_sig = "signature does not verify"

abbrev pub domain_tag : Bytes
domain_tag = codes "artel/sig-v1"

abbrev pub seq_domain_tag : Bytes
seq_domain_tag = codes "artel/seq-v1"

abbrev pub ctrl_domain_tag : Bytes
ctrl_domain_tag = codes "artel/ctrl-v2"

abbrev pub ticket_cap_domain_tag : Bytes
ticket_cap_domain_tag = codes "artel/ticket-cap-v2"

unfoldable pub kind_tag : MessageKind → ℕ
kind_tag chat = 0
kind_tag tool = 1
kind_tag system = 2
kind_tag capability = 3

pub data CtrlFrame : Type 0 where
  close beacon : CtrlFrame

unfoldable pub ctrl_frame_byte : CtrlFrame → ℕ
ctrl_frame_byte close = 0
ctrl_frame_byte beacon = 1

unfoldable pub cap_byte : Capability → ℕ
cap_byte read = 0
cap_byte read_write = 1

-- The fields in front of the first length, all of fixed width.
unfoldable pub canonical_head : SessionId → ℕ → ℕ → PeerId → MessageKind → Bytes
canonical_head session version timestamp_ms peer kind =
    domain_tag
    ++ (be_bytes 16 session
        ++ (version ∷ (be_bytes 8 timestamp_ms ++ (be_bytes 32 peer ++ kind_tag kind ∷ []))))

-- `none` is the panic on an action or a payload of 4 GiB or more.
unfoldable pub canonical_bytes :
    SessionId → ℕ → ℕ → PeerInfo → MessageKind → Bytes → Bytes → Option Bytes
canonical_bytes session version timestamp_ms peer kind action payload =
    if ltb (length action) (2 ^ 32)
    then if ltb (length payload) (2 ^ 32)
      then some (
          canonical_head session version timestamp_ms peer.id kind
          ++ (be_bytes 4 (length action) ++ (action ++ (be_bytes 4 (length payload) ++ payload))))
      else none
    else none

unfoldable pub seq_canonical_bytes : SessionId → Seq → SigBytes → Bytes
seq_canonical_bytes session seq author_sig =
    seq_domain_tag ++ (be_bytes 16 session ++ (be_bytes 8 seq ++ author_sig))

unfoldable pub ctrl_canonical_bytes : SessionId → CtrlFrame → ℕ → Bytes
ctrl_canonical_bytes session frame host_epoch =
    ctrl_domain_tag ++ (be_bytes 16 session ++ (ctrl_frame_byte frame ∷ be_bytes 8 host_epoch))

unfoldable pub ticket_cap_canonical_bytes : TicketId → SessionId → Capability → ℕ → ℕ → Bytes
ticket_cap_canonical_bytes ticket session granted_cap expiry_ms host_epoch =
    ticket_cap_domain_tag
    ++ (be_bytes 16 ticket
        ++ (be_bytes 16 session
            ++ (cap_byte granted_cap ∷ (be_bytes 8 expiry_ms ++ be_bytes 8 host_epoch))))

module _ (e : Ed25519) where
  unfoldable pub sign_body :
      ℕ → SessionId → ℕ → ℕ → PeerInfo → MessageKind → Bytes → Bytes → Option SigBytes
  sign_body key session version timestamp_ms peer kind action payload =
      elim (canonical_bytes session version timestamp_ms peer kind action payload) [
        | none ↦ none
        | some bytes ↦ some (e.sign key bytes)
      ]

  -- The part that every check shares: the key, then the strict verification.
  unfoldable pub verify_bytes : PeerId → Bytes → SigBytes → Result VerifyError (Unit {0})
  verify_bytes key bytes sig =
      if e.valid_key key
      then if e.verify_strict key bytes sig then ok tt else err bad_sig
      else err bad_key

  unfoldable pub verify_message :
      SessionId → SessionMessage → SigBytes → Result VerifyError (Unit {0})
  verify_message session message signature =
      if bytes_eq signature signature_unsigned
      then err sentinel_unsigned
      else if ltb message.version message_format
      then err (version_too_old message.version message_format)
      else if e.valid_key message.peer.id
      then elim (canonical_bytes session message.version message.timestamp_ms message.peer
          message.kind message.action message.payload) [
            | none ↦ panic
            | some bytes ↦ verify_bytes message.peer.id bytes signature
          ]
      else err bad_key

  unfoldable pub sign_seq : ℕ → SessionId → Seq → SigBytes → SigBytes
  sign_seq key session seq author_sig = e.sign key (seq_canonical_bytes session seq author_sig)

  unfoldable pub verify_seq :
      PeerId → SessionId → Seq → SigBytes → SigBytes → Result VerifyError (Unit {0})
  verify_seq host_pubkey session seq author_sig host_sig =
      if bytes_eq host_sig signature_unsigned
      then err sentinel_unsigned
      else verify_bytes host_pubkey (seq_canonical_bytes session seq author_sig) host_sig

  unfoldable pub sign_ctrl : ℕ → SessionId → CtrlFrame → ℕ → SigBytes
  sign_ctrl key session frame host_epoch =
      e.sign key (ctrl_canonical_bytes session frame host_epoch)

  unfoldable pub verify_ctrl :
      PeerId → SessionId → CtrlFrame → ℕ → SigBytes → Result VerifyError (Unit {0})
  verify_ctrl host_pubkey session frame host_epoch host_sig =
      if bytes_eq host_sig signature_unsigned
      then err sentinel_unsigned
      else verify_bytes host_pubkey (ctrl_canonical_bytes session frame host_epoch) host_sig

  unfoldable pub sign_ticket_cap : ℕ → TicketId → SessionId → Capability → ℕ → ℕ → SigBytes
  sign_ticket_cap key ticket session granted_cap expiry_ms host_epoch =
      e.sign key (ticket_cap_canonical_bytes ticket session granted_cap expiry_ms host_epoch)

  unfoldable pub verify_ticket_cap :
      PeerId → TicketId → SessionId → Capability → ℕ → ℕ → SigBytes → Result VerifyError (Unit {0})
  verify_ticket_cap host_pubkey ticket session granted_cap expiry_ms host_epoch cap_sig =
      if bytes_eq cap_sig signature_unsigned
      then err sentinel_unsigned
      else verify_bytes host_pubkey
          (ticket_cap_canonical_bytes ticket session granted_cap expiry_ms host_epoch) cap_sig
