-- ===== src/Bridge/Frames.antt =====
-- crates/artel-protocol/src/gossip.rs and the ack part of signing.rs: the frames that daemons send
-- each other, and the host's signature on its answer to a send.
use artel.Common.{
  ℕ, ◌≡◌, refl, Option, none, some, [], ◌∷◌, ◌++◌, if◌then◌else◌, ◌==◌, Result, ok, err, panic,
}
use artel.Protocol.Bytes.{Bytes, codes, bytes_eq, be_bytes}
use artel.Protocol.Capability.{Capability}
use artel.Protocol.Ids.{SessionId, TicketId, PeerId, Seq}
use artel.Protocol.Message.{PeerInfo, MessageKind, SigBytes, signature_unsigned, SessionMessage}
use artel.Protocol.Signing.{Ed25519, Ed25519Laws, VerifyError, sentinel_unsigned, verify_bytes}
use artel.Registry.State.{ProtocolError}

-- A UUID, as the number that its bytes spell.
abbrev pub ReqId : Type 0
ReqId = ℕ

-- crates/artel-protocol/src/rpc.rs
pub record SignedSendPayload : Type 0 where
  pub timestamp_ms : ℕ
  pub kind : MessageKind
  pub action : Bytes
  pub payload : Bytes
  pub signature : SigBytes

abbrev pub Verdict : Type 0
Verdict = Result ProtocolError SessionMessage

pub data GossipBody : Type 0 where
  message : SessionMessage → GossipBody
  send_request : ReqId → PeerInfo → SignedSendPayload → GossipBody
  send_ack : ReqId → Verdict → SigBytes → GossipBody
  join_announcement : PeerInfo → ℕ → TicketId → Capability → ℕ → ℕ → SigBytes → GossipBody
  session_closed : ℕ → SigBytes → GossipBody
  epoch_beacon : ℕ → SigBytes → GossipBody
  replay : Seq → GossipBody

-- What the code calls of postcard: the body of a frame, and the two kinds of verdict.
pub record GossipCodec : Type 0 where
  pub body_encode : GossipBody → Bytes
  pub body_decode : Bytes → Option GossipBody
  pub message_encode : SessionMessage → Bytes
  pub error_encode : ProtocolError → Bytes

abbrev pub gossip_wire_version : ℕ
gossip_wire_version = 3

pub data GossipFrameError : Type 0 where
  malformed : GossipFrameError
  unsupported_version : ℕ → ℕ → GossipFrameError
  empty : GossipFrameError

abbrev pub ack_domain_tag : Bytes
ack_domain_tag = codes "artel/ack-v1"

module _ (c : GossipCodec) where
  unfoldable pub encode : GossipBody → Bytes
  encode body = gossip_wire_version ∷ c.body_encode body

  unfoldable pub decode : Bytes → Result GossipFrameError GossipBody
  decode [] = err empty
  decode (version ∷ rest) =
      if version == gossip_wire_version
      then elim (c.body_decode rest) [ none ↦ err malformed | some body ↦ ok body ]
      else err (unsupported_version version gossip_wire_version)

  -- The discriminant and the body. A verdict is never a panic: the code has none of that kind.
  unfoldable pub ack_body : Verdict → Bytes
  ack_body (ok msg) = 0 ∷ c.message_encode msg
  ack_body (err e) = 1 ∷ c.error_encode e
  ack_body panic = []

  unfoldable pub ack_canonical_bytes : SessionId → ReqId → Verdict → Bytes
  unfolding ack_body
  ack_canonical_bytes session req_id verdict =
      ack_domain_tag ++ (be_bytes 16 session ++ (be_bytes 16 req_id ++ ack_body verdict))

  unfoldable pub sign_ack : Ed25519 → ℕ → SessionId → ReqId → Verdict → SigBytes
  sign_ack e key session req_id verdict = e.sign key (ack_canonical_bytes session req_id verdict)

  unfoldable pub verify_ack :
      Ed25519 → PeerId → SessionId → ReqId → Verdict → SigBytes → Result VerifyError (Unit {0})
  verify_ack e host_pubkey session req_id verdict host_sig =
      if bytes_eq host_sig signature_unsigned
      then err sentinel_unsigned
      else verify_bytes e host_pubkey (ack_canonical_bytes session req_id verdict) host_sig

  -- What `encode` writes of a body that postcard gives back, `decode` reads back.
  pub decode-encode_frame :
      (body : GossipBody)
      → c.body_decode (c.body_encode body) ≡ some body
      → decode (encode body) ≡ ok body
  unfolding decode encode
  decode-encode_frame body law = rw (decode, law) refl

  -- The host's signature on a verdict passes the check under the host's public key.
  pub verify_ack-sign_ack :
      (e : Ed25519) (L : Ed25519Laws e) (key : ℕ) (session : SessionId) (req_id : ReqId)
      (verdict : Verdict)
      → verify_ack e (L.public key) session req_id verdict (sign_ack e key session req_id verdict)
        ≡ ok tt
  unfolding verify_ack sign_ack verify_bytes
  verify_ack-sign_ack e L key session req_id verdict =
      rw
        (
          L.sign-ne-unsigned key (ack_canonical_bytes session req_id verdict),
          verify_bytes,
          L.valid_public key,
          L.verify-sign key (ack_canonical_bytes session req_id verdict),
        )
        refl
