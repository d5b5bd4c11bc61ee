-- ===== src/Protocol/Signing/Accepts.antt =====
-- crates/artel-protocol/src/signing.rs: which signatures the checks accept.
use artel.Common.{ℕ, ◌≤◌, ◌≡◌, ◌↔◌, true, false, some, arith, ok, Option-cases, inl, inr}
use artel.Protocol.Bytes.{Bytes, bytes_eq}
use artel.Protocol.Ids.{SessionId}
use artel.Protocol.Capability.{Capability}
use artel.Protocol.Message.{
  PeerInfo, MessageKind, SigBytes, SessionMessage, new, signature_unsigned, message_format,
}
use artel.Protocol.Signing.{
  Ed25519, Ed25519Laws, CtrlFrame, verify_bytes, canonical_bytes, sign_body, verify_message,
  sign_seq, verify_seq, sign_ctrl, verify_ctrl, sign_ticket_cap, verify_ticket_cap,
  seq_canonical_bytes, ctrl_canonical_bytes, ticket_cap_canonical_bytes,
}

module _ (e : Ed25519) where
  -- `verify_message` accepts exactly the messages whose signature is not the all-zero sentinel,
  -- whose format is at least the signed floor, whose author id is a key, and whose signature
  -- passes strict verification under that key over the canonical bytes of all fields but the
  -- place in the log.
  pub verify_message_iff :
      (session : SessionId) (m : SessionMessage) (sig : SigBytes) (bytes : Bytes)
      → canonical_bytes session m.version m.timestamp_ms m.peer m.kind m.action m.payload
        ≡ some bytes
      → (verify_message e session m sig ≡ ok tt) ↔ (
          (bytes_eq sig signature_unsigned ≡ false)
          × (message_format ≤ m.version)
          × (e.valid_key m.peer.id ≡ true)
          × (e.verify_strict m.peer.id bytes sig ≡ true))
  unfolding verify_message verify_bytes
  verify_message_iff session m sig bytes h = ground arith

module _ (e : Ed25519) (laws : Ed25519Laws e) where
  open laws use {public, valid_public, verify-sign, sign-ne-unsigned}

  verify_bytes-sign :
      (key : ℕ) (bytes : Bytes) → verify_bytes e (public key) bytes (e.sign key bytes) ≡ ok tt
  unfolding verify_bytes
  verify_bytes-sign key bytes = ground (arith, valid_public key, verify-sign key bytes)

  -- What `sign_body` signs with a key, `verify_message` accepts for the message that carries the
  -- same body under that key's peer id, whatever place and host signature it is given.
  pub verify_message-sign_body :
      (key session seq timestamp_ms : ℕ) (name action payload : Bytes) (kind : MessageKind)
      (host_sig sig : SigBytes)
      → sign_body e key session message_format timestamp_ms
          (record { id = public key; display_name = name })
          kind
          action
          payload
        ≡ some sig
      → verify_message e session
          (new seq timestamp_ms
            (record { id = public key; display_name = name })
            kind
            action
            payload
            sig
            host_sig)
          sig
        ≡ ok tt
  unfolding sign_body verify_message
  verify_message-sign_body key session seq timestamp_ms name action payload kind host_sig sig h =
      let author : PeerInfo = record { id = public key; display_name = name } in
      elim (Option-cases
        (canonical_bytes session message_format timestamp_ms author kind action payload)) [
          | inl no_bytes ↦ ground arith
          | inr (bytes, signed) ↦
              ground
                (arith, valid_public key, sign-ne-unsigned key bytes, verify_bytes-sign key bytes)
        ]

  -- The host's signatures over a place in the log, a control frame and a ticket's claim pass their
  -- checks under the host's public key.
  pub verify-sign_host :
      (key session seq host_epoch ticket expiry_ms : ℕ) (author_sig : SigBytes) (frame : CtrlFrame)
      (cap : Capability)
      → (verify_seq e (public key) session seq author_sig (sign_seq e key session seq author_sig)
          ≡ ok tt)
        × (verify_ctrl e
              (public key)
              session
              frame
              host_epoch
              (sign_ctrl e key session frame host_epoch)
            ≡ ok tt)
        × (verify_ticket_cap e
              (public key)
              ticket
              session
              cap
              expiry_ms
              host_epoch
              (sign_ticket_cap e key ticket session cap expiry_ms host_epoch)
            ≡ ok tt)
  unfolding verify_seq verify_ctrl verify_ticket_cap sign_seq sign_ctrl sign_ticket_cap
  verify-sign_host key session seq host_epoch ticket expiry_ms author_sig frame cap = ground (
    arith,
    sign-ne-unsigned key (seq_canonical_bytes session seq author_sig),
    verify_bytes-sign key (seq_canonical_bytes session seq author_sig),
    sign-ne-unsigned key (ctrl_canonical_bytes session frame host_epoch),
    verify_bytes-sign key (ctrl_canonical_bytes session frame host_epoch),
    sign-ne-unsigned key (ticket_cap_canonical_bytes ticket session cap expiry_ms host_epoch),
    verify_bytes-sign key (ticket_cap_canonical_bytes ticket session cap expiry_ms host_epoch),
  )
