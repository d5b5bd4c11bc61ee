-- ===== src/Examples/Protocol.antt =====
-- Runs of the theorems on signatures and on the text form of ids.
use artel.Common.{◌≡◌, ◌↔◌, ◌≤◌, refl, true, false, Option, none, some, [], ◌∷◌, ok, arith}
use artel.Protocol.Bytes.{Bytes, codes, bytes_eq}
use artel.Protocol.Ids.Hex.{to_hex, visit_str, visit_str-to_hex}
use artel.Protocol.Message.{SessionMessage, new, chat, message_format, signature_unsigned}
use artel.Protocol.Signing.{canonical_bytes, sign_body, verify_message, seq_canonical_bytes}
use artel.Protocol.Signing.Layout.{place, signed_bytes, signed_bytes_injective}
use artel.Protocol.Signing.Accepts.{verify_message_iff, verify_message-sign_body}
use artel.Examples.{toy_ed25519, toy_laws, guest_info}

signed_bytes_injective_example : place 7 1 (9 ∷ []) ≡ place 7 1 (9 ∷ [])
signed_bytes_injective_example =
    signed_bytes_injective (place 7 1 (9 ∷ [])) (place 7 1 (9 ∷ []))
      (seq_canonical_bytes 7 1 (9 ∷ [])) (omega arith, omega arith) (omega arith, omega arith)
      (unfold signed_bytes in refl) (unfold signed_bytes in refl)

abbrev bytes_of : Option Bytes → Bytes
bytes_of none = []
bytes_of (some bs) = bs

-- What the guest signs for its message.
abbrev guest_bytes : Bytes
guest_bytes =
    bytes_of (canonical_bytes 7 message_format 2000 guest_info chat (codes "say") (1 ∷ []))

abbrev guest_message : SessionMessage
guest_message =
    new 2 2000 guest_info chat (codes "say") (1 ∷ []) (1 ∷ 9 ∷ guest_bytes) signature_unsigned

verify_message_iff_example :
    (verify_message toy_ed25519 7 guest_message (1 ∷ 9 ∷ guest_bytes) ≡ ok tt) ↔ (
      (bytes_eq (1 ∷ 9 ∷ guest_bytes) signature_unsigned ≡ false)
      × (message_format ≤ 3)
      × (true ≡ true)
      × (bytes_eq (1 ∷ 9 ∷ guest_bytes) (1 ∷ 9 ∷ guest_bytes) ≡ true))
verify_message_iff_example =
    verify_message_iff toy_ed25519 7 guest_message (1 ∷ 9 ∷ guest_bytes) guest_bytes
      (unfold canonical_bytes in refl)

verify_message-sign_body_example :
    verify_message toy_ed25519 7 guest_message (1 ∷ 9 ∷ guest_bytes) ≡ ok tt
unfolding toy_laws
verify_message-sign_body_example =
    verify_message-sign_body toy_ed25519 toy_laws 9 7 2 2000 (codes "guest") (codes "say") (1 ∷ [])
      chat signature_unsigned (1 ∷ 9 ∷ guest_bytes) (unfold sign_body canonical_bytes in refl)

visit_str-to_hex_example : visit_str 2 (to_hex (17 ∷ 255 ∷ [])) ≡ some (17 ∷ 255 ∷ [])
visit_str-to_hex_example = visit_str-to_hex (17 ∷ 255 ∷ []) (omega arith, (omega arith, tt))

abbrev two_bytes : Bytes
two_bytes = 17 ∷ 255 ∷ []
