-- ===== src/Bridge/Wire.antt =====
-- crates/artel-daemon/src/session.rs (`From<&SessionError> for ProtocolError`) and
-- crates/artel-protocol/src/error.rs: how an error of the registry looks to another daemon or to a
-- client. The `Display` forms of the values in a text are parameters.
use Prim.Native.String.{◌++◌ as ◌<>◌}
use artel.Common.{Option, String}
use artel.Protocol.Bytes.{Bytes}
use artel.Protocol.Capability.{Capability}
use artel.Protocol.Ids.{PeerId}
use artel.Store.{IoError}
use artel.Registry.State.{ProtocolError, Detail, SessionError}

pub record Display : Type 0 where
  pub io : IoError → String
  pub detail : Detail → String
  pub peer : PeerId → String
  pub had : Option Capability → String
  pub needed : Capability → String
  pub action : Bytes → String

unfoldable pub to_wire : Display → SessionError → ProtocolError
to_wire d (SessionError.unknown_session s) = ProtocolError.unknown_session s
to_wire d (SessionError.not_member _) = ProtocolError.internal "not a member"
to_wire d SessionError.invalid_ticket = ProtocolError.invalid_ticket
to_wire d SessionError.ticket_expired = ProtocolError.invalid_ticket
to_wire d SessionError.ticket_not_admissible = ProtocolError.invalid_ticket
to_wire d (SessionError.storage e) = ProtocolError.internal ("storage: " <> d.io e)
to_wire d (SessionError.invalid_addr m) = ProtocolError.internal ("invalid addr: " <> m)
to_wire d (SessionError.internal m) = ProtocolError.internal (d.detail m)
to_wire d SessionError.not_host = ProtocolError.not_host
to_wire d (SessionError.remote_topic_missing _) =
    ProtocolError.internal "remote session topic missing"
to_wire d (SessionError.session_conflict s) = ProtocolError.session_conflict s
to_wire d (SessionError.host_rejected e) = e
to_wire d (SessionError.signature_rejected peer reason) =
    ProtocolError.signature (d.peer peer <> (": " <> reason))
to_wire d (SessionError.capability_denied peer had needed) =
    ProtocolError.capability
      (d.peer peer <> (": had " <> (d.had had <> (", needs " <> d.needed needed))))
to_wire d (SessionError.invalid_cap_claim reason) =
    ProtocolError.internal ("invalid cap claim: " <> reason)
to_wire d (SessionError.unknown_ticket t) = ProtocolError.unknown_ticket t
to_wire d (SessionError.reserved_action a) =
    ProtocolError.internal ("reserved system action: " <> d.action a)
to_wire d (SessionError.payload_too_large size most) = ProtocolError.payload_too_large size most

unfoldable pub slug : ProtocolError → String
slug (ProtocolError.version_mismatch _ _) = "version_mismatch"
slug (ProtocolError.unknown_session _) = "unknown_session"
slug (ProtocolError.not_subscribed _) = "not_subscribed"
slug ProtocolError.invalid_ticket = "invalid_ticket"
slug ProtocolError.not_ready = "not_ready"
slug ProtocolError.not_host = "not_host"
slug (ProtocolError.session_conflict _) = "session_conflict"
slug (ProtocolError.signature _) = "signature"
slug (ProtocolError.capability _) = "capability"
slug (ProtocolError.internal _) = "internal"
slug (ProtocolError.unknown_ticket _) = "unknown_ticket"
slug (ProtocolError.payload_too_large _ _) = "payload_too_large"
