-- ===== src/Protocol/Message.antt =====
-- crates/artel-protocol/src/message.rs: the message of a session log, its kinds, the reserved
-- actions and the all-zero signature that stands for "not yet signed".
use artel.Common.{ℕ, Bool, true, false, replicate}
use artel.Protocol.Bytes.{Bytes, codes}
use artel.Protocol.Ids.{PeerId, Seq}

-- The display name is advisory: nothing authenticates it.
pub record PeerInfo : Type 0 where
  pub id : PeerId
  pub display_name : Bytes

pub data MessageKind : Type 0 where
  chat tool system capability : MessageKind

unfoldable pub is_system : MessageKind → Bool
is_system system = true
is_system _ = false

unfoldable pub is_capability : MessageKind → Bool
is_capability capability = true
is_capability _ = false

-- 64 bytes.
abbrev pub SigBytes : Type 0
SigBytes = Bytes

abbrev pub signature_unsigned : SigBytes
signature_unsigned = replicate 64 0

abbrev pub message_format : ℕ
message_format = 3

pub record SessionMessage : Type 0 where
  pub version : ℕ
  pub seq : Seq
  pub timestamp_ms : ℕ
  pub peer : PeerInfo
  pub kind : MessageKind
  pub action : Bytes
  pub payload : Bytes
  pub signature : SigBytes
  pub host_sig : SigBytes

-- `SessionMessage::new` stamps the current format.
abbrev pub new :
    Seq → ℕ → PeerInfo → MessageKind → Bytes → Bytes → SigBytes → SigBytes → SessionMessage
new seq timestamp_ms peer kind action payload signature host_sig = record {
  version = message_format;
  seq = seq;
  timestamp_ms = timestamp_ms;
  peer = peer;
  kind = kind;
  action = action;
  payload = payload;
  signature = signature;
  host_sig = host_sig;
}

abbrev pub ticket_action : Bytes
ticket_action = codes "workspace.ticket"

abbrev pub upgrade_action : Bytes
upgrade_action = codes "workspace.upgrade"

abbrev pub downgrade_action : Bytes
downgrade_action = codes "workspace.downgrade"

abbrev pub rotate_action : Bytes
rotate_action = codes "workspace.rotate"
