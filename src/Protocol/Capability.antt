-- ===== src/Protocol/Capability.antt =====
-- crates/artel-protocol/src/capability.rs: the tiers and the grant and revoke verbs. The postcard
-- encoding of an action is a parameter (`Postcard` in Session).
use artel.Common.{Bool, true, false}
use artel.Protocol.Ids.{PeerId}

pub data Capability : Type 0 where
  read read_write : Capability

unfoldable pub permits_write : Capability → Bool
permits_write read_write = true
permits_write read = false

-- `==` on tiers.
unfoldable pub capability_eq : Capability → Capability → Bool
capability_eq read read = true
capability_eq read_write read_write = true
capability_eq _ _ = false

pub data CapabilityAction : Type 0 where
  grant : PeerId → Capability → CapabilityAction
  revoke : PeerId → CapabilityAction
