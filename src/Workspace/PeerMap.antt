-- ===== src/Workspace/PeerMap.antt =====
-- crates/artel-fs/src/peer_map.rs (`PeerMap`) and peer_filter.rs: the peers of a workspace, and
-- which of them its endpoint refuses. A lock is held for one call at most, so a call is a function
-- on the state; an endpoint id is the number that its bytes spell. Waiting is `none`.
pub mod Projection
pub mod Blocked
use artel.Common.{ℕ, Bool, true, false, not, Option, none, some, List, [], ◌∷◌, if◌then◌else◌, ◌==◌}
use artel.Common.Map
use artel.Common.Map.{Map}
use artel.Common.Set
use artel.Protocol.Bytes.{Bytes}
use artel.Protocol.Ids.{PeerId}
use artel.Protocol.Capability.{
  Capability, read, read_write, capability_eq, CapabilityAction, grant, revoke,
}
use artel.Session.{Postcard, host_root}

abbrev pub EndpointId : Type 0
EndpointId = ℕ

pub data ProjectionState : Type 0 where
  initializing replaying ready closed : ProjectionState

pub data AuthorDisposition : Type 0 where
  rw_author revoked_author not_rw unresolvable : AuthorDisposition

pub record PeerMap : Type 0 where
  pub id_map : Map PeerId
  pub caps : Map Capability
  pub revoked : List PeerId
  pub host : PeerId
  pub readiness : ProjectionState

unfoldable pub with_state : PeerId → ProjectionState → PeerMap
with_state host state = record {
  id_map = [];
  caps = host_root host;
  revoked = [];
  host = host;
  readiness = state;
}

-- `PeerMap::replaying`, as a workspace starts.
unfoldable pub starting : PeerId → PeerMap
unfolding with_state
starting host = with_state host initializing

unfoldable pub wait_ready : PeerMap → Option Bool
wait_ready m = elim m.readiness [
  | initializing ↦ none
  | replaying ↦ none
  | ready ↦ some true
  | closed ↦ some false
]

unfoldable pub finish_replay : PeerMap → PeerMap
finish_replay m = elim m.readiness [
  | initializing ↦ record m { readiness = ready }
  | replaying ↦ record m { readiness = ready }
  | ready ↦ m
  | closed ↦ m
]

unfoldable pub close : PeerMap → PeerMap
close m = record m { readiness = closed }

unfoldable pub begin_replay : PeerMap → PeerMap
begin_replay m = elim m.readiness [
  | initializing ↦ m
  | replaying ↦ m
  | ready ↦ record m { readiness = replaying }
  | closed ↦ m
]

unfoldable pub is_revoked : PeerMap → PeerId → Bool
is_revoked m peer = Set.contains peer m.revoked

-- The Boolean says that the peer was revoked before its endpoint was known.
unfoldable pub register : EndpointId → PeerId → PeerMap → Bool × PeerMap
register workspace_id peer m =
    (Set.contains peer m.revoked, record m { id_map = Map.insert workspace_id peer m.id_map })

unfoldable pub project : CapabilityAction → PeerMap → PeerMap
project (grant peer cap) m = record m {
  caps = Map.insert peer cap m.caps;
  revoked = Set.remove peer m.revoked;
}
project (revoke peer) m = record m {
  caps = Map.remove peer m.caps;
  revoked = Set.insert peer m.revoked;
}

unfoldable pub has_rw : PeerMap → PeerId → Bool
has_rw m peer = elim (Map.get peer m.caps) [ none ↦ false | some c ↦ capability_eq c read_write ]

unfoldable pub classify_author : PeerMap → EndpointId → AuthorDisposition
unfolding has_rw
classify_author m workspace_id = elim (Map.get workspace_id m.id_map) [
  | none ↦ unresolvable
  | some peer ↦
      if has_rw m peer
      then rw_author
      else if Set.contains peer m.revoked
      then revoked_author
      else not_rw
]

unfoldable pub revoked_daemon_peer : PeerMap → EndpointId → Option PeerId
revoked_daemon_peer m workspace_id = elim (Map.get workspace_id m.id_map) [
  | none ↦ none
  | some peer ↦ if Set.contains peer m.revoked then some peer else none
]

-- What a hook of the endpoint answers, with the peer of the `RevokedPeerBlocked` event it tells.
pub data HookOutcome : Type 0 where
  accept : HookOutcome
  reject : Option PeerId → HookOutcome

-- `peer.map_or(Accept, ..)`
unfoldable pub refuse_revoked : Option PeerId → HookOutcome
refuse_revoked none = accept
refuse_revoked (some peer) = reject (some peer)

unfoldable pub before_connect : PeerMap → EndpointId → Option HookOutcome
unfolding wait_ready revoked_daemon_peer refuse_revoked
before_connect m remote = elim (wait_ready m) [
  | none ↦ none
  | some false ↦ some (reject none)
  | some true ↦ some (refuse_revoked (revoked_daemon_peer m remote))
]

-- The Boolean is `conn.side() == Side::Server`; a dial of this node was asked about before.
unfoldable pub after_handshake : PeerMap → Bool → EndpointId → Option HookOutcome
unfolding wait_ready revoked_daemon_peer refuse_revoked
after_handshake m server remote = elim (wait_ready m) [
  | none ↦ none
  | some false ↦ some (reject none)
  | some true ↦ some (if server then refuse_revoked (revoked_daemon_peer m remote) else accept)
]

module _ (postcard : Postcard) where
  unfoldable pub apply_capability : PeerId → Bytes → PeerMap → PeerMap
  unfolding project
  apply_capability author payload m =
      if author == m.host
      then elim (postcard.decode_action payload) [ none ↦ m | some action ↦ project action m ]
      else m
