-- ===== src/Workspace/PeerMap/Projection.antt =====
-- crates/artel-fs/src/peer_map.rs: the peers' capabilities as the workspace sees them, and as the
-- daemon does (crates/artel-daemon/src/session.rs, `project_caps`).
use artel.Common.{
  true, false, none, List, [], ◌∷◌, ◌≡◌, ◌≢◌, refl, ◌∙◌, sym, ap, arith, inl, inr, Option-cases,
  Bool-cases, ◌==◌, if◌then◌else◌,
}
use artel.Common.Map
use artel.Common.Map.{Map, get-insert, get-remove}
use artel.Common.Set
use artel.Common.Set.{contains-insert, contains-remove}
use artel.Protocol.Ids.{PeerId}
use artel.Protocol.Capability.{Capability, CapabilityAction, grant, revoke}
use artel.Protocol.Message.{SessionMessage, is_capability}
use artel.Session.{
  Postcard, host_root, project_action, apply_capability_to, project_message, project_all,
  project_caps,
}
use artel.Session.Order.{Ascending, sort_by_seq-Ascending}
use artel.Workspace.PeerMap.{PeerMap, starting, is_revoked, project, apply_capability}

-- The workspace's view of a peer is the daemon's, and who is revoked has no capability.
pub record Agrees (p host : PeerId) (m : PeerMap) (caps : Map Capability) : Type 0 where
  pub same_host : m.host ≡ host
  pub same_cap : Map.get p m.caps ≡ Map.get p caps
  pub none_if_revoked : Set.contains p m.revoked ≡ true → Map.get p m.caps ≡ none

project-Agrees :
    (p host : PeerId) (action : CapabilityAction) (m : PeerMap) (caps : Map Capability)
    → p ≢ host
    → Agrees p host m caps
    → Agrees p host (project action m) (project_action host action caps)
unfolding project project_action
project-Agrees p host (grant q cap) m caps h a =
    let same = a.same_cap in
    let gone = a.none_if_revoked in
    record {
      same_host = a.same_host;
      same_cap = ground (arith, get-insert q p cap m.caps, get-insert q p cap caps);
      none_if_revoked =
          λ r. ground (arith, get-insert q p cap m.caps, contains-remove q p m.revoked);
    }
project-Agrees p host (revoke q) m caps h a =
    let same = a.same_cap in
    let gone = a.none_if_revoked in
    record {
      same_host = a.same_host;
      same_cap = ground (arith, get-remove q p m.caps, get-remove q p caps);
      none_if_revoked = λ r. ground (arith, get-remove q p m.caps, contains-insert q p m.revoked);
    }

module _ (postcard : Postcard) (host : PeerId) where
  -- What the workspace does of a message of the replay to its map of peers.
  abbrev pub see : SessionMessage → PeerMap → PeerMap
  see msg m =
      if is_capability msg.kind then apply_capability postcard msg.peer.id msg.payload m else m

  abbrev pub see_all : List SessionMessage → PeerMap → PeerMap
  see_all [] m = m
  see_all (msg ∷ rest) m = see_all rest (see msg m)

  see-Agrees :
      (p : PeerId) (msg : SessionMessage) (m : PeerMap) (caps : Map Capability)
      → p ≢ host
      → Agrees p host m caps
      → Agrees p host (see msg m) (project_message postcard host caps msg)
  unfolding project_message apply_capability apply_capability_to
  see-Agrees p msg m caps h a = elim (Bool-cases (is_capability msg.kind)) [
    | inr other ↦ rw other a
    | inl kind ↦
        let here = a.same_host in
        elim (Bool-cases (msg.peer.id == host)) [
          | inr other ↦
              let elsewhere : (msg.peer.id == m.host) ≡ false =
                ap (λ q. msg.peer.id == q) here ∙ other in
              rw (kind, other, elsewhere) a
          | inl mine ↦
              let at_home : (msg.peer.id == m.host) ≡ true =
                ap (λ q. msg.peer.id == q) here ∙ mine in
              elim (Option-cases (postcard.decode_action msg.payload)) [
                | inl bad ↦ rw (kind, mine, at_home, bad) a
                | inr (action, good) ↦
                    rw (kind, mine, at_home, good) (project-Agrees p host action m caps h a)
              ]
        ]
  ]

  see_all-Agrees :
      (p : PeerId) (log : List SessionMessage) (m : PeerMap) (caps : Map Capability)
      → p ≢ host
      → Agrees p host m caps
      → Agrees p host (see_all log m) (project_all postcard host caps log)
  unfolding project_all
  see_all-Agrees p [] m caps h a = a
  see_all-Agrees p (msg ∷ rest) m caps h a =
      see_all-Agrees p rest (see msg m) (project_message postcard host caps msg) h
        (see-Agrees p msg m caps h a)

  -- A workspace that starts, and is replayed a log in order, sees of every peer but the host the
  -- capability that the daemon projects from that log; a peer that it has as revoked has none there.
  pub see_all-project_caps :
      (p : PeerId) (log : List SessionMessage)
      → p ≢ host
      → Ascending 0 log
      → (Map.get p (see_all log (starting host)).caps ≡ Map.get p (project_caps postcard host log))
        × (is_revoked (see_all log (starting host)) p ≡ true
            → Map.get p (project_caps postcard host log) ≡ none)
  unfolding project_caps starting Set.contains is_revoked
  see_all-project_caps p log h asc =
      let first : Agrees p host (starting host) (host_root host) = record {
        same_host = refl;
        same_cap = refl;
        none_if_revoked = λ r. cc;
      } in
      let all = see_all-Agrees p log (starting host) (host_root host) h first in
      rw (sort_by_seq-Ascending 0 log asc)
        (all.same_cap, λ r. sym all.same_cap ∙ all.none_if_revoked r)
