-- ===== src/Workspace/PeerMap/Blocked.antt =====
-- crates/artel-fs/src/peer_map.rs and peer_filter.rs: the endpoint of a revoked peer.
use artel.Common.{
  true, some, List, [], ◌∷◌, ◌≡◌, ◌≢◌, refl, ap, ◌∙◌, arith, inl, inr, Option-cases, Bool-cases,
  ◌==◌, ==_refl,
}
use artel.Common.Map
use artel.Common.Map.{get-insert}
use artel.Common.Set
use artel.Common.Set.{contains-insert, contains-remove}
use artel.Protocol.Bytes.{Bytes}
use artel.Protocol.Ids.{PeerId}
use artel.Protocol.Capability.{Capability, CapabilityAction, grant, revoke}
use artel.Session.{Postcard}
use artel.Workspace.PeerMap.{
  EndpointId, ProjectionState, initializing, replaying, ready, closed, PeerMap, wait_ready,
  finish_replay, close, begin_replay, register, project, apply_capability, revoked_daemon_peer,
  refuse_revoked, accept, reject, before_connect, after_handshake,
}

-- The calls that change the map.
pub data PeerCall : Type 0 where
  registered : EndpointId → PeerId → PeerCall
  capability_seen : PeerId → Bytes → PeerCall
  finished shut began : PeerCall

-- The endpoint belongs to the peer, which is revoked.
pub record IsBlocked (host : PeerId) (e : EndpointId) (p : PeerId) (m : PeerMap) : Type 0 where
  pub same_host : m.host ≡ host
  pub mapped : Map.get e m.id_map ≡ some p
  pub out : Set.contains p m.revoked ≡ true

-- Neither hook lets the endpoint through, and a dial that is not made to wait names the peer.
pub record IsRefused (e : EndpointId) (p : PeerId) (m : PeerMap) : Type 0 where
  pub no_dial : before_connect m e ≢ some accept
  pub no_inbound : after_handshake m true e ≢ some accept
  pub told : m.readiness ≡ ready → before_connect m e ≡ some (reject (some p))

IsBlocked-IsRefused :
    (host : PeerId) (e : EndpointId) (p : PeerId) (m : PeerMap)
    → IsBlocked host e p m
    → IsRefused e p m
unfolding wait_ready before_connect after_handshake revoked_daemon_peer refuse_revoked
IsBlocked-IsRefused host e p m b =
    let mapped = b.mapped in
    let out = b.out in
    record { no_dial = ground arith; no_inbound = ground arith; told = λ h. ground arith }

project-IsBlocked :
    (host : PeerId) (e : EndpointId) (p : PeerId) (action : CapabilityAction) (m : PeerMap)
    → ((cap : Capability) → action ≢ grant p cap)
    → IsBlocked host e p m
    → IsBlocked host e p (project action m)
unfolding project
project-IsBlocked host e p (grant q cap) m h b =
    let out = b.out in
    let other = h cap in
    record {
      same_host = b.same_host;
      mapped = b.mapped;
      out = ground (arith, contains-remove q p m.revoked);
    }
project-IsBlocked host e p (revoke q) m h b =
    let out = b.out in
    record {
      same_host = b.same_host;
      mapped = b.mapped;
      out = ground (arith, contains-insert q p m.revoked);
    }

-- The readiness is no part of what blocks a peer.
readiness-IsBlocked :
    (host : PeerId) (e : EndpointId) (p : PeerId) (state : ProjectionState) (m : PeerMap)
    → IsBlocked host e p m
    → IsBlocked host e p (record m { readiness = state })
readiness-IsBlocked host e p state m b = record {
  same_host = b.same_host;
  mapped = b.mapped;
  out = b.out;
}

replay-IsBlocked :
    (host : PeerId) (e : EndpointId) (p : PeerId) (m : PeerMap) (state : ProjectionState)
    → m.readiness ≡ state
    → IsBlocked host e p m
    → IsBlocked host e p (finish_replay m) × IsBlocked host e p (begin_replay m)
unfolding finish_replay begin_replay
replay-IsBlocked host e p m initializing h b =
    rw h (readiness-IsBlocked host e p ready m b, readiness-IsBlocked host e p initializing m b)
replay-IsBlocked host e p m replaying h b =
    rw h (readiness-IsBlocked host e p ready m b, readiness-IsBlocked host e p replaying m b)
replay-IsBlocked host e p m ready h b =
    rw h (readiness-IsBlocked host e p ready m b, readiness-IsBlocked host e p replaying m b)
replay-IsBlocked host e p m closed h b =
    rw h (readiness-IsBlocked host e p closed m b, readiness-IsBlocked host e p closed m b)

module _ (postcard : Postcard) where
  abbrev pub peer_call : PeerCall → PeerMap → PeerMap
  peer_call (registered e p) m = (register e p m).1
  peer_call (capability_seen author payload) m = apply_capability postcard author payload m
  peer_call finished m = finish_replay m
  peer_call shut m = close m
  peer_call began m = begin_replay m

  abbrev pub peer_calls : List PeerCall → PeerMap → PeerMap
  peer_calls [] m = m
  peer_calls (c ∷ cs) m = peer_calls cs (peer_call c m)

  module _ (host : PeerId) (e : EndpointId) (p : PeerId) where
    -- The call does not grant the peer a tier, nor give its endpoint to another peer.
    abbrev pub Spares : PeerCall → Type 0
    Spares (registered f q) = f ≡ e → q ≡ p
    Spares (capability_seen author payload) =
        author ≡ host → (cap : Capability) → postcard.decode_action payload ≢ some (grant p cap)
    Spares finished = Unit {0}
    Spares shut = Unit {0}
    Spares began = Unit {0}

    abbrev pub AllSpare : List PeerCall → Type 0
    AllSpare [] = Unit {0}
    AllSpare (c ∷ cs) = Spares c × AllSpare cs

    peer_call-IsBlocked :
        (c : PeerCall) (m : PeerMap)
        → Spares c
        → IsBlocked host e p m
        → IsBlocked host e p (peer_call c m)
    unfolding apply_capability
    peer_call-IsBlocked (registered f q) m s b =
        let mapped = b.mapped in
        unfold register in
        record {
          same_host = b.same_host;
          mapped = ground (arith, get-insert f e q m.id_map);
          out = b.out;
        }
    peer_call-IsBlocked (capability_seen author payload) m s b =
        elim (Bool-cases (author == m.host)) [
          | inr other ↦ rw other b
          | inl mine ↦ elim (Option-cases (postcard.decode_action payload)) [
            | inl bad ↦ rw (mine, bad) b
            | inr (action, good) ↦
                let same = b.same_host in
                let author_host : author ≡ host = ground arith in
                let no_grant : (cap : Capability) → action ≢ grant p cap =
                  λ cap is_grant. s author_host cap (good ∙ ap some is_grant) in
                rw (mine, good) (project-IsBlocked host e p action m no_grant b)
          ]
        ]
    peer_call-IsBlocked finished m s b = (replay-IsBlocked host e p m m.readiness refl b).0
    peer_call-IsBlocked shut m s b = unfold close in readiness-IsBlocked host e p closed m b
    peer_call-IsBlocked began m s b = (replay-IsBlocked host e p m m.readiness refl b).1

    peer_calls-IsBlocked :
        (cs : List PeerCall) (m : PeerMap)
        → AllSpare cs
        → IsBlocked host e p m
        → IsBlocked host e p (peer_calls cs m)
    peer_calls-IsBlocked [] m s b = b
    peer_calls-IsBlocked (c ∷ cs) m s b =
        peer_calls-IsBlocked cs (peer_call c m) s.1 (peer_call-IsBlocked c m s.0 b)

    -- Once a workspace that knows a peer's endpoint sees the host revoke the peer, no calls but a
    -- grant to the peer, or another peer's claim to the endpoint, let that endpoint through again:
    -- neither a dial to it nor a connection from it is accepted, also while the log is replayed.
    pub revoke-IsRefused :
        (payload : Bytes) (cs : List PeerCall) (m : PeerMap)
        → m.host ≡ host
        → Map.get e m.id_map ≡ some p
        → postcard.decode_action payload ≡ some (revoke p)
        → AllSpare cs
        → IsRefused e p (peer_calls cs (apply_capability postcard host payload m))
    unfolding apply_capability
    revoke-IsRefused payload cs m here mapped decoded s =
        let start : IsBlocked host e p (project (revoke p) m) =
          unfold project in
          record {
            same_host = here;
            mapped = mapped;
            out = ground (arith, contains-insert p p m.revoked);
          } in
        let first : IsBlocked host e p (apply_capability postcard host payload m) =
          rw (here, ==_refl host, decoded) start in
        IsBlocked-IsRefused host e p (peer_calls cs (apply_capability postcard host payload m))
          (peer_calls-IsBlocked cs (apply_capability postcard host payload m) s first)
