-- ===== src/Registry/Hosting/Again.antt =====
-- crates/artel-daemon/src/session.rs and store/memory.rs: an id that is hosted again after its session
-- was closed.
use artel.Common.{
  ==_refl, ℕ, ◌≡◌, refl, sym, ap, true, none, some, List, ◌∷◌, arith, ok, ◌==◌, is_ok,
}
use artel.Common.Map
use artel.Common.Map.{get-insert, get-remove}
use artel.Protocol.Ids.{SessionId, TicketId}
use artel.Protocol.Capability.{Capability}
use artel.Protocol.Message.{PeerInfo}
use artel.Session.{Session, local, is_local, new}
use artel.Registry.State.{Env, Registry, emit, request, with_store}
use artel.Registry.Host.{created, host}
use artel.Registry.Members.{close, leave}
use artel.Registry.Hosting.{host-creates}
use artel.Store.Memory.{MemoryStore, memory_store, floor_of, delete, epoch_floor}
use artel.Common.Map.{get-insert_self}
use artel.Common.{◌<◌}

module _ (env : Env) where
  closed-store :
      (id : SessionId) (r : Registry MemoryStore) (s : Session)
      → Map.get id r.sessions ≡ some s
      → (leave memory_store id s.host r).0 ≡ ok tt
      → s.kind ≡ local
      → (Map.get id (leave memory_store id s.host r).1.sessions ≡ none)
        × (floor_of id (leave memory_store id s.host r).1.store ≡ floor_of id r.store)
  unfolding leave close request emit with_store delete floor_of is_local
  closed-store id r s found done_ hosted =
      let self : (s.host == s.host) ≡ true = ==_refl s.host in
      (ground (arith, Map.get-remove id id r.sessions), ground arith)

  -- With the storage in memory, and a floor of the id above the epoch of its session, which is
  -- hosted here: when the host has left and a peer then hosts the id again, the new session has a
  -- greater epoch, and that peer as its host.
  pub host-leave :
      (id : SessionId) (r : Registry MemoryStore) (s : Session) (peer : PeerInfo)
      (granted_cap : Capability) (expiry_ms : ℕ) (fresh : SessionId) (tid : TicketId)
      (rest : List (SessionId × TicketId)) (now : ℕ) (t : Session)
      → Map.get id r.sessions ≡ some s
      → s.kind ≡ local
      → s.host_epoch < floor_of id r.store
      → (leave memory_store id s.host r).0 ≡ ok tt
      → is_ok
          (host env memory_store peer
            (some id)
            granted_cap
            expiry_ms
            ((fresh, tid) ∷ rest)
            now
            (leave memory_store id s.host r).1).0
        ≡ true
      → Map.get id
          (host env memory_store peer
            (some id)
            granted_cap
            expiry_ms
            ((fresh, tid) ∷ rest)
            now
            (leave memory_store id s.host r).1).1.sessions
        ≡ some t
      → (s.host_epoch < t.host_epoch) × (t.host ≡ peer.id)
  host-leave id r s peer granted_cap expiry_ms fresh tid rest now t found hosted above left done_
        there =
      let closed = (leave memory_store id s.host r).1 in
      let (gone, floor) = closed-store id r s found left hosted in
      let made =
        host-creates env memory_store peer id granted_cap expiry_ms fresh tid rest now
          (floor_of id closed.store) closed gone (unfold epoch_floor in refl) done_ in
      let same : created id peer (floor_of id closed.store) granted_cap expiry_ms tid now ≡ t =
        ground arith in
      let epoch : floor_of id closed.store ≡ t.host_epoch =
        unfold created in ap (λ (x : Session). x.host_epoch) same in
      let owner : peer.id ≡ t.host = unfold created new in ap (λ (x : Session). x.host) same in
      (omega arith, sym owner)
