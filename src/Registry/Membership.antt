-- ===== src/Registry/Membership.antt =====
-- crates/artel-daemon/src/session.rs: who is a member after `remove_member` and `leave`.
use artel.Common.{◌≡◌, true, false, none, some, arith, ok, if◌then◌else◌, ◌==◌, not, ◌||◌}
use artel.Common.Map
use artel.Common.Map.{get-insert, get-remove}
use artel.Common.Set
use artel.Protocol.Ids.{SessionId, PeerId}
use artel.Session.{Session, is_local}
use artel.Store.{SessionStore}
use artel.Registry.State.{Registry, put_session, emit, request, with_store}
use artel.Registry.Members.{is_member, drop_member, remove_member, close, leave}
use artel.Registry.Members.{is_member}

module _ {σ : Type 0} (io : SessionStore σ) where
  -- After a removal that succeeds on a session with its host as a member, the members are those of
  -- before without the peer, and all of them if the peer is the host.
  pub remove_member-members :
      (id : SessionId) (peer : PeerId) (q : PeerId) (r : Registry σ) (s : Session)
      → Map.get id r.sessions ≡ some s
      → Set.contains s.host s.members ≡ true
      → (remove_member io id peer r).0 ≡ ok tt
      → is_member id q (remove_member io id peer r).1
        ≡ some (
            if peer == s.host
            then Set.contains q s.members
            else if peer == q
            then false
            else Set.contains q s.members)
  unfolding remove_member drop_member is_member put_session emit with_store
  remove_member-members id peer q r s found h ok_ = ground (
    arith,
    Map.get-insert_self id (record s { members = Set.remove peer s.members }) r.sessions,
    Set.contains-remove peer q s.members,
  )

  -- When the host of a session leaves it, or any member leaves a mirror, and the operation
  -- succeeds, the session is gone from memory and every other session is as it was.
  pub leave-closes :
      (id j : SessionId) (peer : PeerId) (r : Registry σ) (s : Session)
      → Map.get id r.sessions ≡ some s
      → (peer == s.host || not (is_local s.kind)) ≡ true
      → (leave io id peer r).0 ≡ ok tt
      → Map.get j (leave io id peer r).1.sessions ≡ (if id == j then none else Map.get j r.sessions)
  unfolding leave close put_session emit request with_store
  leave-closes id j peer r s found last done_ = ground (arith, Map.get-remove id j r.sessions)

  -- When a member that is not the host leaves a session hosted here, and the operation succeeds,
  -- the members are those of before without that member.
  pub leave-stays :
      (id : SessionId) (peer q : PeerId) (r : Registry σ) (s : Session)
      → Map.get id r.sessions ≡ some s
      → (peer == s.host || not (is_local s.kind)) ≡ false
      → (leave io id peer r).0 ≡ ok tt
      → is_member id q (leave io id peer r).1
        ≡ some (if peer == q then false else Set.contains q s.members)
  unfolding leave drop_member is_member put_session emit with_store
  leave-stays id peer q r s found stays done_ = ground (
    arith,
    Map.get-insert_self id (record s { members = Set.remove peer s.members }) r.sessions,
    Set.contains-remove peer q s.members,
  )
