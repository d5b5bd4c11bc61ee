-- ===== src/Registry/Invariant/Joining.antt =====
-- crates/artel-daemon/src/session.rs: the invariant through `join`.
use artel.Common.{
  ◌≡◌, refl, sym, subst, inl, inr, ◌⊎◌, Bool, true, false, some, arith, Result, ok, err, panic,
  ◌==◌, Option-cases,
}
use artel.Common.Map
use artel.Common.Map.{get-insert, get-remove}
use artel.Protocol.Bytes.{Bytes}
use artel.Protocol.Ids.{SessionId}
use artel.Protocol.Message.{PeerInfo}
use artel.Session.{Postcard, Session, remote}
use artel.Session.WellFormed.{WellFormed, new-WellFormed, WellFormed-epoch}
use artel.Store.{SessionStore}
use artel.Registry.State.{Env, Registry, Reply, BridgeError, with_store}
use artel.Registry.Rules.{stored-keeps, if-keeps, and_then-keeps, lookup-keeps, result-keeps}
use artel.Registry.Join.{
  fresh_mirror, claim_remote_mirror, rollback_remote_mirror, subscribe_mirror,
  materialise_remote_session, locate, join, bearer_check,
}
use artel.Protocol.Ticket.{SessionTicket, host_peer_id, decode}
use artel.Registry.Invariant.Network.{enrol-AllWellFormed}
use artel.Registry.Invariant.{
  AllWellFormed, put_session-AllWellFormed, remove, request-AllWellFormed, with_store-AllWellFormed,
}

module _ (postcard : Postcard) {σ : Type 0} (io : SessionStore σ) where
  claim_remote_mirror-AllWellFormed :
      (t : SessionTicket) (r : Registry σ)
      → AllWellFormed postcard r
      → AllWellFormed postcard (claim_remote_mirror io t r).1
  unfolding claim_remote_mirror fresh_mirror
  claim_remote_mirror-AllWellFormed t r inv =
      lookup-keeps (AllWellFormed postcard) (Map.get t.session_id r.sessions) _ _
        (λ (z : Reply σ (Session × Bool)). z.1)
        (stored-keeps (AllWellFormed postcard) (io.create _ r.store) r _
          (λ st. with_store-AllWellFormed postcard st r inv)
          λ _ r1 kept _.
            put_session-AllWellFormed postcard t.session_id _ r1
              (WellFormed-epoch postcard _ t.host_epoch
                (new-WellFormed postcard t.session_id _ remote))
              kept)
        λ s found. inv

  rollback_remote_mirror-AllWellFormed :
      (id : SessionId) (r : Registry σ)
      → AllWellFormed postcard r
      → AllWellFormed postcard (rollback_remote_mirror io id r)
  unfolding rollback_remote_mirror with_store
  rollback_remote_mirror-AllWellFormed id r inv =
      remove postcard id r (rollback_remote_mirror io id r) refl inv

  subscribe_mirror-AllWellFormed :
      (t : SessionTicket) (joiner : PeerInfo) (outcome : Result BridgeError (Unit {0}))
      (claim : Session × Bool) (r : Registry σ)
      → AllWellFormed postcard r
      → AllWellFormed postcard (subscribe_mirror io t joiner outcome claim r).1
  unfolding subscribe_mirror
  subscribe_mirror-AllWellFormed t joiner outcome (s, false) r inv = inv
  subscribe_mirror-AllWellFormed t joiner (ok _) (s, true) r inv =
      request-AllWellFormed postcard _ r inv
  subscribe_mirror-AllWellFormed t joiner (err e) (s, true) r inv =
      rollback_remote_mirror-AllWellFormed t.session_id _ (request-AllWellFormed postcard _ r inv)
  subscribe_mirror-AllWellFormed t joiner panic (s, true) r inv = inv

module _ (env : Env) {σ : Type 0} (io : SessionStore σ) where
  materialise-AllWellFormed :
      (t : SessionTicket) (joiner : PeerInfo) (outcome : Result BridgeError (Unit {0}))
      (r : Registry σ)
      → AllWellFormed env.postcard r
      → AllWellFormed env.postcard (materialise_remote_session env io t joiner outcome r).1
  unfolding materialise_remote_session
  materialise-AllWellFormed t joiner outcome r inv =
      if-keeps (AllWellFormed env.postcard) (bearer_check env t r) _ _
        (λ _.
          if-keeps (AllWellFormed env.postcard) r.bridge _ _
            (λ _.
              and_then-keeps (AllWellFormed env.postcard) (claim_remote_mirror io t r) _
                (claim_remote_mirror-AllWellFormed env.postcard io t r inv)
                λ claim r1 _ kept.
                  subscribe_mirror-AllWellFormed env.postcard io t joiner outcome claim r1 kept)
            λ _. inv)
        λ _. inv

  locate-ok :
      (t : SessionTicket) (peer : PeerInfo) (outcome : Result BridgeError (Unit {0}))
      (r : Registry σ) (s : Session)
      → (locate env io t peer outcome r).0 ≡ ok s
      → (Map.get t.session_id r.sessions ≡ some s) ⊎ (s ≡ fresh_mirror t)
  unfolding locate
  locate-ok t peer outcome r s h = elim (Option-cases (Map.get t.session_id r.sessions)) [
    | inl missing ↦
        inr (unfold materialise_remote_session claim_remote_mirror subscribe_mirror in ground arith)
    | inr (s', found) ↦ inl (ground arith)
  ]

  locate-WellFormed :
      (t : SessionTicket) (peer : PeerInfo) (outcome : Result BridgeError (Unit {0}))
      (r : Registry σ) (s : Session)
      → (locate env io t peer outcome r).0 ≡ ok s
      → AllWellFormed env.postcard r
      → WellFormed env.postcard s
  locate-WellFormed t peer outcome r s h inv = elim (locate-ok t peer outcome r s h) [
    | inl found ↦ inv t.session_id s found
    | inr fresh ↦ subst (WellFormed env.postcard) (sym fresh) (
        unfold fresh_mirror in
        WellFormed-epoch env.postcard _ t.host_epoch
          (new-WellFormed env.postcard t.session_id _ remote))
  ]

  locate-AllWellFormed :
      (t : SessionTicket) (peer : PeerInfo) (outcome : Result BridgeError (Unit {0}))
      (r : Registry σ)
      → AllWellFormed env.postcard r
      → AllWellFormed env.postcard (locate env io t peer outcome r).1
  unfolding locate
  locate-AllWellFormed t peer outcome r inv =
      lookup-keeps (AllWellFormed env.postcard) (Map.get t.session_id r.sessions) _ _
        (λ (z : Reply σ Session). z.1)
        (if-keeps (AllWellFormed env.postcard) (host_peer_id t == r.daemon_peer_id) _ _ (λ _. inv)
          λ _. materialise-AllWellFormed t peer outcome r inv)
        λ s found. inv

  pub join-AllWellFormed :
      (ticket : Bytes) (peer : PeerInfo) (outcome : Result BridgeError (Unit {0})) (r : Registry σ)
      → AllWellFormed env.postcard r
      → AllWellFormed env.postcard (join env io ticket peer outcome r).1
  unfolding join
  join-AllWellFormed ticket peer outcome r inv =
      result-keeps (AllWellFormed env.postcard) (decode env.tickets ticket) _ _ _ (λ _. inv) inv
        λ t _.
          and_then-keeps (AllWellFormed env.postcard) (locate env io t peer outcome r) _
            (locate-AllWellFormed t peer outcome r inv)
            λ s r1 located kept.
              enrol-AllWellFormed env.postcard io t.session_id peer s r1
                (locate-WellFormed t peer outcome r s located inv) kept
