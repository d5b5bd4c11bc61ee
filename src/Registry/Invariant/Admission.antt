-- ===== src/Registry/Invariant/Admission.antt =====
-- crates/artel-daemon/src/session.rs: the invariant through `ensure_member`, inbound messages and the
-- host's workspace tickets.
use artel.Common.{
  ℕ, ◌≡◌, ap, inl, inr, Bool, true, false, Option, some, arith, ◌&&◌, Result-cases, Bool-cases,
}
use artel.Common.Map
use artel.Common.Map.{get-insert, get-remove}
use artel.Common.Set
use artel.Protocol.Bytes.{Bytes}
use artel.Protocol.Ids.{SessionId, PeerId}
use artel.Protocol.Message.{PeerInfo, SessionMessage}
use artel.Session.{Postcard, Session, remote, is_local, CapClaim}
use artel.Session.WellFormed.{WellFormed, WellFormed-envelope}
use artel.Store.{Io-cases, SessionStore}
use artel.Registry.State.{Env, Registry, put_session, emit, ask, with_store}
use artel.Registry.Rules.{if-keeps, result-keeps, with_session-keeps}
use artel.Registry.Invariant.Sending.{send-AllWellFormed}
use artel.Registry.Deliver.{emit_workspace_ticket, lock_remote_session_from_host, holds_ticket}
use artel.Registry.Members.{
  check_claim?, admissible?, claimed_cap, admit, deliver_workspace_ticket_to, auto_grant_on_join,
  after_admission, ensure_member,
}
use artel.Registry.Mirror.{
  mirror_insert, partition_point, has_seq_at, authentic, accept_inbound, apply_inbound,
}
use artel.Registry.Mirror.Order.{mirror_insert-WellFormed}
use artel.Registry.Invariant.Network.{admit-AllWellFormed}
use artel.Registry.Invariant.{AllWellFormed, keep, put}

module _ (postcard : Postcard) {σ : Type 0} (io : SessionStore σ) where
  accept_inbound-AllWellFormed :
      (id : SessionId) (s : Session) (m : SessionMessage) (r : Registry σ)
      → WellFormed postcard (mirror_insert s m)
      → AllWellFormed postcard r
      → AllWellFormed postcard (accept_inbound io id s m r)
  accept_inbound-AllWellFormed id s m r w inv = elim (Io-cases (io.append id m r.store).0) [
    | inl (a, appended) ↦
        put postcard id (mirror_insert s m) r (accept_inbound io id s m r)
          (unfold accept_inbound with_store put_session emit in ground arith) w inv
    | inr (e, refused) ↦
        keep postcard r (accept_inbound io id s m r)
          (unfold accept_inbound with_store in ground arith) inv
  ]

  -- A new message keeps a mirror well formed, and no other session changes.
  pub apply_inbound-AllWellFormed :
      (ed : Env) (id : SessionId) (s : Session) (m : SessionMessage) (r : Registry σ)
      → s.kind ≡ remote
      → Map.get id r.sessions ≡ some s
      → AllWellFormed postcard r
      → AllWellFormed postcard (apply_inbound ed io id s m r)
  apply_inbound-AllWellFormed ed id s m r k found inv =
      elim (Bool-cases (has_seq_at (partition_point m.seq s.log) m.seq s.log)) [
        | inl held ↦
            keep postcard r (apply_inbound ed io id s m r) (unfold apply_inbound in ground arith)
              inv
        | inr new_seq ↦
            let w = mirror_insert-WellFormed postcard s m k new_seq (inv id s found) in
            elim (Bool-cases (authentic ed.ed25519 id s m)) [
              | inl genuine ↦
                  let accepted : apply_inbound ed io id s m r ≡ accept_inbound io id s m r =
                    unfold apply_inbound in ground arith in
                  keep postcard (accept_inbound io id s m r) (apply_inbound ed io id s m r)
                    (ap (λ x. x.sessions) accepted) (accept_inbound-AllWellFormed id s m r w inv)
              | inr forged ↦
                  keep postcard r (apply_inbound ed io id s m r)
                    (unfold apply_inbound in ground arith) inv
            ]
      ]

  pub emit_workspace_ticket-AllWellFormed :
      (id : SessionId) (sender : PeerId) (envelope : Bytes) (s : Session) (r : Registry σ)
      → Map.get id r.sessions ≡ some s
      → AllWellFormed postcard r
      → AllWellFormed postcard (emit_workspace_ticket io id sender envelope r).1
  emit_workspace_ticket-AllWellFormed id sender envelope s r found inv =
      let after = (emit_workspace_ticket io id sender envelope r).1 in
      elim (Result-cases (emit_workspace_ticket io id sender envelope r).0) [
        | inl (a, taken) ↦ elim (Bool-cases (holds_ticket s envelope)) [
          | inl held ↦
              keep postcard r after
                (unfold emit_workspace_ticket lock_remote_session_from_host in ground arith) inv
          | inr fresh ↦
              put postcard id (record s { workspace_ticket = some envelope }) r after
                (unfold emit_workspace_ticket lock_remote_session_from_host put_session emit
                    with_store in
                  ground arith)
                (WellFormed-envelope postcard s (some envelope) (inv id s found)) inv
        ]
        | inr (inl (e, refused)) ↦
            keep postcard r after
              (unfold emit_workspace_ticket lock_remote_session_from_host with_store in
                ground arith)
              inv
        | inr (inr panicked) ↦
            keep postcard r after
              (unfold emit_workspace_ticket lock_remote_session_from_host with_store in
                ground arith)
              inv
      ]

module _ (env : Env) {σ : Type 0} (io : SessionStore σ) where
  after_admission-AllWellFormed :
      (id : SessionId) (s : Session) (peer : PeerInfo) (claim : Option CapClaim) (newly : Bool)
      (now : ℕ) (r : Registry σ)
      → AllWellFormed env.postcard r
      → AllWellFormed env.postcard (after_admission env io id s peer claim newly now r).1
  after_admission-AllWellFormed id s peer claim newly now r inv =
      let after = (after_admission env io id s peer claim newly now r).1 in
      let granting = auto_grant_on_join env io id peer.id (claimed_cap claim) now r in
      let granted : AllWellFormed env.postcard granting =
        unfold auto_grant_on_join in send-AllWellFormed env io _ _ _ _ _ _ _ _ r inv in
      elim (Bool-cases (is_local s.kind && newly)) [
        | inl hosted ↦
            keep env.postcard granting after
              (unfold after_admission deliver_workspace_ticket_to ask in ground arith) granted
        | inr other ↦
            keep env.postcard r after
              (unfold after_admission deliver_workspace_ticket_to ask in ground arith) inv
      ]

  pub ensure_member-AllWellFormed :
      (id : SessionId) (peer : PeerInfo) (claim : Option CapClaim) (now : ℕ) (r : Registry σ)
      → AllWellFormed env.postcard r
      → AllWellFormed env.postcard (ensure_member env io id peer claim now r).1
  unfolding ensure_member
  ensure_member-AllWellFormed id peer claim now r inv =
      result-keeps (AllWellFormed env.postcard) (check_claim? env r id claim now) _ _ _ (λ _. inv)
        inv
        λ _ _. with_session-keeps (AllWellFormed env.postcard) id r _ inv λ s found.
          if-keeps (AllWellFormed env.postcard) (admissible? s claim) _ _
            (λ _.
              if-keeps (AllWellFormed env.postcard) (Set.contains peer.id s.members) _ _
                (λ _. after_admission-AllWellFormed id s peer claim false now r inv)
                λ _.
                  let admitted =
                    admit-AllWellFormed env.postcard io id s peer claim r (inv id s found) inv in
                  result-keeps (AllWellFormed env.postcard) (admit io id s peer claim r).0 _ _ _
                    (λ _. admitted) admitted
                    λ _ _. after_admission-AllWellFormed id s peer claim true now _ admitted)
            λ _. inv
