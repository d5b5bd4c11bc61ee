-- ===== src/Registry/Join/Epochs.antt =====
-- crates/artel-daemon/src/session.rs: the epochs that a mirror has seen only rise, and the delivery of
-- a workspace ticket is idempotent.
use artel.Protocol.Bytes.{bytes_eq_refl}
use artel.Common.{
  max, ℕ, ◌≡◌, ap, ◌∙◌, inl, inr, true, false, some, arith, ok, ◌==◌, Option-cases, leb, Bool-cases,
}
use artel.Common.Map
use artel.Protocol.Bytes.{Bytes}
use artel.Protocol.Ids.{SessionId, PeerId}
use artel.Session.{Session, remote, is_local}
use artel.Store.{SessionStore}
use artel.Registry.State.{Registry, put_session, emit, with_store}
use artel.Registry.Join.{advance_host_epoch_watermark}
use artel.Registry.Deliver.{emit_workspace_ticket, lock_remote_session_from_host, holds_ticket}
use artel.Common.Map.{get-insert_self}

module _ {σ : Type 0} (io : SessionStore σ) where
  -- An epoch that a mirror accepts leaves it with the greater of that and its own epoch, and with
  -- its other fields as they were.
  pub advance_host_epoch_watermark-max :
      (id : SessionId) (epoch : ℕ) (r : Registry σ) (s : Session)
      → Map.get id r.sessions ≡ some s
      → s.kind ≡ remote
      → (advance_host_epoch_watermark io id epoch r).0 ≡ ok tt
      → Map.get id (advance_host_epoch_watermark io id epoch r).1.sessions
        ≡ some (record s { host_epoch = max epoch s.host_epoch })
  unfolding advance_host_epoch_watermark put_session with_store is_local
  advance_host_epoch_watermark-max id epoch r s found mirror done_ =
      elim (Bool-cases (leb epoch s.host_epoch)) [
        | inl known ↦
            let same : s.host_epoch ≡ max epoch s.host_epoch = ground arith in
            let whole : s ≡ record s { host_epoch = max epoch s.host_epoch } =
              λ i. record s { host_epoch = same i } in
            let kept : Map.get id (advance_host_epoch_watermark io id epoch r).1.sessions ≡ some s =
              ground arith in
            kept ∙ ap some whole
        | inr greater ↦
            let same : epoch ≡ max epoch s.host_epoch = ground arith in
            let whole : (record s { host_epoch = epoch })
                ≡ record s { host_epoch = max epoch s.host_epoch } =
              λ i. record s { host_epoch = same i } in
            let kept : Map.get id (advance_host_epoch_watermark io id epoch r).1.sessions
                ≡ some (record s { host_epoch = epoch }) =
              ground (arith, get-insert_self id (record s { host_epoch = epoch }) r.sessions) in
            kept ∙ ap some whole
      ]

  again :
      (id : SessionId) (sender : PeerId) (envelope : Bytes) (r : Registry σ) (s : Session)
      → Map.get id r.sessions ≡ some s
      → is_local s.kind ≡ false
      → (sender == s.host) ≡ true
      → holds_ticket s envelope ≡ true
      → emit_workspace_ticket io id sender envelope r ≡ (ok tt, r)
  unfolding emit_workspace_ticket lock_remote_session_from_host
  again id sender envelope r s found mirror from_host held = ground arith

  -- A workspace ticket that was accepted is accepted again, and then changes nothing: no second
  -- event tells of it.
  emit_workspace_ticket-again :
      (id : SessionId) (sender : PeerId) (envelope : Bytes) (r : Registry σ)
      → (emit_workspace_ticket io id sender envelope r).0 ≡ ok tt
      → emit_workspace_ticket io id sender envelope
          (emit_workspace_ticket io id sender envelope r).1
        ≡ (ok tt, (emit_workspace_ticket io id sender envelope r).1)
  emit_workspace_ticket-again id sender envelope r taken =
      let after = (emit_workspace_ticket io id sender envelope r).1 in
      elim (Option-cases (Map.get id r.sessions)) [
        | inl missing ↦ unfold emit_workspace_ticket lock_remote_session_from_host in ground arith
        | inr (s, found) ↦ elim (Bool-cases (holds_ticket s envelope)) [
          | inl held ↦ unfold emit_workspace_ticket lock_remote_session_from_host in ground arith
          | inr fresh ↦
              let kept : Session = record s { workspace_ticket = some envelope } in
              let there : Map.get id after.sessions ≡ some kept =
                unfold emit_workspace_ticket lock_remote_session_from_host put_session emit
                  with_store in
                ground (arith, get-insert_self id kept r.sessions) in
              let mirror : is_local s.kind ≡ false =
                unfold emit_workspace_ticket lock_remote_session_from_host in ground arith in
              let from_host : (sender == s.host) ≡ true =
                unfold emit_workspace_ticket lock_remote_session_from_host in ground arith in
              again id sender envelope after kept there mirror from_host
                (unfold holds_ticket in bytes_eq_refl envelope)
        ]
      ]
