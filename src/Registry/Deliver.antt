-- ===== src/Registry/Deliver.antt =====
-- crates/artel-daemon/src/session.rs: what the host delivers to one peer over a direct stream. The
-- host publishes its workspace ticket; a mirror takes in tickets, upgrades, downgrades, rotations.
use artel.Common.{
  ℕ, Bool, false, none, some, List, [], ◌∷◌, Result, ok, err, if◌then◌else◌, ◌==◌, String,
}
use artel.Common.Map
use artel.Protocol.Bytes.{Bytes, bytes_eq}
use artel.Protocol.Ids.{SessionId, PeerId}
use artel.Protocol.Message.{upgrade_action, downgrade_action, rotate_action}
use artel.Session.{Session, is_local}
use artel.Store.{SessionStore}
use artel.Registry.State.{
  Env, Registry, Reply, SessionError, wrong_sender, hosted_here, internal, with_local, stored,
  put_session, emit, message,
}
use artel.Registry.Subscribe.{synthetic_system_message, synthetic_ticket_message}
use artel.Registry.Members.{deliver_workspace_ticket_to}

-- `s.workspace_ticket.as_deref() == Some(envelope)`
unfoldable pub holds_ticket : Session → Bytes → Bool
holds_ticket s envelope = elim s.workspace_ticket [
  | none ↦ false
  | some held ↦ bytes_eq held envelope
]

module _ {σ : Type 0} where
  -- `lock_remote_session_from_host`; `what` names the payload in the errors.
  unfoldable pub lock_remote_session_from_host :
      SessionId → PeerId → String → Registry σ → Result SessionError Session
  lock_remote_session_from_host session sender_peer what r = elim (Map.get session r.sessions) [
    | none ↦ err (SessionError.unknown_session session)
    | some s ↦
        if is_local s.kind
        then err (internal (hosted_here what))
        else if sender_peer == s.host
        then ok s
        else err (internal (wrong_sender what sender_peer s.host))
  ]

  -- A message that is made up here, told once and never logged.
  unfoldable pub emit_live :
      SessionId → PeerId → String → Bytes → Bytes → Registry σ → Reply σ (Unit {0})
  emit_live session sender_peer what action payload r =
      elim (lock_remote_session_from_host session sender_peer what r) [
        | err e ↦ (err e, r)
        | Result.panic ↦ (Result.panic, r)
        | ok s ↦ (ok tt, emit (message session (synthetic_system_message s.host action payload)) r)
      ]

  unfoldable pub deliver_all : SessionId → Bytes → List PeerId → Registry σ → Registry σ
  deliver_all session envelope [] r = r
  deliver_all session envelope (p ∷ ps) r =
      deliver_all session envelope ps (deliver_workspace_ticket_to session p envelope r)

module _ (env : Env) {σ : Type 0} where
  unfoldable pub emit_upgrade : SessionId → PeerId → Bytes → Registry σ → Reply σ (Unit {0})
  emit_upgrade session sender_peer namespace_secret r =
      emit_live session sender_peer "upgrades" upgrade_action
        (env.postcard.encode_upgrade r.daemon_peer_id namespace_secret) r

  unfoldable pub emit_downgrade : SessionId → PeerId → Registry σ → Reply σ (Unit {0})
  emit_downgrade session sender_peer r =
      emit_live session sender_peer "downgrades" downgrade_action
        (env.postcard.encode_downgrade r.daemon_peer_id) r

  unfoldable pub emit_rotate : SessionId → PeerId → ℕ → Bytes → Registry σ → Reply σ (Unit {0})
  emit_rotate session sender_peer namespace_epoch doc_ticket r =
      emit_live session sender_peer "rotations" rotate_action
        (env.postcard.encode_rotate r.daemon_peer_id namespace_epoch doc_ticket) r

module _ {σ : Type 0} (io : SessionStore σ) where
  -- Stored, then in memory, then told; the same bytes a second time change nothing.
  unfoldable pub emit_workspace_ticket :
      SessionId → PeerId → Bytes → Registry σ → Reply σ (Unit {0})
  emit_workspace_ticket session sender_peer envelope r =
      elim (lock_remote_session_from_host session sender_peer "workspace tickets" r) [
        | err e ↦ (err e, r)
        | Result.panic ↦ (Result.panic, r)
        | ok s ↦
            if holds_ticket s envelope
            then (ok tt, r)
            else stored (io.put_workspace_ticket session envelope r.store) r λ _ r1. (
              ok tt,
              emit (message session (synthetic_ticket_message s.host envelope))
                  (put_session session (record s { workspace_ticket = some envelope }) r1),
            )
      ]

  unfoldable pub publish_workspace_ticket : SessionId → Bytes → Registry σ → Reply σ (Unit {0})
  publish_workspace_ticket session envelope r = with_local session r λ s.
      stored (io.put_workspace_ticket session envelope r.store) r λ _ r1. (
        ok tt,
        deliver_all session envelope s.members
            (put_session session (record s { workspace_ticket = some envelope }) r1),
      )
