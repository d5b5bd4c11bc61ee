-- ===== src/Registry/Subscribe.antt =====
-- crates/artel-daemon/src/session.rs: what the daemon shows of a log, to local clients
-- (`subscribe`) and on the gossip topic (`log_since`), and the messages it makes up itself.
pub mod Shown
use artel.Common.{
  ℕ, Bool, true, false, not, Option, none, some, List, [], ◌∷◌, ◌++◌, Result, ok, err,
  if◌then◌else◌, ltb, ◌&&◌, ◌||◌, filter,
}
use artel.Common.Map
use artel.Protocol.Bytes.{Bytes, bytes_eq, codes}
use artel.Protocol.Ids.{SessionId, PeerId, Seq}
use artel.Protocol.Message.{
  SessionMessage, new, signature_unsigned, system, is_system, is_capability, ticket_action,
  upgrade_action, downgrade_action, rotate_action,
}
use artel.Session.{Session}
use artel.Registry.State.{Registry, Reply, SessionError, unknown_session, with_session}
use artel.Registry.Send.{reserved}

unfoldable pub synthetic_system_message : PeerId → Bytes → Bytes → SessionMessage
synthetic_system_message host action payload =
    new 0 0 (record { id = host; display_name = codes "host" }) system action payload
      signature_unsigned signature_unsigned

unfoldable pub synthetic_ticket_message : PeerId → Bytes → SessionMessage
synthetic_ticket_message host envelope = synthetic_system_message host ticket_action envelope

abbrev pub is_none {ℓ} : {A : Type ℓ} → Option A → Bool
is_none none = true
is_none (some _) = false

-- The filter of `subscribe`.
unfoldable pub shown_to_clients : Seq → SessionMessage → Bool
shown_to_clients cutoff m = ltb cutoff m.seq && is_none (reserved m.kind m.action)

-- The filter of `log_since`.
unfoldable pub shown_to_peers : Seq → SessionMessage → Bool
shown_to_peers since m =
    ltb since m.seq
    && not (is_capability m.kind)
    && not (
        is_system m.kind
        && (bytes_eq m.action upgrade_action
            || bytes_eq m.action ticket_action
            || bytes_eq m.action downgrade_action
            || bytes_eq m.action rotate_action))

-- `since.unwrap_or(Seq::ZERO)`
unfoldable pub cutoff_of : Option Seq → Seq
cutoff_of none = 0
cutoff_of (some since) = since

unfoldable pub ticket_prelude : PeerId → Option Bytes → List SessionMessage
ticket_prelude host none = []
ticket_prelude host (some envelope) = synthetic_ticket_message host envelope ∷ []

-- The replay of a session. The live events behind it are the registry's `emitted`.
unfoldable pub replay : Session → Option Seq → List SessionMessage
replay s since =
    ticket_prelude s.host s.workspace_ticket ++ filter (shown_to_clients (cutoff_of since)) s.log

module _ {σ : Type 0} where
  unfoldable pub subscribe : SessionId → Option Seq → Registry σ → Reply σ (List SessionMessage)
  subscribe session since r = with_session session r λ s. (ok (replay s since), r)

  unfoldable pub log_since : SessionId → Seq → Registry σ → Reply σ (List SessionMessage)
  log_since session since r =
      with_session session r λ s. (ok (filter (shown_to_peers since) s.log), r)
