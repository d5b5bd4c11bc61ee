-- ===== src/Registry/Members.antt =====
-- crates/artel-daemon/src/session.rs: `ensure_member`, `remove_member`, `leave`, `list` and
-- `is_member`.
use artel.Common.{
  ℕ, Bool, true, false, not, Option, none, some, List, [], ◌∷◌, ◌++◌, Result, ok, err, panic,
  if◌then◌else◌, ◌==◌, leb, ◌&&◌, ◌||◌, map,
}
use artel.Common.Map
use artel.Common.Set
use artel.Protocol.Bytes.{Bytes, codes}
use artel.Protocol.Ids.{SessionId, TicketId, PeerId}
use artel.Protocol.Capability.{Capability, read_write, grant}
use artel.Protocol.Message.{PeerInfo, capability}
use artel.Protocol.Signing.{verify_ticket_cap, verify_reason}
use artel.Protocol.Ticket.{TicketEntry}
use artel.Session.{Session, is_local, CapClaim, ticket_admissible, SessionSummary, summary}
use artel.Store.{SessionStore}
use artel.Registry.State.{
  Env, Registry, Reply, SessionError, BridgeError, not_member, ticket_expired, invalid_cap_claim,
  ticket_not_admissible, with_session, with_local, with_store, stored, put_session, emit, request,
  ask, peer_joined, peer_left, session_closed, publish_session_closed, forget_session,
  deliver_workspace_ticket,
}
use artel.Registry.Send.{here, send}

abbrev pub action_grant : Bytes
action_grant = codes "capability.grant"

-- `tickets.iter_mut().find(id)`, then `used_by.push(peer)` if it is not there yet: whether the
-- ledger has changed, and the ledger.
unfoldable pub record_use : TicketId → PeerId → List TicketEntry → Bool × List TicketEntry
record_use id peer [] = (false, [])
record_use id peer (t ∷ ts) =
    let rest = record_use id peer ts in
    if t.ticket_id == id
    then (if Set.contains peer t.used_by
        then (false, t ∷ ts)
        else (true, record t { used_by = t.used_by ++ peer ∷ [] } ∷ ts))
    else (rest.0, t ∷ rest.1)

module _ (env : Env) {σ : Type 0} where
  -- A claim's expiry and signature, before any state is looked at.
  unfoldable pub check_claim :
      Registry σ → SessionId → CapClaim → ℕ → Result SessionError (Unit {0})
  check_claim r session claim now =
      if not (claim.expiry_ms == 0) && leb claim.expiry_ms now
      then err ticket_expired
      else elim r.signing_key [
        | none ↦ ok tt
        | some _ ↦
            elim (verify_ticket_cap env.ed25519 r.daemon_peer_id claim.ticket_id session
              claim.granted_cap claim.expiry_ms claim.host_epoch claim.cap_sig) [
                | ok _ ↦ ok tt
                | err e ↦ err (invalid_cap_claim (verify_reason e))
                | panic ↦ panic
              ]
      ]

  -- `if let Some(ref claim) = cap_claim`
  unfoldable pub check_claim? :
      Registry σ → SessionId → Option CapClaim → ℕ → Result SessionError (Unit {0})
  check_claim? r session none now = ok tt
  check_claim? r session (some claim) now = check_claim r session claim now

unfoldable pub admissible? : Session → Option CapClaim → Bool
admissible? s none = true
admissible? s (some claim) = ticket_admissible s claim

-- `map_or(Capability::ReadWrite, |c| c.granted_cap)`
unfoldable pub claimed_cap : Option CapClaim → Capability
claimed_cap none = read_write
claimed_cap (some claim) = claim.granted_cap

module _ {σ : Type 0} (io : SessionStore σ) where
  -- The advisory part of an admission: its failure fails nothing, and keeps the change in memory.
  unfoldable pub note_use :
      SessionId → Session → Option CapClaim → PeerId → Registry σ → Session × σ
  note_use session s none peer r = (s, r.store)
  note_use session s (some claim) peer r =
      let (changed, tickets) = record_use claim.ticket_id peer s.tickets in
      if is_local s.kind && changed
      then (record s { tickets = tickets }, (io.put_tickets session tickets r.store).1)
      else (s, r.store)

  -- A peer that is no member yet: stored, then in memory, then told.
  unfoldable pub admit :
      SessionId → Session → PeerInfo → Option CapClaim → Registry σ → Reply σ (Unit {0})
  admit session s peer claim r = stored (io.add_member session peer r.store) r λ _ r1.
      let joined : Session = record s { members = Set.insert peer.id s.members } in
      let (noted, st) = note_use session joined claim peer.id r1 in
      (ok tt, emit (peer_joined session peer) (put_session session noted (with_store st r1)))

  -- The step that `remove_member` and `leave` share: stored, then in memory, then told.
  unfoldable pub drop_member : SessionId → Session → PeerId → Registry σ → Reply σ (Unit {0})
  drop_member session s peer r = stored (io.remove_member session peer r.store) r λ _ r1. (
    ok tt,
    emit (peer_left session peer)
        (put_session session (record s { members = Set.remove peer s.members }) r1),
  )

  unfoldable pub remove_member : SessionId → PeerId → Registry σ → Reply σ (Unit {0})
  remove_member session peer r = with_local session r λ s.
      if peer == s.host
      then (ok tt, r)
      else if Set.contains peer s.members
      then drop_member session s peer r
      else (ok tt, r)

  -- `leave` when the session ends here with it.
  unfoldable pub close : SessionId → Session → PeerId → Registry σ → Reply σ (Unit {0})
  close session s peer r = stored (io.delete session r.store) r λ _ r1.
      let told = emit (session_closed session) r1 in
      let dropped = record told { sessions = Map.remove session told.sessions } in
      let announced =
        if peer == s.host && is_local s.kind
        then request (publish_session_closed session s.host_epoch) dropped
        else dropped in
      (ok tt, request (forget_session session) announced)

  unfoldable pub leave : SessionId → PeerId → Registry σ → Reply σ (Unit {0})
  leave session peer r = with_session session r λ s.
      if Set.contains peer s.members
      then (if peer == s.host || not (is_local s.kind)
          then close session s peer r
          else drop_member session s peer r)
      else (err (not_member session), r)

module _ {σ : Type 0} where
  -- The delivery itself is a detached task; it is not begun to oneself, or without an endpoint.
  unfoldable pub deliver_workspace_ticket_to : SessionId → PeerId → Bytes → Registry σ → Registry σ
  deliver_workspace_ticket_to session target envelope r =
      if target == r.daemon_peer_id || not r.endpoint
      then r
      else elim (Map.get session r.sessions) [
        | none ↦ r
        | some _ ↦ ask (deliver_workspace_ticket session target envelope) r
      ]

module _ (env : Env) {σ : Type 0} (io : SessionStore σ) where
  -- The host's own capability message; its failure is only logged.
  unfoldable pub auto_grant_on_join : SessionId → PeerId → Capability → ℕ → Registry σ → Registry σ
  auto_grant_on_join session peer cap now r =
      (send env io session (record { id = r.daemon_peer_id; display_name = codes "host" })
        capability action_grant (env.postcard.encode_action (grant peer cap)) here now
        (err BridgeError.send_timeout) r).1

  -- After the admission: the grant for a new member of a session hosted here, then the envelope.
  unfoldable pub after_admission :
      SessionId → Session → PeerInfo → Option CapClaim → Bool → ℕ → Registry σ → Reply σ (Unit {0})
  after_admission session s peer claim newly now r =
      let granted =
        if is_local s.kind && newly
        then auto_grant_on_join session peer.id (claimed_cap claim) now r
        else r in
      (
        ok tt,
        elim s.workspace_ticket [
          | none ↦ granted
          | some envelope ↦
              if is_local s.kind
              then deliver_workspace_ticket_to session peer.id envelope granted
              else granted
        ],
      )

  -- `ensure_member`; every admission over the network carries a claim.
  unfoldable pub ensure_member :
      SessionId → PeerInfo → Option CapClaim → ℕ → Registry σ → Reply σ (Unit {0})
  ensure_member session peer claim now r = elim (check_claim? env r session claim now) [
    | err e ↦ (err e, r)
    | panic ↦ (panic, r)
    | ok _ ↦ with_session session r λ s.
        if admissible? s claim
        then (if Set.contains peer.id s.members
            then after_admission session s peer claim false now r
            else (let (admitted, r1) = admit io session s peer claim r in
                elim admitted [
                  | ok _ ↦ after_admission session s peer claim true now r1
                  | err e ↦ (err e, r1)
                  | panic ↦ (panic, r1)
                ]))
        else (err ticket_not_admissible, r)
  ]

module _ {σ : Type 0} where
  unfoldable pub list : Registry σ → List SessionSummary
  list r = map (summary r.daemon_peer_id) (Map.values r.sessions)

  unfoldable pub is_member : SessionId → PeerId → Registry σ → Option Bool
  is_member session peer r = elim (Map.get session r.sessions) [
    | none ↦ none
    | some s ↦ some (Set.contains peer s.members)
  ]
