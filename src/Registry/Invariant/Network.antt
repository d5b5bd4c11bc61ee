-- ===== src/Registry/Invariant/Network.antt =====
-- crates/artel-daemon/src/session.rs: the invariant through what comes in over the network:
-- admissions, joins, the messages and the epochs of the host, and what it delivers.
use artel.Common.{
  ℕ, ◌≡◌, refl, Bool, true, false, Option, none, some, List, [], ◌∷◌, arith, if◌then◌else◌, ◌&&◌,
  leb, ◌||◌,
}
use artel.Common.Map
use artel.Common.Map.{get-insert, get-remove}
use artel.Common.Set
use artel.Protocol.Bytes.{Bytes}
use artel.Protocol.Ids.{SessionId, PeerId}
use artel.Protocol.Message.{PeerInfo}
use artel.Session.{Postcard, Session, is_local, CapClaim}
use artel.Session.WellFormed.{
  WellFormed, WellFormed-ledger, WellFormed-epoch, WellFormed-join, WellFormed-envelope,
}
use artel.Store.{SessionStore}
use artel.Registry.State.{Registry, Reply, session_closed, put_session, emit, ask}
use artel.Registry.Rules.{stored-keeps, if-keeps, lookup-keeps, with_local-keeps}
use artel.Protocol.Ticket.{TicketEntry}
use artel.Registry.Join.{enrol, host_closed_session, advance_host_epoch_watermark}
use artel.Registry.Deliver.{publish_workspace_ticket, deliver_all}
use artel.Protocol.Ticket.{TicketEntry}
use artel.Registry.Members.{note_use, admit, record_use, deliver_workspace_ticket_to}
use artel.Registry.Invariant.{
  AllWellFormed, keep, put_session-AllWellFormed, remove, emit-AllWellFormed, request-AllWellFormed,
  with_store-AllWellFormed, stored-put,
}

module _ (postcard : Postcard) {σ : Type 0} where
  pub deliver_workspace_ticket_to-sessions :
      (id : SessionId) (peer : PeerId) (envelope : Bytes) (r : Registry σ)
      → (deliver_workspace_ticket_to id peer envelope r).sessions ≡ r.sessions
  unfolding deliver_workspace_ticket_to ask
  deliver_workspace_ticket_to-sessions id peer envelope r = ground arith

  deliver_all-AllWellFormed :
      (id : SessionId) (envelope : Bytes) (peers : List PeerId) (r : Registry σ)
      → AllWellFormed postcard r
      → AllWellFormed postcard (deliver_all id envelope peers r)
  unfolding deliver_all
  deliver_all-AllWellFormed id envelope [] r inv = inv
  deliver_all-AllWellFormed id envelope (p ∷ ps) r inv =
      deliver_all-AllWellFormed id envelope ps _ (
        keep postcard r (deliver_workspace_ticket_to id p envelope r)
          (deliver_workspace_ticket_to-sessions id p envelope r) inv)

module _ (postcard : Postcard) {σ : Type 0} (io : SessionStore σ) where
  note_use-WellFormed :
      (id : SessionId) (s : Session) (claim : Option CapClaim) (peer : PeerId) (r : Registry σ)
      → WellFormed postcard s
      → WellFormed postcard (note_use io id s claim peer r).0
  unfolding note_use
  note_use-WellFormed id s none peer r w = w
  note_use-WellFormed id s (some claim) peer r w =
      let used : Bool × List TicketEntry = record_use claim.ticket_id peer s.tickets in
      elim (is_local s.kind && used.0)
        as (λ c.
          let z : Session × σ =
            if c
            then (record s { tickets = used.1 }, (io.put_tickets id used.1 r.store).1)
            else (s, r.store) in
          WellFormed postcard z.0) [ true ↦ WellFormed-ledger postcard s used.1 w | false ↦ w ]

  pub admit-AllWellFormed :
      (id : SessionId) (s : Session) (peer : PeerInfo) (claim : Option CapClaim) (r : Registry σ)
      → WellFormed postcard s
      → AllWellFormed postcard r
      → AllWellFormed postcard (admit io id s peer claim r).1
  unfolding admit
  admit-AllWellFormed id s peer claim r w inv =
      stored-keeps (AllWellFormed postcard) (io.add_member id peer r.store) r _
        (λ st. with_store-AllWellFormed postcard st r inv)
        λ _ r1 kept _.
          let joined : Session = record s { members = Set.insert peer.id s.members } in
          emit-AllWellFormed postcard _ _ (
            put_session-AllWellFormed postcard id _ _
              (note_use-WellFormed id joined claim peer.id r1
                (WellFormed-join postcard s peer.id w))
              (with_store-AllWellFormed postcard _ r1 kept))

  pub enrol-AllWellFormed :
      (id : SessionId) (peer : PeerInfo) (s : Session) (r : Registry σ)
      → WellFormed postcard s
      → AllWellFormed postcard r
      → AllWellFormed postcard (enrol io id peer s r).1
  unfolding enrol put_session emit
  enrol-AllWellFormed id peer s r w inv =
      if-keeps (AllWellFormed postcard) (Set.contains peer.id s.members) _ _ (λ _. inv)
        λ _.
          stored-put postcard io (io.add_member id peer r.store) r id
            (λ _. record s { members = Set.insert peer.id s.members }) _ inv
            (λ _. WellFormed-join postcard s peer.id w) λ _ r1. refl

  pub host_closed_session-AllWellFormed :
      (id : SessionId) (r : Registry σ)
      → AllWellFormed postcard r
      → AllWellFormed postcard (host_closed_session io id r).1
  unfolding host_closed_session emit
  host_closed_session-AllWellFormed id r inv =
      lookup-keeps (AllWellFormed postcard) (Map.get id r.sessions) _ _
        (λ (z : Reply σ (Unit {0})). z.1) inv
        λ s found.
          if-keeps (AllWellFormed postcard) (is_local s.kind) _ _ (λ _. inv)
            λ _.
              stored-keeps (AllWellFormed postcard) (io.delete id r.store) r _
                (λ st. with_store-AllWellFormed postcard st r inv)
                λ _ r1 kept _.
                  let dropped : Registry σ =
                    emit (session_closed id) (record r1 { sessions = Map.remove id r1.sessions }) in
                  request-AllWellFormed postcard _ dropped (remove postcard id r1 dropped refl kept)

  pub advance_host_epoch_watermark-AllWellFormed :
      (id : SessionId) (epoch : ℕ) (r : Registry σ)
      → AllWellFormed postcard r
      → AllWellFormed postcard (advance_host_epoch_watermark io id epoch r).1
  unfolding advance_host_epoch_watermark put_session
  advance_host_epoch_watermark-AllWellFormed id epoch r inv =
      lookup-keeps (AllWellFormed postcard) (Map.get id r.sessions) _ _
        (λ (z : Reply σ (Unit {0})). z.1) inv
        λ s found.
          if-keeps (AllWellFormed postcard) (is_local s.kind || leb epoch s.host_epoch) _ _
            (λ _. inv)
            λ _.
              stored-put postcard io (io.bump_host_epoch id epoch r.store) r id
                (λ _. record s { host_epoch = epoch }) _ inv
                (λ _. WellFormed-epoch postcard s epoch (inv id s found)) λ _ r1. refl

  pub publish_workspace_ticket-AllWellFormed :
      (id : SessionId) (envelope : Bytes) (r : Registry σ)
      → AllWellFormed postcard r
      → AllWellFormed postcard (publish_workspace_ticket io id envelope r).1
  unfolding publish_workspace_ticket
  publish_workspace_ticket-AllWellFormed id envelope r inv =
      with_local-keeps (AllWellFormed postcard) id r _ inv λ s found _.
        stored-keeps (AllWellFormed postcard) (io.put_workspace_ticket id envelope r.store) r _
          (λ st. with_store-AllWellFormed postcard st r inv)
          λ _ r1 kept _. deliver_all-AllWellFormed postcard id envelope s.members _ (
            put_session-AllWellFormed postcard id _ r1
              (WellFormed-envelope postcard s (some envelope) (inv id s found)) kept)
