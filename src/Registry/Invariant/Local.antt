-- ===== src/Registry/Invariant/Local.antt =====
-- crates/artel-daemon/src/session.rs: the invariant through the operations of a hosting daemon's own
-- clients: tickets, membership, `leave`, `host` and `send`.
use artel.Common.{
  ℕ, ◌≡◌, refl, Bool, true, false, Option, none, some, List, [], ◌∷◌, arith, ok, if◌then◌else◌,
  ◌==◌, ◌&&◌, not, ◌||◌,
}
use artel.Common.Map
use artel.Common.Map.{get-insert, get-remove}
use artel.Common.Set
use artel.Protocol.Ids.{SessionId, TicketId, PeerId}
use artel.Protocol.Capability.{Capability}
use artel.Protocol.Message.{PeerInfo}
use artel.Session.{Postcard, Session, local, is_local, new}
use artel.Session.WellFormed.{
  WellFormed, new-WellFormed, WellFormed-ledger, WellFormed-epoch, WellFormed-part,
}
use artel.Store.{SessionStore}
use artel.Registry.State.{Env, Registry, Reply, Request, session_closed, put_session, emit, request}
use artel.Registry.Rules.{
  stored-keeps, if-keeps, lookup-keeps, with_session-keeps, with_local-keeps,
}
use artel.Protocol.Ticket.{TicketEntry, TicketStatus, active, revoked}
use artel.Registry.Tickets.{find_status, set_revoked, put_ledger, revoke_ticket, issue_ticket}
use artel.Registry.Host.{resume, created, create, host_pass, try_create, host, Hosted, or_retry}
use artel.Registry.Members.{drop_member, remove_member, close, leave}
use artel.Registry.Invariant.{
  AllWellFormed, put_session-AllWellFormed, remove, request-AllWellFormed, with_store-AllWellFormed,
  stored-put,
}

module _ (postcard : Postcard) {σ : Type 0} (io : SessionStore σ) where
  put_ledger-AllWellFormed :
      {A : Type 0} (id : SessionId) (s : Session) (tickets : List _) (answer : A) (r : Registry σ)
      → WellFormed postcard s
      → AllWellFormed postcard r
      → AllWellFormed postcard (put_ledger io id s tickets answer r).1
  unfolding put_ledger put_session
  put_ledger-AllWellFormed id s tickets answer r w inv =
      stored-put postcard io (io.put_tickets id tickets r.store) r id
        (λ _. record s { tickets = tickets }) _ inv (λ _. WellFormed-ledger postcard s tickets w)
        λ _ r1. refl

  drop_member-AllWellFormed :
      (id : SessionId) (s : Session) (peer : PeerId) (r : Registry σ)
      → (s.kind ≡ local → (peer == s.host) ≡ false)
      → WellFormed postcard s
      → AllWellFormed postcard r
      → AllWellFormed postcard (drop_member io id s peer r).1
  unfolding drop_member put_session emit
  drop_member-AllWellFormed id s peer r other w inv =
      stored-put postcard io (io.remove_member id peer r.store) r id
        (λ _. record s { members = Set.remove peer s.members }) _ inv
        (λ _. WellFormed-part postcard s peer other w) λ _ r1. refl

  pub remove_member-AllWellFormed :
      (id : SessionId) (peer : PeerId) (r : Registry σ)
      → AllWellFormed postcard r
      → AllWellFormed postcard (remove_member io id peer r).1
  unfolding remove_member
  remove_member-AllWellFormed id peer r inv =
      with_local-keeps (AllWellFormed postcard) id r _ inv λ s found _.
        if-keeps (AllWellFormed postcard) (peer == s.host) _ _ (λ _. inv)
          λ other.
            if-keeps (AllWellFormed postcard) (Set.contains peer s.members) _ _
              (λ _. drop_member-AllWellFormed id s peer r (λ _. other) (inv id s found) inv)
              λ _. inv

  revoke_status-AllWellFormed :
      (id : SessionId) (s : Session) (tickets : List TicketEntry) (r : Registry σ)
      (status : TicketStatus)
      → WellFormed postcard s
      → AllWellFormed postcard r
      → let z : Reply σ (Unit {0}) = elim status [
        | active ↦ put_ledger io id s tickets tt r
        | revoked ↦ (ok tt, r)
      ] in
        AllWellFormed postcard z.1
  revoke_status-AllWellFormed id s tickets r active w inv =
      put_ledger-AllWellFormed id s tickets tt r w inv
  revoke_status-AllWellFormed id s tickets r revoked w inv = inv

  pub revoke_ticket-AllWellFormed :
      (id : SessionId) (tid : TicketId) (r : Registry σ)
      → AllWellFormed postcard r
      → AllWellFormed postcard (revoke_ticket io id tid r).1
  unfolding revoke_ticket
  revoke_ticket-AllWellFormed id tid r inv =
      with_local-keeps (AllWellFormed postcard) id r _ inv λ s found _.
        lookup-keeps (AllWellFormed postcard) (find_status tid s.tickets) _ _
          (λ (z : Reply σ (Unit {0})). z.1) inv
          λ status _.
            revoke_status-AllWellFormed id s (set_revoked tid s.tickets) r status (inv id s found)
              inv

  announced-AllWellFormed :
      (c : Bool) (q : Request) (r : Registry σ)
      → AllWellFormed postcard r
      → AllWellFormed postcard (if c then request q r else r)
  announced-AllWellFormed true q r inv = request-AllWellFormed postcard q r inv
  announced-AllWellFormed false q r inv = inv

  close-AllWellFormed :
      (id : SessionId) (s : Session) (peer : PeerId) (r : Registry σ)
      → AllWellFormed postcard r
      → AllWellFormed postcard (close io id s peer r).1
  unfolding close emit
  close-AllWellFormed id s peer r inv =
      stored-keeps (AllWellFormed postcard) (io.delete id r.store) r _
        (λ st. with_store-AllWellFormed postcard st r inv)
        λ _ r1 kept _.
          let dropped : Registry σ = record (emit (session_closed id) r1) {
            sessions = Map.remove id r1.sessions;
          } in
          request-AllWellFormed postcard _ _ (
            announced-AllWellFormed (peer == s.host && is_local s.kind) _ dropped
              (remove postcard id r1 dropped refl kept))

  pub leave-AllWellFormed :
      (id : SessionId) (peer : PeerId) (r : Registry σ)
      → AllWellFormed postcard r
      → AllWellFormed postcard (leave io id peer r).1
  unfolding leave
  leave-AllWellFormed id peer r inv =
      with_session-keeps (AllWellFormed postcard) id r _ inv λ s found.
        if-keeps (AllWellFormed postcard) (Set.contains peer s.members) _ _
          (λ _.
            if-keeps (AllWellFormed postcard) (peer == s.host || not (is_local s.kind)) _ _
              (λ _. close-AllWellFormed id s peer r inv)
              λ stays.
                drop_member-AllWellFormed id s peer r (λ _. ground arith) (inv id s found) inv)
          λ _. inv

module _ (env : Env) {σ : Type 0} (io : SessionStore σ) where
  pub issue_ticket-AllWellFormed :
      (id : SessionId) (granted_cap : Capability) (expiry_ms : ℕ) (tid : TicketId) (now : ℕ)
      (r : Registry σ)
      → AllWellFormed env.postcard r
      → AllWellFormed env.postcard (issue_ticket env io id granted_cap expiry_ms tid now r).1
  unfolding issue_ticket
  issue_ticket-AllWellFormed id granted_cap expiry_ms tid now r inv =
      with_local-keeps (AllWellFormed env.postcard) id r _ inv
        λ s found _. put_ledger-AllWellFormed env.postcard io id s _ _ r (inv id s found) inv

  resume-AllWellFormed :
      (id : SessionId) (s : Session) (peer : PeerInfo) (granted_cap : Capability) (expiry_ms : ℕ)
      (tid : TicketId) (now : ℕ) (r : Registry σ)
      → WellFormed env.postcard s
      → AllWellFormed env.postcard r
      → AllWellFormed env.postcard (resume env io id s peer granted_cap expiry_ms tid now r).1
  unfolding resume
  resume-AllWellFormed id s peer granted_cap expiry_ms tid now r w inv =
      if-keeps (AllWellFormed env.postcard) (s.host == peer.id && is_local s.kind) _ _
        (λ _.
          stored-keeps (AllWellFormed env.postcard) (io.put_tickets id _ r.store) r _
            (λ st. with_store-AllWellFormed env.postcard st r inv)
            λ _ r1 kept _.
              stored-keeps (AllWellFormed env.postcard) (io.bump_host_epoch id _ r1.store) r1 _
                (λ st. with_store-AllWellFormed env.postcard st r1 kept)
                λ _ r2 kept2 _. request-AllWellFormed env.postcard _ _ (
                  request-AllWellFormed env.postcard _ _ (
                    put_session-AllWellFormed env.postcard id _ r2
                      (WellFormed-epoch env.postcard _ _ (WellFormed-ledger env.postcard s _ w))
                      kept2)))
        λ _. inv

  create-AllWellFormed :
      (id : SessionId) (peer : PeerInfo) (granted_cap : Capability) (expiry_ms : ℕ) (tid : TicketId)
      (now : ℕ) (r : Registry σ)
      → AllWellFormed env.postcard r
      → AllWellFormed env.postcard (create env io id peer granted_cap expiry_ms tid now r).1
  unfolding create created
  create-AllWellFormed id peer granted_cap expiry_ms tid now r inv =
      stored-keeps (AllWellFormed env.postcard) (io.epoch_floor id r.store) r _
        (λ st. with_store-AllWellFormed env.postcard st r inv)
        λ epoch r1 kept _.
          stored-keeps (AllWellFormed env.postcard) (io.create _ r1.store) r1 _
            (λ st. with_store-AllWellFormed env.postcard st r1 kept)
            λ _ r2 kept2 _. request-AllWellFormed env.postcard _ _ (
              put_session-AllWellFormed env.postcard id _ r2
                (WellFormed-epoch env.postcard _ epoch (
                  WellFormed-ledger env.postcard (new id peer local) _
                    (new-WellFormed env.postcard id peer local)))
                kept2)

  try_create-AllWellFormed :
      (id : SessionId) (peer : PeerInfo) (granted_cap : Capability) (expiry_ms : ℕ) (tid : TicketId)
      (now : ℕ) (r : Registry σ) (retry : Reply σ Hosted)
      → AllWellFormed env.postcard r
      → AllWellFormed env.postcard retry.1
      → AllWellFormed env.postcard
          (or_retry (try_create env io id peer granted_cap expiry_ms tid now r) retry).1
  unfolding try_create
  try_create-AllWellFormed id peer granted_cap expiry_ms tid now r retry inv again =
      lookup-keeps (AllWellFormed env.postcard) (Map.get id r.sessions) _ _
        (λ x. (or_retry x retry).1)
        (create-AllWellFormed id peer granted_cap expiry_ms tid now r inv) λ _ _. again

  host_pass-AllWellFormed :
      (peer : PeerInfo) (requested : Option SessionId) (granted_cap : Capability) (expiry_ms : ℕ)
      (fresh : SessionId) (tid : TicketId) (now : ℕ) (r : Registry σ) (retry : Reply σ Hosted)
      → AllWellFormed env.postcard r
      → AllWellFormed env.postcard retry.1
      → AllWellFormed env.postcard
          (or_retry (host_pass env io peer requested granted_cap expiry_ms fresh tid now r) retry).1
  unfolding host_pass
  host_pass-AllWellFormed peer none granted_cap expiry_ms fresh tid now r retry inv again =
      try_create-AllWellFormed fresh peer granted_cap expiry_ms tid now r retry inv again
  host_pass-AllWellFormed peer (some id) granted_cap expiry_ms fresh tid now r retry inv again =
      lookup-keeps (AllWellFormed env.postcard) (Map.get id r.sessions) _ _
        (λ x. (or_retry x retry).1)
        (try_create-AllWellFormed id peer granted_cap expiry_ms tid now r retry inv again)
        λ s found.
          resume-AllWellFormed id s peer granted_cap expiry_ms tid now r (inv id s found) inv

  pub host-AllWellFormed :
      (peer : PeerInfo) (requested : Option SessionId) (granted_cap : Capability) (expiry_ms : ℕ)
      (ids : List (SessionId × TicketId)) (now : ℕ) (r : Registry σ)
      → AllWellFormed env.postcard r
      → AllWellFormed env.postcard (host env io peer requested granted_cap expiry_ms ids now r).1
  unfolding host
  host-AllWellFormed peer requested granted_cap expiry_ms [] now r inv = inv
  host-AllWellFormed peer requested granted_cap expiry_ms ((fresh, tid) ∷ rest) now r inv =
      host_pass-AllWellFormed peer requested granted_cap expiry_ms fresh tid now r _ inv
        (host-AllWellFormed peer requested granted_cap expiry_ms rest now r inv)
