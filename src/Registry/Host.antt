-- ===== src/Registry/Host.antt =====
-- crates/artel-daemon/src/session.rs: `host` and `load`. The random ids and the clock are
-- arguments: a pass of `host` that loses the race for its id takes the next pair of ids.
use artel.Common.{
  ℕ, ◌+◌, ◌-◌, min, Bool, Option, none, some, List, [], ◌∷◌, ◌++◌, ok, err, panic, if◌then◌else◌,
  ◌==◌, ◌&&◌, u64_mod,
}
use artel.Common.Map
use artel.Common.Map.{Map}
use artel.Protocol.Bytes.{Bytes}
use artel.Protocol.Ids.{SessionId, TicketId, PeerId}
use artel.Protocol.Capability.{Capability}
use artel.Protocol.Message.{PeerInfo}
use artel.Protocol.Ticket.{WireEndpointAddr}
use artel.Session.{Postcard, SessionRecord, Session, new, to_record, from_record, local, is_local}
use artel.Store.{SessionStore, Io, done, failed}
use artel.Registry.State.{
  Env, Registry, Reply, session_conflict, stored, put_session, request, host_session,
  publish_epoch_beacon,
}
use artel.Registry.Tickets.{mint_ticket, ledger_entry}

-- What `host` gives: the session, the text of a ticket for it, and the ticket's id.
abbrev pub Hosted : Type 0
Hosted = SessionId × Bytes × TicketId

-- `u64::saturating_add(1)`
unfoldable pub saturating_suc : ℕ → ℕ
saturating_suc n = min (n + 1) (u64_mod - 1)

-- The sessions of the stored records.
unfoldable pub rehydrate : Postcard → List SessionRecord → Map Session
rehydrate postcard [] = []
rehydrate postcard (rec ∷ recs) =
    Map.insert rec.id (from_record postcard rec) (rehydrate postcard recs)

module _ (env : Env) {σ : Type 0} (io : SessionStore σ) where
  -- `Registry::load`, at the start of the daemon.
  unfoldable pub load : PeerId → WireEndpointAddr → σ → Bool → Option ℕ → Bool → Io (Registry σ)
  load daemon_peer_id daemon_addr store bridge signing_key endpoint =
      let (loaded, st) = io.load_all store in
      elim loaded [
        | failed e ↦ failed e
        | done records ↦ done (record {
          daemon_peer_id = daemon_peer_id;
          daemon_addr = daemon_addr;
          sessions = rehydrate env.postcard records;
          store = st;
          bridge = bridge;
          signing_key = signing_key;
          endpoint = endpoint;
          emitted = [];
          requests = [];
        })
      ]

-- The session that a create makes, with its first ledger entry.
unfoldable pub created : SessionId → PeerInfo → ℕ → Capability → ℕ → TicketId → ℕ → Session
created id host_peer epoch granted_cap expiry_ms tid now = record (new id host_peer local) {
  host_epoch = epoch;
  tickets = ledger_entry tid granted_cap expiry_ms now ∷ [];
}

module _ {σ : Type 0} where
  abbrev pub or_retry : Option (Reply σ Hosted) → Reply σ Hosted → Reply σ Hosted
  or_retry (some reply) retry = reply
  or_retry none retry = retry

module _ (env : Env) {σ : Type 0} (io : SessionStore σ) where
  -- An existing session of this host: the ledger is stored first and the epoch last, and memory
  -- changes after both.
  unfoldable pub resume :
      SessionId → Session → PeerInfo → Capability → ℕ → TicketId → ℕ → Registry σ → Reply σ Hosted
  resume id s host_peer granted_cap expiry_ms tid now r =
      if s.host == host_peer.id && is_local s.kind
      then (let epoch = saturating_suc s.host_epoch in
          let tickets = s.tickets ++ ledger_entry tid granted_cap expiry_ms now ∷ [] in
          stored (io.put_tickets id tickets r.store) r λ _ r1.
            stored (io.bump_host_epoch id epoch r1.store) r1 λ _ r2.
              let kept = put_session id (record s { host_epoch = epoch; tickets = tickets }) r2 in
              (
                ok (id, mint_ticket env r tid id granted_cap expiry_ms epoch, tid),
                request (publish_epoch_beacon id epoch) (request (host_session id) kept),
              ))
      else (err (session_conflict id), r)

  -- An id that is not taken: the epoch starts at the floor of the storage.
  unfoldable pub create :
      SessionId → PeerInfo → Capability → ℕ → TicketId → ℕ → Registry σ → Reply σ Hosted
  create id host_peer granted_cap expiry_ms tid now r =
      stored (io.epoch_floor id r.store) r λ epoch r1.
        let s = created id host_peer epoch granted_cap expiry_ms tid now in
        stored (io.create (to_record s) r1.store) r1 λ _ r2. (
          ok (id, mint_ticket env r tid id granted_cap expiry_ms epoch, tid),
          request (host_session id) (put_session id s r2),
        )

  -- The create path of one pass; `none` is `continue`.
  unfoldable pub try_create :
      SessionId → PeerInfo → Capability → ℕ → TicketId → ℕ → Registry σ → Option (Reply σ Hosted)
  try_create id host_peer granted_cap expiry_ms tid now r = elim (Map.get id r.sessions) [
    | some _ ↦ none
    | none ↦ some (create id host_peer granted_cap expiry_ms tid now r)
  ]

  -- One pass of the loop.
  unfoldable pub host_pass :
      PeerInfo
      → Option SessionId
      → Capability
      → ℕ
      → SessionId
      → TicketId
      → ℕ
      → Registry σ
      → Option (Reply σ Hosted)
  host_pass host_peer none granted_cap expiry_ms fresh tid now r =
      try_create fresh host_peer granted_cap expiry_ms tid now r
  host_pass host_peer (some id) granted_cap expiry_ms fresh tid now r =
      elim (Map.get id r.sessions) [
        | some s ↦ some (resume id s host_peer granted_cap expiry_ms tid now r)
        | none ↦ try_create id host_peer granted_cap expiry_ms tid now r
      ]

  -- The loop, over the ids that its passes draw; `panic` stands for no id left to draw.
  unfoldable pub host :
      PeerInfo
      → Option SessionId
      → Capability
      → ℕ
      → List (SessionId × TicketId)
      → ℕ
      → Registry σ
      → Reply σ Hosted
  host host_peer requested granted_cap expiry_ms [] now r = (panic, r)
  host host_peer requested granted_cap expiry_ms ((fresh, tid) ∷ rest) now r =
      let retry = host host_peer requested granted_cap expiry_ms rest now r in
      or_retry (host_pass host_peer requested granted_cap expiry_ms fresh tid now r) retry
