-- ===== src/Registry/Access.antt =====
-- crates/artel-daemon/src/session.rs: who is admitted and who can write. Tickets are checked against
-- the ledger of the host, and messages against the capabilities that the log gives.
use artel.Common.{
  ℕ, ◌≡◌, refl, ◌∙◌, inl, inr, true, false, none, some, List, [], ◌∷◌, arith, ok, err, ◌==◌, ◌&&◌,
  Result-cases, leb, Bool-cases, not,
}
use artel.Common.Map
use artel.Common.Map.{get-insert, get-remove}
use artel.Protocol.Ids.{SessionId, TicketId}
use artel.Protocol.Message.{PeerInfo}
use artel.Session.{Session, local, is_local, CapClaim}
use artel.Store.{SessionStore}
use artel.Registry.State.{Env, Registry, put_session, with_store}
use artel.Protocol.Ticket.{TicketEntry, active}
use artel.Protocol.Ticket.{TicketEntry}
use artel.Registry.Tickets.{find_status, set_revoked, put_ledger, revoke_ticket}
use artel.Protocol.Signing.{verify_ticket_cap}
use artel.Registry.Members.{check_claim?, admissible?, ensure_member}
use artel.Registry.State.{ticket_not_admissible}
use artel.Registry.Tickets.{set_revoked}
use artel.Session.{ticket_admissible, entry_admits}
use artel.Protocol.Ticket.{is_active, active}
use artel.Registry.Members.{check_claim}
use artel.Common.{any, Memᴰ, ◌⊎◌, ◌<◌}
use artel.Protocol.Capability.{Capability, read, read_write, capability_eq}
use artel.Protocol.Ticket.{TicketStatus, revoked}

-- No second entry has the id.
abbrev pub Once : TicketId → List TicketEntry → Type 0
Once tid [] = Unit {0}
Once tid (t ∷ ts) = ((t.ticket_id == tid) ≡ true → find_status tid ts ≡ none) × Once tid ts

unknown-entry :
    (claim : CapClaim) (ts : List TicketEntry)
    → find_status claim.ticket_id ts ≡ none
    → any (entry_admits claim) ts ≡ false
unfolding find_status any entry_admits
unknown-entry claim [] h = refl
unknown-entry claim (t ∷ ts) h =
    let rest : find_status claim.ticket_id ts ≡ none = ground arith in
    let none_admits = unknown-entry claim ts rest in ground arith

revoked-entry :
    (claim : CapClaim) (ts : List TicketEntry)
    → Once claim.ticket_id ts
    → any (entry_admits claim) (set_revoked claim.ticket_id ts) ≡ false
unfolding set_revoked any entry_admits is_active
revoked-entry claim [] once = refl
revoked-entry claim (t ∷ ts) once = elim (Bool-cases (t.ticket_id == claim.ticket_id)) [
  | inl same ↦ let others = unknown-entry claim ts (once.0 same) in ground arith
  | inr other ↦ let others = revoked-entry claim ts once.1 in ground arith
]

capability_eq→eq : (a b : Capability) → capability_eq a b ≡ true → a ≡ b
unfolding capability_eq
capability_eq→eq read read h = refl
capability_eq→eq read_write read_write h = refl
capability_eq→eq read read_write h = cc
capability_eq→eq read_write read h = cc

is_active→eq : (status : TicketStatus) → is_active status ≡ true → status ≡ active
unfolding is_active
is_active→eq active h = refl
is_active→eq revoked h = cc

-- The entry stands for the ticket that is claimed, and is not revoked.
pub record IsEntryFor (claim : CapClaim) (t : TicketEntry) : Type 0 where
  pub same_id : t.ticket_id ≡ claim.ticket_id
  pub still_active : t.status ≡ active
  pub same_cap : t.granted_cap ≡ claim.granted_cap
  pub same_expiry : t.expiry_ms ≡ claim.expiry_ms

entry_admits-IsEntryFor :
    (claim : CapClaim) (t : TicketEntry) → entry_admits claim t ≡ true → IsEntryFor claim t
unfolding entry_admits
entry_admits-IsEntryFor claim t h = record {
  same_id = ground arith;
  still_active = is_active→eq t.status (ground arith);
  same_cap = capability_eq→eq t.granted_cap claim.granted_cap (ground arith);
  same_expiry = ground arith;
}

admitting_entry :
    (claim : CapClaim) (ts : List TicketEntry)
    → any (entry_admits claim) ts ≡ true
    → (t : TicketEntry) × Memᴰ t ts × IsEntryFor claim t
unfolding any
admitting_entry claim [] h = absurd cc
admitting_entry claim (t ∷ ts) h = elim (Bool-cases (entry_admits claim t)) [
  | inl fits ↦ (t, Memᴰ.head refl, entry_admits-IsEntryFor claim t fits)
  | inr other ↦
      let (u, there, is) = admitting_entry claim ts (rw other at h) in (u, Memᴰ.tail there, is)
]

unexpired :
    (expiry now : ℕ) → (not (expiry == 0) && leb expiry now) ≡ false → (expiry ≡ 0) ⊎ (now < expiry)
unexpired expiry now h = elim (Bool-cases (expiry == 0)) [
  | inl never ↦ inl (ground arith)
  | inr some_time ↦ inr (ground arith)
]

module _ (env : Env) {σ : Type 0} (io : SessionStore σ) where
  ensure_member-refused :
      (id : SessionId) (peer : PeerInfo) (claim : CapClaim) (now : ℕ) (r : Registry σ) (s : Session)
      → Map.get id r.sessions ≡ some s
      → s.kind ≡ local
      → check_claim env r id claim now ≡ ok tt
      → any (entry_admits claim) s.tickets ≡ false
      → ensure_member env io id peer (some claim) now r ≡ (err ticket_not_admissible, r)
  unfolding ensure_member check_claim? admissible? ticket_admissible is_local
  ensure_member-refused id peer claim now r s found hosted checked refused = ground arith

  -- A claim that passes the check of expiry and signature, but whose id the ledger of the session
  -- hosted here does not hold, is refused as not admissible, and changes nothing.
  pub ensure_member-unknown :
      (id : SessionId) (peer : PeerInfo) (claim : CapClaim) (now : ℕ) (r : Registry σ) (s : Session)
      → Map.get id r.sessions ≡ some s
      → s.kind ≡ local
      → check_claim env r id claim now ≡ ok tt
      → find_status claim.ticket_id s.tickets ≡ none
      → ensure_member env io id peer (some claim) now r ≡ (err ticket_not_admissible, r)
  ensure_member-unknown id peer claim now r s found hosted checked never =
      ensure_member-refused id peer claim now r s found hosted checked
        (unknown-entry claim s.tickets never)

  revoke_ticket-tickets :
      (id : SessionId) (tid : TicketId) (r : Registry σ) (s : Session)
      → Map.get id r.sessions ≡ some s
      → find_status tid s.tickets ≡ some active
      → (revoke_ticket io id tid r).0 ≡ ok tt
      → ((Map.get id (revoke_ticket io id tid r).1.sessions)
          ≡ some (record s { tickets = set_revoked tid s.tickets }))
        × ((revoke_ticket io id tid r).1.signing_key ≡ r.signing_key)
        × ((revoke_ticket io id tid r).1.daemon_peer_id ≡ r.daemon_peer_id)
  unfolding revoke_ticket put_ledger put_session with_store
  revoke_ticket-tickets id tid r s found live done_ =
      let changed : Session = record s { tickets = set_revoked tid s.tickets } in
      (ground (arith, Map.get-insert_self id changed r.sessions), ground arith, ground arith)

  check_claim-same :
      (id : SessionId) (claim : CapClaim) (now : ℕ) (r r' : Registry σ)
      → r'.signing_key ≡ r.signing_key
      → r'.daemon_peer_id ≡ r.daemon_peer_id
      → check_claim env r' id claim now ≡ check_claim env r id claim now
  unfolding check_claim
  check_claim-same id claim now r r' key daemon = ground arith

  -- After the revocation of a ticket that was active, and alone with its id in the ledger of a
  -- session hosted here, a claim with its id that passes the check of expiry and signature is
  -- refused as not admissible, and changes nothing.
  pub ensure_member-revoke_ticket :
      (id : SessionId) (peer : PeerInfo) (claim : CapClaim) (now : ℕ) (r : Registry σ) (s : Session)
      → Map.get id r.sessions ≡ some s
      → s.kind ≡ local
      → Once claim.ticket_id s.tickets
      → find_status claim.ticket_id s.tickets ≡ some active
      → (revoke_ticket io id claim.ticket_id r).0 ≡ ok tt
      → check_claim env r id claim now ≡ ok tt
      → ensure_member env io id peer (some claim) now (revoke_ticket io id claim.ticket_id r).1
        ≡ (err ticket_not_admissible, (revoke_ticket io id claim.ticket_id r).1)
  ensure_member-revoke_ticket id peer claim now r s found hosted once live done_ checked =
      let r' = (revoke_ticket io id claim.ticket_id r).1 in
      let (there, key, daemon) = revoke_ticket-tickets id claim.ticket_id r s found live done_ in
      let still : check_claim env r' id claim now ≡ ok tt =
        check_claim-same id claim now r r' key daemon ∙ checked in
      ensure_member-refused id peer claim now r'
        (record s { tickets = set_revoked claim.ticket_id s.tickets }) there hosted still
        (revoked-entry claim s.tickets once)

  -- When a daemon with a signing key admits a peer with a claim to a session that it hosts, the
  -- claim has not expired, its signature verifies under the daemon's own id, and the ledger has an
  -- active entry with its id, its capability and its expiry.
  pub ensure_member-ok :
      (id : SessionId) (peer : PeerInfo) (claim : CapClaim) (now : ℕ) (r : Registry σ) (s : Session)
      (key : ℕ)
      → Map.get id r.sessions ≡ some s
      → (ensure_member env io id peer (some claim) now r).0 ≡ ok tt
      → s.kind ≡ local
      → r.signing_key ≡ some key
      → ((claim.expiry_ms ≡ 0) ⊎ (now < claim.expiry_ms))
        × (verify_ticket_cap env.ed25519 r.daemon_peer_id claim.ticket_id id claim.granted_cap
              claim.expiry_ms claim.host_epoch claim.cap_sig
            ≡ ok tt)
        × ((t : TicketEntry) × Memᴰ t s.tickets × IsEntryFor claim t)
  unfolding ensure_member check_claim? check_claim admissible? ticket_admissible is_local
  ensure_member-ok id peer claim now r s key found admitted hosted signing =
      elim (Result-cases (
        verify_ticket_cap env.ed25519 r.daemon_peer_id claim.ticket_id id claim.granted_cap
          claim.expiry_ms claim.host_epoch claim.cap_sig)) [
            | inl (tt, checked) ↦ (
              unexpired claim.expiry_ms now (ground arith),
              checked,
              admitting_entry claim s.tickets (ground arith),
            )
            | inr (inl (e, refused)) ↦ absurd (ground arith)
            | inr (inr panicked) ↦ absurd (ground arith)
          ]
