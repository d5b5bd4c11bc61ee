-- ===== src/Registry/Invariant.antt =====
-- crates/artel-daemon/src/session.rs: every session of the registry is well formed, and the
-- operations on one session keep it so.
pub mod Local
pub mod Sending
pub mod Network
pub mod Admission
pub mod Joining
pub mod Steps
use artel.Common.{
  ℕ, suc, ◌+◌, ◌≡◌, refl, sym, ap, ◌∙◌, subst, inl, inr, Bool, true, false, Option, none, some,
  List, [], ◌∷◌, ◌++◌, arith, Result, ok, err, panic, if◌then◌else◌, ◌==◌, ◌&&◌, Option-cases,
  Result-cases, is_ok, Bool-cases,
}
use artel.Common.Map
use artel.Common.Map.{get-insert, get-remove}
use artel.Common.Set
use artel.Protocol.Bytes.{Bytes}
use artel.Protocol.Ids.{SessionId, TicketId, PeerId}
use artel.Protocol.Capability.{Capability}
use artel.Protocol.Message.{PeerInfo, MessageKind, SessionMessage}
use artel.Session.{
  Postcard, Session, SessionKind, local, remote, is_local, append_message, new, CapClaim,
}
use artel.Session.WellFormed.{
  WellFormed, append_message-WellFormed, new-WellFormed, WellFormed-ledger, WellFormed-epoch,
  WellFormed-part, WellFormed-join, WellFormed-envelope,
}
use artel.Store.{SessionStore, Io, done, failed}
use artel.Registry.State.{
  Env, Registry, Reply, Event, Request, BridgeError, put_session, emit, request, ask, with_store,
  with_session, with_local, stored,
}
use artel.Registry.Rules.{
  stored-keeps, if-keeps, and_then-keeps, lookup-keeps, with_session-keeps, with_local-keeps,
}
use artel.Registry.Tickets.{find_status, put_ledger, revoke_ticket, issue_ticket}
use artel.Registry.Send.{Authoring, send}
use artel.Registry.Send.Accepted.{send-ok, send-refused}
use artel.Registry.Host.{resume, created, create, host_pass, try_create, host}
use artel.Registry.Members.{drop_member, remove_member, close, leave}

module _ (postcard : Postcard) {σ : Type 0} where
  abbrev pub AllWellFormed : Registry σ → Type 0
  AllWellFormed r =
      (id : SessionId) (s : Session) → Map.get id r.sessions ≡ some s → WellFormed postcard s

  pub keep : (r r' : Registry σ) → r'.sessions ≡ r.sessions → AllWellFormed r → AllWellFormed r'
  keep r r' e inv = λ id s found. inv id s (ap (Map.get id) (sym e) ∙ found)

  pub put :
      (id : SessionId) (s : Session) (r r' : Registry σ)
      → r'.sessions ≡ Map.insert id s r.sessions
      → WellFormed postcard s
      → AllWellFormed r
      → AllWellFormed r'
  put id s r r' e w inv = λ j t found.
      let there : Map.get j (Map.insert id s r.sessions) ≡ some t =
        ap (Map.get j) (sym e) ∙ found in
      elim (Bool-cases (id == j)) [
        | inl same ↦
            let eq : s ≡ t = ground (arith, get-insert id j s r.sessions) in
            subst (WellFormed postcard) eq w
        | inr other ↦ inv j t (ground (arith, get-insert id j s r.sessions))
      ]

  pub put_session-AllWellFormed :
      (id : SessionId) (s : Session) (r : Registry σ)
      → WellFormed postcard s
      → AllWellFormed r
      → AllWellFormed (put_session id s r)
  unfolding put_session
  put_session-AllWellFormed id s r w inv = put id s r (put_session id s r) refl w inv

  pub remove :
      (id : SessionId) (r r' : Registry σ)
      → r'.sessions ≡ Map.remove id r.sessions
      → AllWellFormed r
      → AllWellFormed r'
  remove id r r' e inv = λ j t found.
      let there : Map.get j (Map.remove id r.sessions) ≡ some t = ap (Map.get j) (sym e) ∙ found in
      inv j t (ground (arith, get-remove id j r.sessions))

  pub emit-AllWellFormed : (e : Event) (r : Registry σ) → AllWellFormed r → AllWellFormed (emit e r)
  unfolding emit
  emit-AllWellFormed e r inv = inv

  pub request-AllWellFormed :
      (q : Request) (r : Registry σ) → AllWellFormed r → AllWellFormed (request q r)
  request-AllWellFormed q r inv = keep r (request q r) (unfold request in ground arith) inv

  pub with_store-AllWellFormed :
      (st : σ) (r : Registry σ) → AllWellFormed r → AllWellFormed (with_store st r)
  unfolding with_store
  with_store-AllWellFormed st r inv = inv

module _ (postcard : Postcard) {σ : Type 0} (io : SessionStore σ) where
  -- A stored change of one session, and what is told of it.
  pub stored-put :
      {A B : Type 0} (x : Io A × σ) (r : Registry σ) (id : SessionId) (s : A → Session)
      (f : A → Registry σ → Reply σ B)
      → AllWellFormed postcard r
      → ((a : A) → WellFormed postcard (s a))
      → ((a : A) (r1 : Registry σ) → (f a r1).1.sessions ≡ Map.insert id (s a) r1.sessions)
      → AllWellFormed postcard (stored x r f).1
  stored-put x r id s f inv w same =
      stored-keeps (AllWellFormed postcard) x r f (λ st. with_store-AllWellFormed postcard st r inv)
        λ a r1 kept _. put postcard id (s a) r1 (f a r1).1 (same a r1) (w a) kept
