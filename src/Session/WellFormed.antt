-- ===== src/Session/WellFormed.antt =====
-- crates/artel-daemon/src/session.rs: the invariant of a session in memory, and what a restart of
-- the daemon makes of the stored record.
use artel.Common.{
  ℕ, suc, ◌≡◌, refl, sym, ap, ap₂, ◌∙◌, true, false, Option, List, [], ◌∷◌, ◌++◌, arith, ◌==◌,
  ==_refl, subst,
}
use artel.Common.Set
use artel.Protocol.Ids.{SessionId, PeerId, Seq}
use artel.Protocol.Bytes.{Bytes}
use artel.Protocol.Ticket.{TicketEntry}
use artel.Protocol.Message.{PeerInfo, SessionMessage}
use artel.Session.{
  Postcard, SessionKind, local, remote, Session, new, to_record, from_record, project_caps,
  project_message, project_all, host_root, append_message, sort_by_seq,
}
use artel.Session.Order.{
  Ascending, Rising, AtMost, Consecutive, Consecutive-Ascending, sort_by_seq-Ascending,
  Consecutive-append,
}
use artel.Session.Caps.{project_all-append}

-- The order of the log: a host numbers from 1 without gaps up to the head. A mirror may miss
-- messages: the numbers rise, and the head is not below any.
abbrev pub Logged : SessionKind → Seq → List SessionMessage → Type 0
Logged local head log = Consecutive 0 log head
Logged remote head log = Rising log × AtMost head log

pub Logged-local :
    {k : SessionKind} {h i : Seq} {l m : List SessionMessage}
    → k ≡ local
    → h ≡ i
    → l ≡ m
    → Consecutive 0 m i
    → Logged k h l
Logged-local e f g c = rw (e, f, g) c

module _ (postcard : Postcard) where
  -- In memory: the log is in order, and a session hosted here has its host as a member,
  -- and the capabilities that its log projects to.
  pub record WellFormed (s : Session) : Type 0 where
    pub numbered : Logged s.kind s.head s.log
    pub projected : s.kind ≡ local → s.caps ≡ project_caps postcard s.host s.log
    pub host_member : s.kind ≡ local → Set.contains s.host s.members ≡ true

  pub new-WellFormed :
      (id : SessionId) (host : PeerInfo) (kind : SessionKind) → WellFormed (new id host kind)
  unfolding new project_caps project_all sort_by_seq Set.contains
  new-WellFormed id host local = record {
    numbered = refl;
    projected = λ _. refl;
    host_member = λ _. ground (arith, ==_refl host.id);
  }
  new-WellFormed id host remote = record {
    numbered = (tt, tt);
    projected = λ e. cc;
    host_member = λ e. cc;
  }

  pub append_message-host :
      (s : Session) (m : SessionMessage) → (append_message postcard s m).host ≡ s.host
  unfolding append_message
  append_message-host s m = ground arith

  -- The projection of a longer log is one step from that of the log.
  pub project_caps-append :
      (host : PeerId) (log : List SessionMessage) (m : SessionMessage)
      → Ascending 0 log
      → Ascending 0 (log ++ m ∷ [])
      → project_caps postcard host (log ++ m ∷ [])
        ≡ project_message postcard host (project_caps postcard host log) m
  unfolding project_caps project_all
  project_caps-append host log m a b = rw (
    sort_by_seq-Ascending 0 log a,
    sort_by_seq-Ascending 0 (log ++ m ∷ []) b,
    project_all-append postcard host (host_root host) log (m ∷ []),
  )

  append_message-caps :
      (s : Session) (m : SessionMessage)
      → (append_message postcard s m).caps ≡ project_message postcard s.host s.caps m
  unfolding append_message project_message
  append_message-caps s m = ground arith

  append_message-fields :
      (s : Session) (m : SessionMessage)
      → let t = append_message postcard s m in
        (t.kind ≡ s.kind)
        × (t.host ≡ s.host)
        × (t.members ≡ s.members)
        × (t.head ≡ m.seq)
        × (t.log ≡ s.log ++ m ∷ [])
  unfolding append_message
  append_message-fields s m = ground arith

  -- Appending a message whose number is the head's successor keeps a well formed session that is
  -- hosted here well formed.
  pub append_message-WellFormed :
      (s : Session) (m : SessionMessage)
      → s.kind ≡ local
      → m.seq ≡ suc s.head
      → WellFormed s
      → WellFormed (append_message postcard s m)
  append_message-WellFormed s m local_kind next w =
      let f = append_message-fields s m in
      let numbers : Consecutive 0 s.log s.head =
        subst (λ k. Logged k s.head s.log) local_kind w.numbered in
      let more : Consecutive 0 (s.log ++ m ∷ []) (suc s.head) =
        Consecutive-append 0 s.head s.log m numbers next in
      let rising : Ascending 0 (s.log ++ m ∷ []) = Consecutive-Ascending 0 (suc s.head) _ more in
      record {
        numbered = Logged-local (f.0 ∙ local_kind) (f.3 ∙ next) f.4 more;
        projected = λ _.
            append_message-caps s m
            ∙ ap (λ c. project_message postcard s.host c m) (w.projected local_kind)
            ∙ sym (
                project_caps-append s.host s.log m (Consecutive-Ascending 0 s.head s.log numbers)
                  rising)
            ∙ ap₂ (project_caps postcard) (sym f.1) (sym f.4);
        host_member = λ _. rw (f.1, f.2) (w.host_member local_kind);
      }

  -- A well formed session that is hosted here is, rebuilt from its record, the session that it
  -- was.
  pub from_record-to_record :
      (s : Session) → s.kind ≡ local → WellFormed s → from_record postcard (to_record s) ≡ s
  unfolding from_record to_record
  from_record-to_record s local_kind w = λ i. record s { caps = sym (w.projected local_kind) i }

  -- The fields that the invariant does not read can be changed.
  pub WellFormed-ledger :
      (s : Session) (tickets : List TicketEntry)
      → WellFormed s
      → WellFormed (record s { tickets = tickets })
  WellFormed-ledger s tickets w = record {
    numbered = w.numbered;
    projected = w.projected;
    host_member = w.host_member;
  }

  pub WellFormed-envelope :
      (s : Session) (envelope : Option Bytes)
      → WellFormed s
      → WellFormed (record s { workspace_ticket = envelope })
  WellFormed-envelope s envelope w = record {
    numbered = w.numbered;
    projected = w.projected;
    host_member = w.host_member;
  }

  pub WellFormed-epoch :
      (s : Session) (epoch : ℕ) → WellFormed s → WellFormed (record s { host_epoch = epoch })
  WellFormed-epoch s epoch w = record {
    numbered = w.numbered;
    projected = w.projected;
    host_member = w.host_member;
  }

  -- Any peer can join, and any but the host of a session hosted here can go.
  pub WellFormed-join :
      (s : Session) (peer : PeerId)
      → WellFormed s
      → WellFormed (record s { members = Set.insert peer s.members })
  WellFormed-join s peer w = record {
    numbered = w.numbered;
    projected = w.projected;
    host_member = λ k.
        let member = w.host_member k in ground (arith, Set.contains-insert peer s.host s.members);
  }

  pub WellFormed-part :
      (s : Session) (peer : PeerId)
      → (s.kind ≡ local → (peer == s.host) ≡ false)
      → WellFormed s
      → WellFormed (record s { members = Set.remove peer s.members })
  WellFormed-part s peer other w = record {
    numbered = w.numbered;
    projected = w.projected;
    host_member = λ k.
        let member = w.host_member k in
        let differ = other k in ground (arith, Set.contains-remove peer s.host s.members);
  }
