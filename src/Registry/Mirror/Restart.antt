-- ===== src/Registry/Mirror/Restart.antt =====
-- crates/artel-daemon/src/session.rs (`apply_inbound_mirror_message`, `from_record`) and
-- store/memory.rs (`append`): the stored log of a mirror is in the order of arrival.
use artel.Common.{
  ◌<◌, ◌≡◌, refl, sym, ap, ◌∙◌, subst, false, some, List, [], ◌∷◌, ◌++◌, arith, append_assoc, max,
}
use artel.Common.Map
use artel.Common.Map.{get-insert_self}
use artel.Protocol.Ids.{SessionId, Seq}
use artel.Protocol.Message.{SessionMessage}
use artel.Session.{Postcard, Session, SessionRecord, to_record, from_record, remote}
use artel.Session.Order.{Ascending, Rising}
use artel.Session.WellFormed.{WellFormed, Logged}
use artel.Store.Memory.{MemoryStore, SessionEntry, append, update_record}
use artel.Registry.Mirror.{mirror_insert, partition_point, has_seq_at}
use artel.Registry.Mirror.Order.{mirror_insert-WellFormed}

Ascending-last :
    (lo : Seq) (before : List SessionMessage) (x m : SessionMessage)
    → m.seq < x.seq
    → ¬ Ascending lo (before ++ x ∷ m ∷ [])
Ascending-last lo [] x m h = λ a. absurd (omega (arith, a.1.0))
Ascending-last lo (b ∷ bs) x m h = λ a. Ascending-last b.seq bs x m h a.1

Rising-last :
    (before : List SessionMessage) (x m : SessionMessage)
    → m.seq < x.seq
    → ¬ Rising (before ++ x ∷ m ∷ [])
Rising-last [] x m h = λ a. absurd (omega (arith, a.0))
Rising-last (b ∷ bs) x m h = Ascending-last b.seq bs x m h

append-log :
    (id : SessionId) (s : Session) (m : SessionMessage) (st : MemoryStore) (e e' : SessionEntry)
    → Map.get id st.inner ≡ some e
    → e.session ≡ to_record s
    → Map.get id (append id m st).1.inner ≡ some e'
    → e'.session.log ≡ s.log ++ m ∷ []
append-log id s m st e e' found same after =
    let longer : SessionRecord = record e.session {
      head = max e.session.head m.seq;
      log = e.session.log ++ m ∷ [];
    } in
    let changed : SessionEntry = record e { session = longer } in
    let stored : Map.get id (append id m st).1.inner ≡ some changed =
      unfold append update_record in ground (arith, get-insert_self id changed st.inner) in
    let one : changed ≡ e' = ground arith in
    ap (λ (x : SessionEntry). x.session.log) (sym one)
    ∙ ap (λ (r : SessionRecord). r.log ++ m ∷ []) same
    ∙ unfold to_record in refl

-- When a mirror that is stored as it is takes a message whose number is new, but below that of the last
-- in its log, its log in memory stays in order, and the log that a restart loads is out of order.
pub restart-Rising :
    (postcard : Postcard) (id : SessionId) (s : Session) (m x : SessionMessage)
    (before : List SessionMessage) (st : MemoryStore) (e e' : SessionEntry)
    → s.kind ≡ remote
    → WellFormed postcard s
    → s.log ≡ before ++ x ∷ []
    → m.seq < x.seq
    → has_seq_at (partition_point m.seq s.log) m.seq s.log ≡ false
    → Map.get id st.inner ≡ some e
    → e.session ≡ to_record s
    → Map.get id (append id m st).1.inner ≡ some e'
    → Rising (mirror_insert s m).log × (¬ Rising (from_record postcard e'.session).log)
restart-Rising postcard id s m x before st e e' mirror w last below fresh found same after =
    let kind : (mirror_insert s m).kind ≡ remote = unfold mirror_insert in mirror in
    let kept = (mirror_insert-WellFormed postcard s m mirror fresh w).numbered in
    let (rising, _) =
      subst (λ k. Logged k (mirror_insert s m).head (mirror_insert s m).log) kind kept in
    let loaded : (from_record postcard e'.session).log ≡ before ++ x ∷ m ∷ [] =
      unfold from_record in
      append-log id s m st e e' found same after
      ∙ ap (λ l. l ++ m ∷ []) last
      ∙ append_assoc before (x ∷ []) (m ∷ []) in
    (rising, λ r. Rising-last before x m below (subst Rising loaded r))
