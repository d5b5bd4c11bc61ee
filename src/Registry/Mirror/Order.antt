-- ===== src/Registry/Mirror/Order.antt =====
-- crates/artel-daemon/src/session.rs (`apply_inbound_mirror_message`): the place at which a mirror
-- puts a message is the one that keeps its log in order.
use artel.Common.{
  ◌≢◌, ◌≤◌, ◌<◌, ◌≡◌, refl, sym, ap, ◌∙◌, subst, true, false, List, [], ◌∷◌, arith, ◌==◌, leb,
  insert_at, Bool-cases, inl, inr,
}
use artel.Protocol.Ids.{Seq}
use artel.Protocol.Message.{SessionMessage}
use artel.Session.{Postcard, Session, SessionKind, remote, insert_by_seq}
use artel.Session.Order.{Ascending, Rising, AtMost}
use artel.Session.WellFormed.{WellFormed, Logged}
use artel.Registry.Mirror.{partition_point, has_seq_at, mirror_insert}
use artel.Registry.Mirror.Search.{rank, partition_point-Rising}
use artel.Registry.Mirror.Held.{holds_seq, Absent, holds_seq-Absent, has_seq_at-Rising}

-- The insertion behind all lower numbers is that of the sort.
insert_at-rank :
    (m : SessionMessage) (log : List SessionMessage)
    → insert_at (rank m.seq log) m log ≡ insert_by_seq m log
unfolding insert_at rank insert_by_seq
insert_at-rank m [] = refl
insert_at-rank m (x ∷ xs) = ground (arith, insert_at-rank m xs)

Ascending-insert_by_seq :
    (lo : Seq) (m : SessionMessage) (log : List SessionMessage)
    → Ascending lo log
    → lo < m.seq
    → holds_seq m.seq log ≡ false
    → Ascending lo (insert_by_seq m log)
unfolding insert_by_seq holds_seq
Ascending-insert_by_seq lo m [] a h new = (h, tt)
Ascending-insert_by_seq lo m (x ∷ xs) a h new = elim (Bool-cases (leb m.seq x.seq)) [
  | inl front ↦ let apart : m.seq < x.seq = ground arith in ground arith
  | inr behind ↦
      let apart : x.seq < m.seq = ground arith in
      let others : holds_seq m.seq xs ≡ false = ground arith in
      let rest = Ascending-insert_by_seq x.seq m xs a.1 apart others in ground arith
]

Rising-insert_by_seq :
    (m : SessionMessage) (log : List SessionMessage)
    → Rising log
    → holds_seq m.seq log ≡ false
    → Rising (insert_by_seq m log)
unfolding insert_by_seq holds_seq
Rising-insert_by_seq m [] a new = tt
Rising-insert_by_seq m (x ∷ xs) a new = elim (Bool-cases (leb m.seq x.seq)) [
  | inl front ↦ let apart : m.seq < x.seq = ground arith in ground arith
  | inr behind ↦
      let apart : x.seq < m.seq = ground arith in
      let others : holds_seq m.seq xs ≡ false = ground arith in
      let rest = Ascending-insert_by_seq x.seq m xs a apart others in ground arith
]

AtMost-raise : (lo hi : Seq) (log : List SessionMessage) → lo ≤ hi → AtMost lo log → AtMost hi log
AtMost-raise lo hi [] h a = tt
AtMost-raise lo hi (x ∷ xs) h a = (omega arith, AtMost-raise lo hi xs h a.1)

AtMost-insert_by_seq :
    (hi : Seq) (m : SessionMessage) (log : List SessionMessage)
    → AtMost hi log
    → m.seq ≤ hi
    → AtMost hi (insert_by_seq m log)
unfolding insert_by_seq
AtMost-insert_by_seq hi m [] a h = (h, tt)
AtMost-insert_by_seq hi m (x ∷ xs) a h =
    let rest = AtMost-insert_by_seq hi m xs a.1 h in ground arith

pub mirror_insert-log :
    (s : Session) (m : SessionMessage)
    → Rising s.log
    → (mirror_insert s m).log ≡ insert_by_seq m s.log
unfolding mirror_insert
mirror_insert-log s m rising =
    ap (λ i. insert_at i m s.log) (partition_point-Rising m.seq s.log rising)
    ∙ insert_at-rank m s.log

Logged-remote :
    {k : SessionKind} (h : Seq) {l l' : List SessionMessage}
    → k ≡ remote
    → l ≡ l'
    → Rising l'
    → AtMost h l'
    → Logged k h l
Logged-remote h k e a b = rw (k, e) (a, b)

-- A number that the duplicate test misses keeps the mirror well formed.
pub mirror_insert-WellFormed :
    (postcard : Postcard) (s : Session) (m : SessionMessage)
    → s.kind ≡ remote
    → has_seq_at (partition_point m.seq s.log) m.seq s.log ≡ false
    → WellFormed postcard s
    → WellFormed postcard (mirror_insert s m)
mirror_insert-WellFormed postcard s m k new w =
    let (rising, below) = subst (λ k. Logged k s.head s.log) k w.numbered in
    let absent : holds_seq m.seq s.log ≡ false = sym (has_seq_at-Rising m.seq s.log rising) ∙ new in
    let raised : s.head ≤ (mirror_insert s m).head = unfold mirror_insert in ground arith in
    let reached : m.seq ≤ (mirror_insert s m).head = unfold mirror_insert in ground arith in
    let kind : (mirror_insert s m).kind ≡ remote = unfold mirror_insert in k in
    record {
      numbered =
          Logged-remote (mirror_insert s m).head kind (mirror_insert-log s m rising)
            (Rising-insert_by_seq m s.log rising absent)
            (AtMost-insert_by_seq (mirror_insert s m).head m s.log
              (AtMost-raise s.head (mirror_insert s m).head s.log raised below) reached);
      projected = λ local_kind. cc;
      host_member = λ local_kind. cc;
    }

insert_by_seq_comm :
    (m n : SessionMessage) (log : List SessionMessage)
    → (m.seq == n.seq) ≡ false
    → insert_by_seq m (insert_by_seq n log) ≡ insert_by_seq n (insert_by_seq m log)
unfolding insert_by_seq
insert_by_seq_comm m n [] h = ground arith
insert_by_seq_comm m n (x ∷ xs) h =
    let rest = insert_by_seq_comm m n xs h in
    elim (Bool-cases (leb m.seq x.seq)) [
      | inl a ↦ elim (Bool-cases (leb n.seq x.seq)) [ inl b ↦ ground arith | inr b ↦ ground arith ]
      | inr a ↦ elim (Bool-cases (leb n.seq x.seq)) [ inl b ↦ ground arith | inr b ↦ ground arith ]
    ]

mirror_insert-head_comm :
    (s : Session) (m n : SessionMessage)
    → (mirror_insert (mirror_insert s m) n).head ≡ (mirror_insert (mirror_insert s n) m).head
unfolding mirror_insert
mirror_insert-head_comm s m n = ground arith

mirror_insert-Rising :
    (s : Session) (m : SessionMessage)
    → Rising s.log
    → Absent m.seq s.log
    → Rising (mirror_insert s m).log
mirror_insert-Rising s m rising new =
    subst Rising (sym (mirror_insert-log s m rising))
      (Rising-insert_by_seq m s.log rising ((holds_seq-Absent m.seq s.log).1 new))

mirror_insert-twice :
    (s : Session) (m n : SessionMessage)
    → Rising s.log
    → Absent m.seq s.log
    → (mirror_insert (mirror_insert s m) n).log ≡ insert_by_seq n (insert_by_seq m s.log)
mirror_insert-twice s m n rising new =
    mirror_insert-log (mirror_insert s m) n (mirror_insert-Rising s m rising new)
    ∙ ap (insert_by_seq n) (mirror_insert-log s m rising)

-- Two messages with different numbers, neither of which is in the log of a mirror that is in order,
-- leave the same log and the same head in whichever order they are put into it.
pub mirror_insert_comm :
    (s : Session) (m n : SessionMessage)
    → Rising s.log
    → Absent m.seq s.log
    → Absent n.seq s.log
    → m.seq ≢ n.seq
    → ((mirror_insert (mirror_insert s m) n).log ≡ (mirror_insert (mirror_insert s n) m).log)
      × ((mirror_insert (mirror_insert s m) n).head ≡ (mirror_insert (mirror_insert s n) m).head)
mirror_insert_comm s m n rising new_m new_n apart = (
  mirror_insert-twice s m n rising new_m
      ∙ sym (insert_by_seq_comm m n s.log (ground arith))
      ∙ sym (mirror_insert-twice s n m rising new_n),
  mirror_insert-head_comm s m n,
)

holds_seq-insert_by_seq :
    (m : SessionMessage) (log : List SessionMessage) → holds_seq m.seq (insert_by_seq m log) ≡ true
unfolding holds_seq insert_by_seq
holds_seq-insert_by_seq m [] = ground arith
holds_seq-insert_by_seq m (x ∷ xs) = ground (arith, holds_seq-insert_by_seq m xs)

-- A number that was put into a log in order, which did not have it, is found there.
pub has_seq_at-mirror_insert :
    (s : Session) (m : SessionMessage)
    → Rising s.log
    → Absent m.seq s.log
    → let log = (mirror_insert s m).log in has_seq_at (partition_point m.seq log) m.seq log ≡ true
has_seq_at-mirror_insert s m rising new =
    has_seq_at-Rising m.seq (mirror_insert s m).log (mirror_insert-Rising s m rising new)
    ∙ ap (holds_seq m.seq) (mirror_insert-log s m rising)
    ∙ holds_seq-insert_by_seq m s.log
