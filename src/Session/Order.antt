-- ===== src/Session/Order.antt =====
-- crates/artel-daemon/src/session.rs: logs in order of their sequence numbers, and the sort.
use artel.Common.{suc, ◌≤◌, ◌<◌, ◌≡◌, refl, sym, subst, List, [], ◌∷◌, ◌++◌, arith}
use artel.Protocol.Ids.{Seq}
use artel.Protocol.Message.{SessionMessage}
use artel.Session.{insert_by_seq, sort_by_seq}

-- The sequence numbers rise strictly, from above `lo`.
abbrev pub Ascending : Seq → List SessionMessage → Type 0
Ascending lo [] = Unit {0}
Ascending lo (m ∷ ms) = (lo < m.seq) × Ascending m.seq ms

-- The sequence numbers rise strictly.
abbrev pub Rising : List SessionMessage → Type 0
Rising [] = Unit {0}
Rising (m ∷ ms) = Ascending m.seq ms

-- No sequence number is above `hi`.
abbrev pub AtMost : Seq → List SessionMessage → Type 0
AtMost hi [] = Unit {0}
AtMost hi (m ∷ ms) = (m.seq ≤ hi) × AtMost hi ms

-- The sequence numbers are lo + 1, lo + 2, …, hi.
abbrev pub Consecutive : Seq → List SessionMessage → Seq → Type 0
Consecutive lo [] hi = lo ≡ hi
Consecutive lo (m ∷ ms) hi = (m.seq ≡ suc lo) × Consecutive (suc lo) ms hi

pub Consecutive-Ascending :
    (lo hi : Seq) (log : List SessionMessage) → Consecutive lo log hi → Ascending lo log
Consecutive-Ascending lo hi [] c = tt
Consecutive-Ascending lo hi (m ∷ ms) c =
    let rest : Ascending (suc lo) ms = Consecutive-Ascending (suc lo) hi ms c.1 in
    (omega arith, subst (λ n. Ascending n ms) (sym c.0) rest)

pub Consecutive-append :
    (lo hi : Seq) (log : List SessionMessage) (m : SessionMessage)
    → Consecutive lo log hi
    → m.seq ≡ suc hi
    → Consecutive lo (log ++ m ∷ []) (suc hi)
Consecutive-append lo hi [] m c e = (omega arith, omega arith)
Consecutive-append lo hi (x ∷ xs) m c e = (c.0, Consecutive-append (suc lo) hi xs m c.1 e)

insert_by_seq-front :
    (lo : Seq) (m : SessionMessage) (ms : List SessionMessage)
    → m.seq ≤ lo
    → Ascending lo ms
    → insert_by_seq m ms ≡ m ∷ ms
unfolding insert_by_seq
insert_by_seq-front lo m [] h a = refl
insert_by_seq-front lo m (x ∷ xs) h a = ground arith

-- A log in order is left as it is.
pub sort_by_seq-Ascending :
    (lo : Seq) (log : List SessionMessage) → Ascending lo log → sort_by_seq log ≡ log
unfolding sort_by_seq
sort_by_seq-Ascending lo [] a = refl
sort_by_seq-Ascending lo (m ∷ ms) a =
    rw (sort_by_seq-Ascending m.seq ms a.1) (insert_by_seq-front m.seq m ms (omega arith) a.1)
