-- ===== src/Registry/Mirror/Held.antt =====
-- crates/artel-daemon/src/session.rs (`apply_inbound_mirror_message`): the test for duplicates on a log
-- in order.
use artel.Common.{
  Memᴰ, ◌≢◌, ◌↔◌, ◌≤◌, ◌≡◌, refl, sym, ap, ◌∙◌, Bool, true, false, List, [], ◌∷◌, arith,
  if◌then◌else◌, ◌==◌, ltb, Bool-cases, inl, inr,
}
use artel.Protocol.Ids.{Seq}
use artel.Protocol.Message.{SessionMessage}
use artel.Session.Order.{Ascending, Rising}
use artel.Registry.Mirror.{partition_point, has_seq_at}
use artel.Registry.Mirror.Search.{rank, partition_point-Rising}
use mathlib.Core.List.Memᴰ

-- Whether a message of the log has the number.
unfoldable pub holds_seq : Seq → List SessionMessage → Bool
holds_seq seq [] = false
holds_seq seq (m ∷ ms) = if m.seq == seq then true else holds_seq seq ms

-- No message of the log has the number.
abbrev pub Absent : Seq → List SessionMessage → Type 0
Absent seq log = (x : SessionMessage) → Memᴰ x log → x.seq ≢ seq

pub holds_seq-Absent :
    (seq : Seq) (log : List SessionMessage) → (holds_seq seq log ≡ false) ↔ Absent seq log
unfolding holds_seq
holds_seq-Absent seq [] = (λ h x m. absurd (Memᴰ.not-nil m), λ a. refl)
holds_seq-Absent seq (y ∷ ys) =
    let (to, from) = holds_seq-Absent seq ys in
    (
      λ h x m.
          let apart : y.seq ≢ seq = ground arith in
          let others : holds_seq seq ys ≡ false = ground arith in
          elim (Memᴰ.cases_cons m) [
            | inl same ↦ λ e. apart (sym (ap (λ (z : SessionMessage). z.seq) same) ∙ e)
            | inr later ↦ to others x later
          ],
      λ a.
          let apart : y.seq ≢ seq = a y (Memᴰ.head refl) in
          let others = from (λ x m. a x (Memᴰ.tail m)) in ground arith,
    )

holds_seq-above :
    (lo seq : Seq) (log : List SessionMessage)
    → Ascending lo log
    → seq ≤ lo
    → holds_seq seq log ≡ false
unfolding holds_seq
holds_seq-above lo seq [] a h = refl
holds_seq-above lo seq (x ∷ xs) a h =
    let rest = holds_seq-above x.seq seq xs a.1 (omega arith) in ground arith

has_seq_at-Ascending :
    (lo seq : Seq) (log : List SessionMessage)
    → Ascending lo log
    → has_seq_at (rank seq log) seq log ≡ holds_seq seq log
unfolding has_seq_at rank holds_seq
has_seq_at-Ascending lo seq [] a = refl
has_seq_at-Ascending lo seq (x ∷ xs) a =
    let rest = has_seq_at-Ascending x.seq seq xs a.1 in
    elim (Bool-cases (ltb x.seq seq)) [
      | inl below ↦ ground arith
      | inr above ↦
          let gone : seq ≤ x.seq = ground arith in
          let past = holds_seq-above x.seq seq xs a.1 gone in ground arith
    ]

has_seq_at-rank :
    (seq : Seq) (log : List SessionMessage)
    → Rising log
    → has_seq_at (rank seq log) seq log ≡ holds_seq seq log
unfolding has_seq_at rank holds_seq
has_seq_at-rank seq [] a = refl
has_seq_at-rank seq (x ∷ xs) a =
    let rest = has_seq_at-Ascending x.seq seq xs a in
    elim (Bool-cases (ltb x.seq seq)) [
      | inl below ↦ ground arith
      | inr above ↦
          let gone : seq ≤ x.seq = ground arith in
          let past = holds_seq-above x.seq seq xs a gone in ground arith
    ]

-- In a log in order, the test of the code tells whether the log holds the number.
pub has_seq_at-Rising :
    (seq : Seq) (log : List SessionMessage)
    → Rising log
    → has_seq_at (partition_point seq log) seq log ≡ holds_seq seq log
has_seq_at-Rising seq log rising =
    ap (λ i. has_seq_at i seq log) (partition_point-Rising seq log rising)
    ∙ has_seq_at-rank seq log rising
