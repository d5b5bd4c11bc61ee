-- ===== src/Registry/Mirror/Search.antt =====
-- crates/artel-daemon/src/session.rs (`apply_inbound_mirror_message`): on a log in order, the binary
-- search finds the number of messages below the one that it is given.
use artel.Common.{
  ℕ, zero, suc, ◌+◌, ◌-◌, ◌/◌, ◌≤◌, ◌≡◌, refl, false, List, [], ◌∷◌, arith, if◌then◌else◌, ltb,
  length, Bool-cases, inl, inr,
}
use artel.Protocol.Ids.{Seq}
use artel.Protocol.Message.{SessionMessage}
use artel.Session.Order.{Ascending, Rising}
use artel.Registry.Mirror.{is_below, search, partition_point}

-- How many messages there are before the first that is not below the number.
unfoldable pub rank : Seq → List SessionMessage → ℕ
rank seq [] = 0
rank seq (m ∷ ms) = let rest = rank seq ms in if ltb m.seq seq then suc rest else 0

rank-length : (seq : Seq) (log : List SessionMessage) → rank seq log ≤ length log
unfolding rank
rank-length seq [] = omega arith
rank-length seq (m ∷ ms) = ground (arith, rank-length seq ms)

-- Above a number that is not below, none is.
is_below-above :
    (lo seq : Seq) (log : List SessionMessage) (i : ℕ)
    → Ascending lo log
    → seq ≤ lo
    → is_below seq log i ≡ false
unfolding is_below
is_below-above lo seq [] i a h = refl
is_below-above lo seq (m ∷ ms) zero a h = ground arith
is_below-above lo seq (m ∷ ms) (suc i) a h = is_below-above m.seq seq ms i a.1 (omega arith)

is_below-rank :
    (lo seq : Seq) (log : List SessionMessage) (i : ℕ)
    → Ascending lo log
    → is_below seq log i ≡ ltb i (rank seq log)
unfolding is_below rank
is_below-rank lo seq [] i a = ground arith
is_below-rank lo seq (m ∷ ms) zero a = elim (Bool-cases (ltb m.seq seq)) [
  | inl below ↦ ground arith
  | inr above ↦ ground arith
]
is_below-rank lo seq (m ∷ ms) (suc i) a = elim (Bool-cases (ltb m.seq seq)) [
  | inl below ↦ let rest = is_below-rank m.seq seq ms i a.1 in ground arith
  | inr above ↦
      let none_below : is_below seq ms i ≡ false =
        is_below-above m.seq seq ms i a.1 (ground arith) in
      ground arith
]

is_below-rank-Rising :
    (seq : Seq) (log : List SessionMessage) (i : ℕ)
    → Rising log
    → is_below seq log i ≡ ltb i (rank seq log)
unfolding is_below rank
is_below-rank-Rising seq [] i a = ground arith
is_below-rank-Rising seq (m ∷ ms) zero a = elim (Bool-cases (ltb m.seq seq)) [
  | inl below ↦ ground arith
  | inr above ↦ ground arith
]
is_below-rank-Rising seq (m ∷ ms) (suc i) a = elim (Bool-cases (ltb m.seq seq)) [
  | inl below ↦ let rest = is_below-rank m.seq seq ms i a in ground arith
  | inr above ↦
      let none_below : is_below seq ms i ≡ false = is_below-above m.seq seq ms i a (ground arith) in
      ground arith
]

-- The loop keeps the point between its base and the end of the part, and ends beside it.
search-near :
    (fuel : ℕ) (seq : Seq) (log : List SessionMessage) (n size base : ℕ)
    → ((i : ℕ) → is_below seq log i ≡ ltb i n)
    → base ≤ n
    → n ≤ base + size
    → size ≤ suc fuel
    → (search fuel seq log size base ≤ n) × (n ≤ suc (search fuel seq log size base))
unfolding search
search-near zero seq log n size base parted low high small = (low, omega arith)
search-near (suc fuel) seq log n size base parted low high small =
    let here = parted (base + size / 2) in
    elim (Bool-cases (ltb 1 size)) [
      | inr one ↦ rw (search, one) (low, ground arith)
      | inl more ↦ elim (Bool-cases (is_below seq log (base + size / 2))) [
        | inl below ↦
            rw (search, more, below)
              (search-near fuel seq log n (size - size / 2) (base + size / 2) parted (ground arith)
                (omega arith) (ground arith))
        | inr above ↦
            rw (search, more, above)
              (search-near fuel seq log n (size - size / 2) base parted low (ground arith)
                (ground arith))
      ]
    ]

pub partition_point-Rising :
    (seq : Seq) (log : List SessionMessage) → Rising log → partition_point seq log ≡ rank seq log
unfolding partition_point
partition_point-Rising seq log rising =
    let n = rank seq log in
    let parted : (i : ℕ) → is_below seq log i ≡ ltb i n =
      λ i. is_below-rank-Rising seq log i rising in
    let (low, high) =
      search-near (length log) seq log n (length log) 0 parted (omega arith)
        (omega (arith, rank-length seq log)) (omega arith) in
    let base = search (length log) seq log (length log) 0 in
    let last = parted base in
    elim (Bool-cases (is_below seq log base)) [
      | inl below ↦ rw (partition_point, below) (ground arith)
      | inr above ↦ rw (partition_point, above) (ground arith)
    ]
