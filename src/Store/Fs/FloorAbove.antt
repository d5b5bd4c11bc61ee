-- ===== src/Store/Fs/FloorAbove.antt =====
-- crates/artel-daemon/src/store/fs.rs: an epoch floor above the epoch in the meta file, and the two
-- writes that matter to it.
use artel.Common.{
  ℕ, zero, suc, ◌≤◌, ◌<◌, ◌≡◌, refl, sym, subst, ◌∙◌, ◌⊎◌, inl, inr, true, Option, none, some,
  arith, ltb, leb, Bool-cases, Option-cases,
}
use artel.Protocol.Bytes.{Bytes}
use artel.Store.{IoError, Io, done, failed, not_found, invalid_data}
use artel.Store.Fs.{
  Meta, EpochFloorFile, Formats, FormatLaws, SessionDir, Place, Step, change, with_dir,
  write_atomic, decoded,
}
use artel.Store.Fs.Files.{
  put_meta, read_meta, write_meta, read_floor, raise_floor, read_and_raise_epoch_floor,
}
use artel.Store.Fs.Log.Writes.{encoded-done}
use artel.Store.Fs.Rest.{HoldsFloor}
use artel.Store.Fs.Quiet.{meta_of, IsQuiet}

put_meta-cases :
    (bytes : Bytes) (p : Place)
    → let q = (write_atomic put_meta bytes p).1 in
      (q.floor_file ≡ p.floor_file) × ((meta_of q ≡ meta_of p) ⊎ (meta_of q ≡ some bytes))
unfolding write_atomic put_meta with_dir change meta_of
put_meta-cases bytes p = elim (Option-cases p.dir) [
  | inl e ↦ (ground arith, inl (ground arith))
  | inr (dir, e) ↦ elim (Bool-cases (leb 1 p.left)) [
    | inl more ↦ (ground arith, inr (ground arith))
    | inr less ↦ (ground arith, inl (ground arith))
  ]
]

pub some_injective : {a b : Bytes} → some a ≡ some b → a ≡ b
some_injective h = ground arith

module _ (f : Formats) where
  -- The floor file can be read, its floor is at least `least`, and above the epoch of the meta file.
  pub record FloorAbove (least : ℕ) (p : Place) : Type 0 where
    pub floor : ℕ
    pub holds : HoldsFloor f p.floor_file floor
    pub at_least : least ≤ floor
    pub above :
        (bytes : Bytes) (meta : Meta)
        → meta_of p ≡ some bytes
        → f.meta.decode bytes ≡ some meta
        → meta.host_epoch < floor

  pub quiet-FloorAbove :
      {A : Type 0} (least : ℕ) (m : Step A) (p : Place)
      → IsQuiet m
      → FloorAbove least p
      → FloorAbove least (m p).1
  unfolding IsQuiet
  quiet-FloorAbove least m p quiet a =
      let (floor, meta) = quiet p in
      record {
        floor = a.floor;
        holds = subst (λ o. HoldsFloor f o a.floor) (sym floor) a.holds;
        at_least = a.at_least;
        above = λ bytes now here dec. a.above bytes now (sym meta ∙ here) dec;
      }

  pub read_meta-cases :
      (p : Place)
      → ((meta : Meta) × (bytes : Bytes) × (read_meta f p ≡ (done meta, p))
          × (meta_of p ≡ some bytes)
          × (f.meta.decode bytes ≡ some meta))
        ⊎ ((err : IoError) × (read_meta f p ≡ (failed err, p)))
  unfolding read_meta with_dir decoded meta_of
  read_meta-cases p = elim (Option-cases p.dir) [
    | inl e ↦ inr (not_found, ground arith)
    | inr (dir, e) ↦ elim (Option-cases dir.meta_file) [
      | inl missing ↦ inr (not_found, ground arith)
      | inr (bytes, there) ↦ elim (Option-cases (f.meta.decode bytes)) [
        | inl bad ↦ inr (invalid_data, ground arith)
        | inr (meta, dec) ↦ inl (meta, bytes, ground arith, ground arith, dec)
      ]
    ]
  ]

  module _ (L : FormatLaws f) where
    pub write_meta-FloorAbove :
        (least : ℕ) (meta : Meta) (p : Place)
        → meta.host_epoch < least
        → FloorAbove least p
        → FloorAbove least (write_meta f meta p).1
    unfolding write_meta
    write_meta-FloorAbove least meta p low a =
        let (bytes, total) = L.meta_total meta in
        let law = L.meta_law meta bytes total in
        let (floor, now) = put_meta-cases bytes p in
        rw (write_meta, encoded-done f.meta meta bytes p total)
          (record {
            floor = a.floor;
            holds = subst (λ o. HoldsFloor f o a.floor) (sym floor) a.holds;
            at_least = a.at_least;
            above = λ b m here dec. elim now [
              | inl old ↦ a.above b m (sym old ∙ here) dec
              | inr new ↦
                  let low_part = a.at_least in
                  let same : bytes ≡ b = some_injective (sym new ∙ here) in
                  let read : some meta ≡ some m =
                    sym law ∙ (subst (λ z. f.meta.decode z ≡ some m) (sym same) dec) in
                  ground arith
            ];
          })

    pub read_floor_any :
        (n left : ℕ) (dir : Option SessionDir) (file : Option Bytes)
        → HoldsFloor f file n
        → let p : Place = record { dir = dir; floor_file = file; left = left } in
          read_floor f p ≡ (done n, p)
    unfolding read_floor decoded
    read_floor_any n left dir none holds = rw (read_floor, holds) refl
    read_floor_any n left dir (some bytes) holds = rw (read_floor, decoded, holds) refl

    abbrev RaiseEnds : ℕ → ℕ → Place → Io ℕ × Place → Type 0
    RaiseEnds k n p x =
        (x.1.dir ≡ p.dir)
        × ((HoldsFloor f x.1.floor_file n × ((m : ℕ) → x.0 ≡ done m → k ≤ n))
            ⊎ (HoldsFloor f x.1.floor_file k × (n ≤ k)))

    raise_up :
        (k n left : ℕ) (p : Place) (bytes : Bytes)
        → HoldsFloor f p.floor_file n
        → ltb n k ≡ true
        → f.epoch_floor.encode (record { version = 1; floor = k }) ≡ some bytes
        → f.epoch_floor.decode bytes ≡ some (record { version = 1; floor = k })
        → let q : Place = record p { left = left } in RaiseEnds k n q (raise_floor f k n q)
    unfolding raise_floor change
    raise_up k n zero p bytes holds up total law =
        rw (raise_floor, up, encoded-done f.epoch_floor _ bytes _ total)
          (refl, inl (holds, λ m e. ground arith))
    raise_up k n (suc left) p bytes holds up total law =
        rw (raise_floor, up, encoded-done f.epoch_floor _ bytes _ total)
          (refl, inr (law, ground arith))

    -- The floor file after a raise, in whichever way it ends.
    raise-cases :
        (k n : ℕ) (p : Place)
        → HoldsFloor f p.floor_file n
        → RaiseEnds k n p (read_and_raise_epoch_floor f k p)
    unfolding read_and_raise_epoch_floor raise_floor
    raise-cases k n p holds =
        let doc : EpochFloorFile = record { version = 1; floor = k } in
        let (bytes, total) = L.epoch_floor_total doc in
        rw (read_and_raise_epoch_floor, read_floor_any n p.left p.dir p.floor_file holds)
          (elim (Bool-cases (ltb n k)) [
            | inr down ↦ rw (raise_floor, down) (refl, inl (holds, λ m e. ground arith))
            | inl up ↦
                raise_up k n p.left p bytes holds up total (L.epoch_floor_law doc bytes total)
          ])

    kept_floor :
        (p : Place) {q : Place} {floor least now : ℕ}
        → ((bytes : Bytes) (meta : Meta)
            → meta_of p ≡ some bytes
            → f.meta.decode bytes ≡ some meta
            → meta.host_epoch < floor)
        → q.dir ≡ p.dir
        → HoldsFloor f q.floor_file now
        → least ≤ now
        → floor ≤ now
        → FloorAbove least q
    unfolding meta_of
    kept_floor p {floor} {now} above same holds low high = record {
      floor = now;
      holds = holds;
      at_least = low;
      above = λ bytes meta here dec.
          let old : meta.host_epoch < floor = above bytes meta (ground arith) dec in omega arith;
    }

    pub raise-FloorAbove :
        (least k : ℕ) (p : Place)
        → FloorAbove least p
        → let (x, q) = read_and_raise_epoch_floor f k p in
          FloorAbove least q × ((n : ℕ) → x ≡ done n → FloorAbove k q)
    unfolding meta_of
    raise-FloorAbove least k p a =
        let (same, ends) = raise-cases k a.floor p a.holds in
        let low = a.at_least in
        elim ends [
          | inl (holds, high) ↦ (
            kept_floor p a.above same holds low (omega arith),
            λ n e. kept_floor p a.above same holds (high n e) (omega arith),
          )
          | inr (holds, high) ↦ (
            kept_floor p a.above same holds (omega arith) high,
            λ n e. kept_floor p a.above same holds (omega arith) high,
          )
        ]
