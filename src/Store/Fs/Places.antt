-- ===== src/Store/Fs/Places.antt =====
-- crates/artel-daemon/src/store/fs.rs: what the calls that replace a small file leave on a disk that
-- lasts.
use artel.Common.{
  ℕ, suc, ◌+◌, ◌-◌, ◌%◌, ◌<◌, max, ◌≡◌, refl, inl, inr, Option, none, some, List, arith,
  if◌then◌else◌, ltb, Bool-cases, u64_mod,
}
use artel.Protocol.Bytes.{Bytes}
use artel.Protocol.Ticket.{TicketEntry}
use artel.Store.{done}
use artel.Store.Fs.{
  Meta, current_version, EpochFloorFile, TicketsFile, Formats, FormatLaws, SessionDir, change,
  with_dir, write_atomic, decoded,
}
use artel.Store.Fs.Files.{
  write_tickets, put_ledger, read_floor, raise_floor, read_and_raise_epoch_floor,
}
use artel.Store.Fs.Log.Parts.{place_with}
use artel.Store.Fs.Log.Writes.{encoded-done}
use artel.Store.Fs.Ops.{update_meta, bump_host_epoch, put_tickets}
use artel.Store.Fs.Crash.{with_meta, write_meta-place}
use artel.Store.Fs.Rest.{HoldsMeta, HoldsFloor, read_meta-done}

pub read_floor-done :
    (f : Formats) (n : ℕ) (dir : SessionDir) (floor : Option Bytes) (left : ℕ)
    → HoldsFloor f floor n
    → read_floor f (place_with dir floor left) ≡ (done n, place_with dir floor left)
unfolding read_floor decoded
read_floor-done f n dir none left holds = rw (read_floor, holds) refl
read_floor-done f n dir (some bytes) left holds = rw (read_floor, decoded, holds) refl

module _ (f : Formats) (L : FormatLaws f) where
  pub update_meta-place :
      (g : Meta → Meta) (meta : Meta) (dir : SessionDir) (floor : Option Bytes) (left : ℕ)
      → HoldsMeta f dir.meta_file meta
      → update_meta f g (place_with dir floor (suc left))
        ≡ (done tt, place_with (with_meta (L.meta_total (g meta)).0 dir) floor left)
  unfolding update_meta
  update_meta-place g meta dir floor left holds =
      rw (update_meta, read_meta-done f meta dir floor (suc left) holds)
        (write_meta-place f (g meta) (L.meta_total (g meta)).0 dir floor left
          (L.meta_total (g meta)).1).0

  pub now_holds :
      (meta : Meta) → meta.version ≡ current_version → HoldsMeta f (some (L.meta_total meta).0) meta
  now_holds meta version =
      let (bytes, total) = L.meta_total meta in (bytes, refl, L.meta_law meta bytes total, version)

  pub write_tickets-place :
      (tickets : List TicketEntry) (dir : SessionDir) (floor : Option Bytes) (left : ℕ)
      → let doc : TicketsFile = record { version = 1; entries = tickets } in
        put_tickets f tickets (place_with dir floor (suc left)) ≡ (
          done tt,
          place_with (record dir { tickets_file = some (L.tickets_total doc).0 }) floor left,
        )
  unfolding put_tickets write_tickets write_atomic with_dir change put_ledger
  write_tickets-place tickets dir floor left =
      let doc : TicketsFile = record { version = 1; entries = tickets } in
      let (bytes, total) = L.tickets_total doc in
      rw (put_tickets, write_tickets, encoded-done f.tickets doc bytes _ total) refl

  pub raised_file : ℕ → ℕ → Option Bytes → Option Bytes
  raised_file current raise_to floor =
      if ltb current raise_to
      then some (L.epoch_floor_total (record { version = 1; floor = raise_to })).0
      else floor

  pub raised_file-HoldsFloor :
      (current raise_to : ℕ) (floor : Option Bytes)
      → HoldsFloor f floor current
      → HoldsFloor f (raised_file current raise_to floor) (max current raise_to)
  unfolding raised_file
  raised_file-HoldsFloor current raise_to floor holds =
      let doc : EpochFloorFile = record { version = 1; floor = raise_to } in
      let (bytes, total) = L.epoch_floor_total doc in
      elim (Bool-cases (ltb current raise_to)) [
        | inl up ↦
            let top : max current raise_to ≡ raise_to = ground arith in
            rw (raised_file, up, top) (L.epoch_floor_law doc bytes total)
        | inr down ↦
            let top : max current raise_to ≡ current = ground arith in
            rw (raised_file, down, top) holds
      ]

  -- The floor file is raised when its floor is too low; one step is enough.
  pub raise-place :
      (current raise_to : ℕ) (dir : SessionDir) (floor : Option Bytes) (left : ℕ)
      → HoldsFloor f floor current
      → read_and_raise_epoch_floor f raise_to (place_with dir floor (suc left)) ≡ (
        done current,
        place_with dir
            (raised_file current raise_to floor)
            (if ltb current raise_to then left else suc left),
      )
  unfolding read_and_raise_epoch_floor raise_floor raised_file change
  raise-place current raise_to dir floor left holds =
      let doc : EpochFloorFile = record { version = 1; floor = raise_to } in
      let (bytes, total) = L.epoch_floor_total doc in
      rw (read_and_raise_epoch_floor, read_floor-done f current dir floor (suc left) holds)
        (elim (Bool-cases (ltb current raise_to)) [
          | inl up ↦
              rw (raise_floor, raised_file, up, encoded-done f.epoch_floor doc bytes _ total) refl
          | inr down ↦ rw (raise_floor, raised_file, down) refl
        ])

  pub bump-place :
      (epoch current : ℕ) (meta : Meta) (dir : SessionDir) (floor : Option Bytes) (left : ℕ)
      → HoldsMeta f dir.meta_file meta
      → HoldsFloor f floor current
      → 0 < left
      → let k = (epoch + 1) % u64_mod in
        let now : Meta = record meta { host_epoch = epoch } in
        bump_host_epoch f epoch (place_with dir floor (suc left)) ≡ (
          done tt,
          place_with
              (with_meta (L.meta_total now).0 dir)
              (raised_file current k floor)
              (if ltb current k then left - 1 else left),
        )
  unfolding bump_host_epoch
  bump-place epoch current meta dir floor left holds floor_holds two =
      let k = (epoch + 1) % u64_mod in
      let now : Meta = record meta { host_epoch = epoch } in
      let after = if ltb current k then left - 1 else left in
      let steps : (if ltb current k then left else suc left) ≡ suc after = ground arith in
      let read = read_meta-done f meta dir floor (suc left) holds in
      rw (bump_host_epoch, read, read)
        (rw (raise-place current k dir floor left floor_holds, steps)
          (write_meta-place f now (L.meta_total now).0 dir (raised_file current k floor) after
            (L.meta_total now).1).0)
