-- ===== src/Store/Fs/Lives.antt =====
-- crates/artel-daemon/src/store/fs.rs: over the whole life of a session id the epoch floor stays above
-- the epoch in the meta file, at every moment at which the disk can fail.
use artel.Common.{ℕ, ◌+◌, ◌%◌, ◌<◌, ◌≡◌, refl, inl, inr, Bool, none, arith, u64_mod}
use artel.Protocol.Bytes.{Bytes}
use artel.Protocol.Ids.{SessionId}
use artel.Protocol.Signing.{Ed25519}
use artel.Session.{SessionRecord}
use artel.Store.{IoError, Io, done, failed, not_found, invalid_data, other}
use artel.Store.Fs.{Meta, Formats, FormatLaws, Place, Step, and_then, ◌>>=◌, ◌>>◌}
use artel.Store.Fs.Files.{from_record, read_meta, write_meta, read_and_raise_epoch_floor}
use artel.Store.Fs.Load.{load_one}
use artel.Store.Fs.Log.{open_log, append_log}
use artel.Store.Fs.Ops.{
  ensure_dir, delete, write_ledger, write_sidecar, append_all, create, append, update_meta,
  bump_host_epoch, put_tickets, put_workspace_ticket, add_member, remove_member,
}
use artel.Store.Fs.Refines.{
  StoreOp, append_op, bump_op, tickets_op, envelope_op, add_op, remove_op, fs_op,
}
use artel.Store.Fs.Quiet.{
  open_log-IsQuiet, ensure_dir-IsQuiet, >>-IsQuiet, append_log-IsQuiet,
  write_workspace_ticket-IsQuiet, with_dir-IsQuiet, write_tickets-IsQuiet, write_ledger-IsQuiet,
  write_sidecar-IsQuiet, append_all-IsQuiet,
}
use artel.Store.Fs.FloorAbove.{
  FloorAbove, quiet-FloorAbove, read_meta-cases, write_meta-FloorAbove, raise-FloorAbove,
}

module _ (f : Formats) where
  module _ (L : FormatLaws f) where
    weaker : {least : ℕ} {p : Place} → FloorAbove f least p → FloorAbove f 0 p
    weaker a = record { floor = a.floor; holds = a.holds; at_least = omega arith; above = a.above }

    at_floor : {least : ℕ} {p : Place} (a : FloorAbove f least p) → FloorAbove f a.floor p
    at_floor a = record {
      floor = a.floor;
      holds = a.holds;
      at_least = omega arith;
      above = a.above;
    }

    and_then-FloorAbove :
        {A B : Type 0} {least : ℕ} (x : Io A × Place) (k : A → Step B)
        → FloorAbove f least x.1
        → ((a : A) (q : Place) → FloorAbove f least q → FloorAbove f 0 (k a q).1)
        → FloorAbove f 0 (and_then x k).1
    and_then-FloorAbove (done a, p) k h step = step a p h
    and_then-FloorAbove (failed e, p) k h step = weaker h

    -- A raise, then a step that needs the new floor.
    raised-FloorAbove :
        (k : ℕ) (m : Step (Unit {0})) (p : Place)
        → ((q : Place) → FloorAbove f k q → FloorAbove f 0 (m q).1)
        → FloorAbove f 0 p
        → FloorAbove f 0 ((read_and_raise_epoch_floor f k >>= λ _. m) p).1
    raised-FloorAbove k m p step a =
        go (read_and_raise_epoch_floor f k p) (raise-FloorAbove f L 0 k p a)
      where
        go :
            (x : Io ℕ × Place)
            → FloorAbove f 0 x.1 × ((n : ℕ) → x.0 ≡ done n → FloorAbove f k x.1)
            → FloorAbove f 0 (and_then x λ _. m).1
        go (done n, q) (low, high) = step q (high n refl)
        go (failed err, q) (low, high) = low

    update_meta-FloorAbove :
        (g : Meta → Meta) (p : Place)
        → ((meta : Meta) → (g meta).host_epoch ≡ meta.host_epoch)
        → FloorAbove f 0 p
        → FloorAbove f 0 (update_meta f g p).1
    unfolding update_meta
    update_meta-FloorAbove g p same a = elim (read_meta-cases f p) [
      | inr (err, e) ↦ rw (update_meta, e) a
      | inl (meta, bytes, e, here, dec) ↦
          let old = a.above bytes meta here dec in
          let epoch = same meta in
          rw (update_meta, e)
            (weaker (write_meta-FloorAbove f L a.floor (g meta) p (omega arith) (at_floor a)))
    ]

    -- A call on a session that is there keeps the floor above the epoch, however long the disk
    -- lasts.
    pub fs_op-FloorAbove :
        (op : StoreOp) (p : Place)
        → ((epoch : ℕ) → op ≡ bump_op epoch → epoch + 1 < u64_mod)
        → FloorAbove f 0 p
        → FloorAbove f 0 (fs_op f op p).1
    unfolding fs_op append add_member remove_member put_tickets put_workspace_ticket bump_host_epoch
    fs_op-FloorAbove (append_op m) p h a =
        and_then-FloorAbove (append_log f.message m p) _
          (quiet-FloorAbove f 0 (append_log f.message m) p (append_log-IsQuiet f.message m) a)
          λ _ q b. update_meta-FloorAbove _ q (λ _. refl) b
    fs_op-FloorAbove (add_op peer) p h a = update_meta-FloorAbove _ p (λ _. refl) a
    fs_op-FloorAbove (remove_op peer) p h a = update_meta-FloorAbove _ p (λ _. refl) a
    fs_op-FloorAbove (tickets_op tickets) p h a =
        quiet-FloorAbove f 0 _ p (with_dir-IsQuiet _ (write_tickets-IsQuiet f tickets)) a
    fs_op-FloorAbove (envelope_op envelope) p h a =
        quiet-FloorAbove f 0 _ p (with_dir-IsQuiet _ (write_workspace_ticket-IsQuiet envelope)) a
    fs_op-FloorAbove (bump_op epoch) p h a =
        let small : (epoch + 1) % u64_mod ≡ epoch + 1 = let l = h epoch refl in omega arith in
        elim (read_meta-cases f p) [
          | inr (err, e) ↦ unknown_or_failed err e
          | inl (meta, bytes, e, here, dec) ↦
              rw (bump_host_epoch, e, e)
                (raised-FloorAbove ((epoch + 1) % u64_mod)
                  (write_meta f (record meta { host_epoch = epoch })) p
                  (λ q b. weaker (
                    write_meta-FloorAbove f L ((epoch + 1) % u64_mod)
                      (record meta { host_epoch = epoch }) q (omega arith) b))
                  a)
        ]
      where
        unknown_or_failed :
            (err : IoError)
            → read_meta f p ≡ (failed err, p)
            → FloorAbove f 0 (bump_host_epoch f epoch p).1
        unknown_or_failed not_found e = rw (bump_host_epoch, e, e) a
        unknown_or_failed invalid_data e = rw (bump_host_epoch, e, e) a
        unknown_or_failed other e = rw (bump_host_epoch, e, e) a

    -- A session is made with the floor above its epoch, however long the disk lasts.
    pub create-FloorAbove :
        (r : SessionRecord) (p : Place)
        → r.host_epoch + 1 < u64_mod
        → FloorAbove f 0 p
        → FloorAbove f 0 (create f r p).1
    unfolding create from_record
    create-FloorAbove r p h a =
        let k = (r.host_epoch + 1) % u64_mod in
        let small : k ≡ r.host_epoch + 1 = omega arith in
        and_then-FloorAbove (ensure_dir p) _
          (quiet-FloorAbove f 0 ensure_dir p ensure_dir-IsQuiet a)
          λ _ p1 a1.
            raised-FloorAbove k _ p1
              (λ p2 a2.
                and_then-FloorAbove (open_log p2) _
                  (quiet-FloorAbove f k open_log p2 open_log-IsQuiet a2)
                  λ _ p3 a3.
                    and_then-FloorAbove (write_meta f (from_record r) p3) _
                      (write_meta-FloorAbove f L k (from_record r) p3 (omega arith) a3)
                      λ _ p4 a4. weaker (
                        quiet-FloorAbove f k
                          (write_ledger f r.tickets
                            >> (write_sidecar f r.workspace_ticket >> append_all f r.log))
                          p4
                          (>>-IsQuiet _ _ (write_ledger-IsQuiet f r.tickets) (
                            >>-IsQuiet _ _ (write_sidecar-IsQuiet f r.workspace_ticket)
                              (append_all-IsQuiet f r.log)))
                          a4))
              a1

  -- The files of one session over the life of its id: made, changed, loaded and deleted in any
  -- order, by daemons whose disks last for any number of steps.
  pub data Lives (e : Ed25519) (verify : Bool) (id : SessionId) : Place → Type 0 where
    fresh : (left : ℕ) → Lives e verify id (record { dir = none; floor_file = none; left = left })
    restarted :
        {p : Place}
        → Lives e verify id p
        → (left : ℕ) → Lives e verify id (record p { left = left })
    loaded : {p : Place} → Lives e verify id p → Lives e verify id (load_one e f verify id p).1
    created :
        {p : Place}
        → Lives e verify id p
        → (r : SessionRecord) → r.host_epoch + 1 < u64_mod
        → Lives e verify id (create f r p).1
    called :
        {p : Place}
        → Lives e verify id p
        → (op : StoreOp) → ((epoch : ℕ) → op ≡ bump_op epoch → epoch + 1 < u64_mod)
        → Lives e verify id (fs_op f op p).1
    deleted : {p : Place} → Lives e verify id p → Lives e verify id (delete p).1
