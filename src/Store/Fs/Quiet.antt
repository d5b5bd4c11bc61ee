-- ===== src/Store/Fs/Quiet.antt =====
-- crates/artel-daemon/src/store/fs.rs: the steps that leave the meta file and the floor file alone,
-- however they end.
use artel.Common.{
  ◌≡◌, refl, ◌∙◌, inl, inr, Bool, true, false, Option, none, some, List, [], ◌∷◌, arith,
  if◌then◌else◌, Option-cases,
}
use artel.Protocol.Bytes.{Bytes}
use artel.Protocol.Ids.{SessionId}
use artel.Protocol.Signing.{Ed25519}
use artel.Protocol.Message.{SessionMessage}
use artel.Protocol.Ticket.{TicketEntry}
use artel.Store.{IoError, Io, done, failed, not_found, invalid_data, other}
use artel.Store.Fs.{
  Codec, Formats, Place, Step, change, with_dir, write_atomic, encoded, decoded, and_then, ◌>>=◌,
  ◌>>◌, pure, fail,
}
use artel.Store.Fs.Files.{
  put_ledger, put_envelope, read_meta, write_tickets, write_workspace_ticket, read_tickets,
  read_workspace_ticket,
}
use artel.Store.Fs.Load.{quarantine, or_quarantine, load_files, load_one}
use artel.Store.Fs.Log.{read_log, open_log, write_all, set_log, append_log}
use artel.Store.Fs.Ops.{ensure_dir, write_ledger, write_sidecar, append_all}

-- The meta file of a place, if it has one.
unfoldable pub meta_of : Place → Option Bytes
meta_of p = elim p.dir [ none ↦ none | some dir ↦ dir.meta_file ]

-- A step that leaves the meta file and the floor alone, however it ends.
unfoldable pub IsQuiet : {A : Type 0} → Step A → Type 0
unfolding meta_of
IsQuiet m = (p : Place) → ((m p).1.floor_file ≡ p.floor_file) × (meta_of (m p).1 ≡ meta_of p)

pub >>=-IsQuiet :
    {A B : Type 0} (m : Step A) (k : A → Step B)
    → IsQuiet m
    → ((a : A) → IsQuiet (k a))
    → IsQuiet (m >>= k)
unfolding IsQuiet
>>=-IsQuiet m k qm qk p = go (m p) (qm p)
  where
    go :
        (x : Io _ × Place)
        → (x.1.floor_file ≡ p.floor_file) × (meta_of x.1 ≡ meta_of p)
        → ((and_then x k).1.floor_file ≡ p.floor_file) × (meta_of (and_then x k).1 ≡ meta_of p)
    go (done a, q) (same_floor, same_meta) =
        let (then_floor, then_meta) = qk a q in (then_floor ∙ same_floor, then_meta ∙ same_meta)
    go (failed err, q) same = same

pub encoded-IsQuiet : {A : Type 0} (c : Codec A) (a : A) → IsQuiet (encoded c a)
unfolding IsQuiet encoded
encoded-IsQuiet c a p = elim (Option-cases (c.encode a)) [
  | inl e ↦ rw (encoded, e) (refl, refl)
  | inr (bytes, e) ↦ rw (encoded, e) (refl, refl)
]

pub open_log-IsQuiet : IsQuiet open_log
unfolding IsQuiet open_log with_dir change meta_of
open_log-IsQuiet p = ground arith

pub write_all-IsQuiet : (bytes : Bytes) → IsQuiet (write_all bytes)
unfolding IsQuiet write_all with_dir set_log meta_of
write_all-IsQuiet bytes p = ground arith

pub ensure_dir-IsQuiet : IsQuiet ensure_dir
unfolding IsQuiet ensure_dir change meta_of
ensure_dir-IsQuiet p = ground arith

pub put_ledger-IsQuiet : (bytes : Bytes) → IsQuiet (write_atomic put_ledger bytes)
unfolding IsQuiet write_atomic put_ledger with_dir change meta_of
put_ledger-IsQuiet bytes p = ground arith

pub put_envelope-IsQuiet : (bytes : Bytes) → IsQuiet (write_atomic put_envelope bytes)
unfolding IsQuiet write_atomic put_envelope with_dir change meta_of
put_envelope-IsQuiet bytes p = ground arith

pub fail-IsQuiet : (A : Type 0) (err : IoError) → IsQuiet (fail {A = A} err)
unfolding IsQuiet
fail-IsQuiet A err p = (refl, refl)

pub pure-IsQuiet : {A : Type 0} (a : A) → IsQuiet (pure a)
unfolding IsQuiet
pure-IsQuiet a p = (refl, refl)

pub if-IsQuiet :
    {A : Type 0} (b : Bool) (m k : Step A) → IsQuiet m → IsQuiet k → IsQuiet (if b then m else k)
if-IsQuiet true m k qm qk = qm
if-IsQuiet false m k qm qk = qk

pub >>-IsQuiet :
    {B : Type 0} (m : Step (Unit {0})) (k : Step B) → IsQuiet m → IsQuiet k → IsQuiet (m >> k)
>>-IsQuiet m k qm qk = >>=-IsQuiet m (λ _. k) qm (λ _. qk)

pub append_log-IsQuiet : (c : Codec SessionMessage) (m : SessionMessage) → IsQuiet (append_log c m)
unfolding append_log
append_log-IsQuiet c m = >>=-IsQuiet _ _ (encoded-IsQuiet c m) λ payload.
    if-IsQuiet _ _ _ (fail-IsQuiet _ invalid_data) (
      >>-IsQuiet _ _ open_log-IsQuiet
        (>>-IsQuiet _ _ (write_all-IsQuiet _) (write_all-IsQuiet payload)))

pub write_workspace_ticket-IsQuiet : (envelope : Bytes) → IsQuiet (write_workspace_ticket envelope)
unfolding write_workspace_ticket
write_workspace_ticket-IsQuiet envelope =
    if-IsQuiet _ _ _ (fail-IsQuiet _ invalid_data) (put_envelope-IsQuiet envelope)

pub with_dir-IsQuiet : {A : Type 0} (m : Step A) → IsQuiet m → IsQuiet (with_dir λ _. m)
unfolding IsQuiet with_dir
with_dir-IsQuiet m q p = elim (Option-cases p.dir) [
  | inl e ↦ ground arith
  | inr (dir, e) ↦ ground (arith, q p)
]

module _ (f : Formats) where
  pub write_tickets-IsQuiet : (tickets : List TicketEntry) → IsQuiet (write_tickets f tickets)
  unfolding write_tickets
  write_tickets-IsQuiet tickets = >>=-IsQuiet _ _ (encoded-IsQuiet f.tickets _) put_ledger-IsQuiet

  pub write_ledger-IsQuiet : (tickets : List TicketEntry) → IsQuiet (write_ledger f tickets)
  unfolding write_ledger
  write_ledger-IsQuiet [] = pure-IsQuiet tt
  write_ledger-IsQuiet (t ∷ tickets) = write_tickets-IsQuiet (t ∷ tickets)

  pub write_sidecar-IsQuiet : (envelope : Option Bytes) → IsQuiet (write_sidecar f envelope)
  unfolding write_sidecar
  write_sidecar-IsQuiet none = pure-IsQuiet tt
  write_sidecar-IsQuiet (some envelope) = write_workspace_ticket-IsQuiet envelope

  pub append_all-IsQuiet : (log : List SessionMessage) → IsQuiet (append_all f log)
  unfolding append_all
  append_all-IsQuiet [] = pure-IsQuiet tt
  append_all-IsQuiet (m ∷ log) =
      >>-IsQuiet _ _ (append_log-IsQuiet f.message m) (append_all-IsQuiet log)

  quarantine-IsQuiet : IsQuiet quarantine
  unfolding IsQuiet quarantine with_dir change meta_of
  quarantine-IsQuiet p = ground arith

  read_tickets-IsQuiet : IsQuiet (read_tickets f)
  unfolding IsQuiet read_tickets with_dir decoded
  read_tickets-IsQuiet p = ground arith

  or_quarantine-IsQuiet :
      (m : Step (List TicketEntry)) → IsQuiet m → IsQuiet (λ p. or_quarantine (m p))
  unfolding IsQuiet or_quarantine
  or_quarantine-IsQuiet m q p = go (m p) (q p)
    where
      go :
          (x : Io (List TicketEntry) × Place)
          → (x.1.floor_file ≡ p.floor_file) × (meta_of x.1 ≡ meta_of p)
          → ((or_quarantine x).1.floor_file ≡ p.floor_file)
            × (meta_of (or_quarantine x).1 ≡ meta_of p)
      go (failed invalid_data, r) (floor, meta) =
          let (then_floor, then_meta) =
            >>-IsQuiet {B = List TicketEntry} quarantine (pure []) quarantine-IsQuiet
              (pure-IsQuiet {A = List TicketEntry} []) r in
          (then_floor ∙ floor, then_meta ∙ meta)
      go (failed not_found, r) same = same
      go (failed other, r) same = same
      go (done x, r) same = same

  read_workspace_ticket-IsQuiet : IsQuiet read_workspace_ticket
  unfolding IsQuiet read_workspace_ticket with_dir
  read_workspace_ticket-IsQuiet p = ground arith

  read_meta-IsQuiet : IsQuiet (read_meta f)
  unfolding IsQuiet read_meta with_dir decoded
  read_meta-IsQuiet p = ground arith

  read_log-IsQuiet :
      (e : Ed25519) (id : SessionId) (verify : Bool) → IsQuiet (read_log e f.message id verify)
  unfolding IsQuiet read_log with_dir change meta_of
  read_log-IsQuiet e id verify p = ground arith

  pub load_one-IsQuiet :
      (e : Ed25519) (verify : Bool) (id : SessionId) → IsQuiet (load_one e f verify id)
  unfolding load_one load_files
  load_one-IsQuiet e verify id = >>=-IsQuiet _ _ read_meta-IsQuiet λ meta.
      if-IsQuiet _ _ _
        (>>=-IsQuiet _ _ (read_log-IsQuiet e id verify) λ log.
          >>=-IsQuiet _ _ (or_quarantine-IsQuiet (read_tickets f) read_tickets-IsQuiet)
            λ tickets. >>=-IsQuiet _ _ read_workspace_ticket-IsQuiet λ envelope. pure-IsQuiet _)
        (fail-IsQuiet _ invalid_data)
