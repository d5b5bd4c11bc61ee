-- ===== src/Examples/Mirrors.antt =====
-- Runs of the theorems on mirrors, on what is shown of a log, and on deliveries.
use artel.Common.{
  ℕ, Memᴰ, ◌↔◌, ◌++◌, ◌≡◌, ◌≢◌, refl, true, false, Option, none, some, [], ◌∷◌, filter, ap,
}
use artel.Common.Map
use artel.Protocol.Bytes.{Bytes, codes, bytes_eq}
use artel.Protocol.Message.{SessionMessage, new, chat, system, SigBytes, is_system, is_capability}
use artel.Protocol.Signing.{
  sign_seq, verify_message, verify_seq, canonical_bytes, canonical_head, kind_tag, verify_bytes,
  seq_canonical_bytes,
}
use artel.Protocol.Ticket.{SessionTicket}
use artel.Protocol.Capability.{read_write}
use artel.Store.Memory.{memory_store, append, update_record, create, raise_epoch_floor, floor_of}
use artel.Session.{to_record}
use artel.Protocol.Bytes.{be_bytes}
use artel.Registry.Send.{reserved}
use artel.Registry.State.{put_session, emit, with_store, Registry}
use artel.Registry.Subscribe.{log_since, shown_to_peers}
use artel.Registry.Subscribe.Shown.{IsForPeers, log_since-shown}
use artel.Registry.Mirror.{
  verified, mirror_insert, is_below, search, partition_point, has_seq_at, authentic, apply_inbound,
  accept_inbound,
}
use artel.Registry.Mirror.Inbound.{apply_inbound-changed, apply_inbound-again}
use artel.Session.{Session, from_record}
use artel.Common.{arith}
use artel.Session.Order.{Rising}
use artel.Session.WellFormed.{WellFormed}
use artel.Store.Memory.{MemoryStore, SessionEntry}
use artel.Registry.Mirror.Restart.{restart-Rising}
use artel.Examples.{toy_postcard}
use artel.Registry.Mirror.Held.{Absent, holds_seq, holds_seq-Absent}
use artel.Registry.Mirror.Order.{mirror_insert_comm}
use artel.Examples.{toy_env, toy_ed25519, registry, hosted, mirror, guest_info, host_info}

-- What the guest said, behind the grant and system messages of the host.
abbrev said : SessionMessage
said = new 4 2000 guest_info chat (codes "say") [] [] []

abbrev host_system : ℕ → Bytes → SessionMessage
host_system seq action = new seq 1000 host_info system action [] [] []

abbrev busy : Session
busy = record hosted {
  log =
      hosted.log
      ++ host_system 2 (codes "workspace.rotate")
        ∷ host_system 3 (codes "workspace.ticket")
        ∷ said
        ∷ [];
  head = 4;
}

abbrev busy_registry : Registry MemoryStore
busy_registry = record registry { sessions = (7, busy) ∷ [] }

log_since-shown_example : Memᴰ said (said ∷ []) ↔ (Memᴰ said busy.log × IsForPeers 0 said)
log_since-shown_example =
    log_since-shown 7 0 busy_registry busy (said ∷ []) (unfold Map.get in refl)
      (unfold log_since Map.get filter shown_to_peers is_capability is_system bytes_eq in refl) said

-- The guest's message, signed by it and numbered by the host 6.
abbrev pub signed : Option Bytes → SigBytes
signed none = []
signed (some bytes) = 1 ∷ 9 ∷ bytes

abbrev guest_sig : SigBytes
guest_sig = signed (canonical_bytes 8 3 2000 guest_info chat (codes "say") (1 ∷ []))

abbrev pub inbound : SessionMessage
inbound =
    new 3 2000 guest_info chat (codes "say") (1 ∷ []) guest_sig
      (sign_seq toy_ed25519 6 8 3 guest_sig)

abbrev later : SessionMessage
later = record inbound { seq = 4 }

-- A mirror that missed messages 3 and 4.
abbrev gapped : Session
gapped = record mirror {
  log = record inbound { seq = 2 } ∷ record inbound { seq = 5 } ∷ record inbound { seq = 6 } ∷ [];
  head = 6;
}

gapped-Rising : Rising gapped.log
gapped-Rising = (omega arith, (omega arith, tt))

gapped-Absent3 : Absent 3 gapped.log
gapped-Absent3 = (holds_seq-Absent 3 gapped.log).0 (unfold holds_seq in refl)

gapped-Absent4 : Absent 4 gapped.log
gapped-Absent4 = (holds_seq-Absent 4 gapped.log).0 (unfold holds_seq in refl)

mirror_insert_comm_example :
    ((mirror_insert (mirror_insert gapped inbound) later).log
      ≡ (mirror_insert (mirror_insert gapped later) inbound).log)
    × ((mirror_insert (mirror_insert gapped inbound) later).head
        ≡ (mirror_insert (mirror_insert gapped later) inbound).head)
mirror_insert_comm_example =
    mirror_insert_comm gapped inbound later gapped-Rising gapped-Absent3 gapped-Absent4
      (λ e. absurd (omega arith))

-- A ticket for a session of another daemon.
abbrev other_ticket : SessionTicket
other_ticket = record {
  ticket_id = 30;
  session_id = 31;
  host_addr = record { peer_id = 6; relay_url = []; direct_addrs = [] };
  granted_cap = read_write;
  expiry_ms = 0;
  host_epoch = 4;
  cap_sig = [];
}

apply_inbound-again_example :
    apply_inbound toy_env memory_store 8 (mirror_insert gapped inbound) inbound registry ≡ registry
apply_inbound-again_example =
    apply_inbound-again toy_env memory_store 8 gapped inbound registry gapped-Rising gapped-Absent3

inbound_run : apply_inbound toy_env memory_store 8 gapped inbound registry ≢ registry
unfolding apply_inbound has_seq_at partition_point search is_below authentic verify_message
    verify_seq verify_bytes sign_seq canonical_bytes canonical_head kind_tag seq_canonical_bytes
    bytes_eq accept_inbound append update_record create raise_epoch_floor floor_of Map.insert
    Map.get to_record reserved is_system put_session emit with_store be_bytes
inbound_run = λ e. cc (ap (λ (r : Registry _). r.emitted) e)

apply_inbound-changed_example :
    (verified (verify_message toy_ed25519 8 inbound inbound.signature) ≡ true)
    × (verified (verify_seq toy_ed25519 6 8 3 inbound.signature inbound.host_sig) ≡ true)
    × Absent 3 gapped.log
apply_inbound-changed_example =
    apply_inbound-changed toy_env memory_store 8 gapped inbound registry gapped-Rising inbound_run

-- A mirror that has message 5, and then takes message 3.
abbrev fifth : SessionMessage
fifth = record inbound { seq = 5 }

abbrev ahead : Session
ahead = record mirror { log = fifth ∷ []; head = 5 }

abbrev ahead_entry : SessionEntry
ahead_entry = record { session = to_record ahead; attachments = [] }

abbrev ahead_store : MemoryStore
ahead_store = record { inner = (8, ahead_entry) ∷ []; epoch_floors = [] }

-- What is stored of it then.
abbrev stored_entry : SessionEntry
stored_entry = record {
  session = to_record (record ahead { log = fifth ∷ inbound ∷ [] });
  attachments = [];
}

ahead-WellFormed : WellFormed toy_postcard ahead
ahead-WellFormed = record {
  numbered = (tt, (omega arith, tt));
  projected = λ e. cc;
  host_member = λ e. cc;
}

restart-Rising_example :
    Rising (mirror_insert ahead inbound).log
    × (¬ Rising (from_record toy_postcard stored_entry.session).log)
restart-Rising_example =
    restart-Rising toy_postcard 8 ahead inbound fifth [] ahead_store ahead_entry stored_entry refl
      ahead-WellFormed refl (omega arith)
      (unfold has_seq_at partition_point search is_below in refl) (unfold Map.get in refl) refl
      (unfold append update_record Map.get Map.insert to_record in refl)

-- The restarted mirror does not know message 3 again, though it holds it.
restart_run :
    has_seq_at
      (partition_point 3 (from_record toy_postcard stored_entry.session).log)
      3
      (from_record toy_postcard stored_entry.session).log
    ≡ false
unfolding has_seq_at partition_point search is_below from_record to_record
restart_run = refl
