-- ===== src/Examples/Sessions.antt =====
-- Runs of the theorems on sending, admission and membership.
use artel.Common.{◌≡◌, refl, true, false, none, some, [], ◌∷◌, ok, err, is_ok}
use artel.Common.Map
use artel.Common.Set
use artel.Protocol.Signing.{
  verify_ticket_cap, sign_ticket_cap, ticket_cap_canonical_bytes, verify_bytes, cap_byte,
}
use artel.Protocol.Bytes.{be_bytes, codes, bytes_eq}
use artel.Protocol.Capability.{read_write, permits_write, capability_eq}
use artel.Protocol.Ids.{next}
use artel.Protocol.Message.{SessionMessage, new, capability, chat, signature_unsigned, is_system}
use artel.Protocol.Ticket.{is_active}
use artel.Session.{to_record, can_write, CapClaim, ticket_admissible, entry_admits, is_local}
use artel.Common.{any, Memᴰ, ◌⊎◌, ◌<◌}
use artel.Protocol.Ticket.{TicketEntry}
use artel.Store.Memory.{
  put_tickets, delete, create, append, remove_member as store_remove, MemoryStore, memory_store,
  update_record, floor_of, raise_epoch_floor,
}
use artel.Registry.State.{Registry, BridgeError, ticket_not_admissible}
use artel.Registry.Send.{
  here, send, send_local, send_built, resolve_authoring, author_local, sign_seq_for, reserved,
  message_frame_len,
}
use artel.Registry.Send.Accepted.{Sequenced, Built, send-ok, send-refused}
use artel.Registry.Send.Denied.{send-revoked}
use artel.Registry.Access.{IsEntryFor, ensure_member-revoke_ticket, ensure_member-ok}
use artel.Registry.Tickets.{find_status, put_ledger, revoke_ticket, ledger_entry}
use artel.Registry.Members.{
  ensure_member, check_claim, check_claim?, admissible?, after_admission, remove_member,
  drop_member, close, leave,
}
use artel.Registry.Membership.{leave-closes}
use artel.Examples.{
  toy_env, toy_ed25519, toy_decode, registry, hosted, host_info, guest_info, guest_claim,
}

-- The guest's next message.
abbrev sent_message : SessionMessage
sent_message =
    new 2 2000 guest_info chat (codes "say") (1 ∷ 2 ∷ []) signature_unsigned signature_unsigned

send_run :
    (send toy_env memory_store 7 guest_info chat
      (codes "say")
      (1 ∷ 2 ∷ [])
      here
      2000
      (err BridgeError.send_timeout)
      registry).0
    ≡ ok sent_message
unfolding send send_local send_built resolve_authoring author_local sign_seq_for reserved is_system
    can_write permits_write Set.contains Map.get next message_frame_len append update_record create
    raise_epoch_floor floor_of Map.insert ledger_entry to_record
send_run = refl

send-ok_example :
    (reserved chat (codes "say") ≡ none)
    × (Set.contains 9 hosted.members ≡ true)
    × Sequenced toy_env memory_store 7 hosted guest_info chat
        (codes "say")
        (1 ∷ 2 ∷ [])
        here
        2000
        sent_message
        registry
    × Built toy_env memory_store 7 hosted sent_message registry
        (send toy_env memory_store 7 guest_info chat
          (codes "say")
          (1 ∷ 2 ∷ [])
          here
          2000
          (err BridgeError.send_timeout)
          registry).1
send-ok_example =
    send-ok toy_env memory_store 7 guest_info chat (codes "say") (1 ∷ 2 ∷ []) here 2000
      (err BridgeError.send_timeout) registry hosted sent_message (unfold Map.get in refl) refl
      send_run

-- The host's revocation of the guest, and what it answers.
abbrev revocation : SessionMessage
revocation =
    new 2 2000 host_info capability (codes "capability.revoke") (3 ∷ 9 ∷ []) signature_unsigned
      signature_unsigned

revoke_run :
    (send toy_env memory_store 7 host_info capability
      (codes "capability.revoke")
      (3 ∷ 9 ∷ [])
      here
      2000
      (err BridgeError.send_timeout)
      registry).0
    ≡ ok revocation
unfolding send send_local send_built resolve_authoring author_local sign_seq_for reserved is_system
    can_write permits_write Set.contains Map.get next message_frame_len append update_record create
    raise_epoch_floor floor_of Map.insert ledger_entry to_record
revoke_run = refl

send-revoked_example :
    is_ok
      (send toy_env memory_store 7 guest_info chat
        (codes "say")
        []
        here
        3000
        (err BridgeError.send_timeout)
        (send toy_env memory_store 7 host_info capability
          (codes "capability.revoke")
          (3 ∷ 9 ∷ [])
          here
          2000
          (err BridgeError.send_timeout)
          registry).1).0
    ≡ false
send-revoked_example =
    send-revoked toy_env memory_store 7 host_info (codes "capability.revoke") (3 ∷ 9 ∷ []) here 2000
      (err BridgeError.send_timeout) registry hosted revocation guest_info chat (codes "say") []
      here 3000 (err BridgeError.send_timeout) (unfold Map.get in refl) refl refl
      (unfold toy_decode in refl) refl revoke_run

-- A stranger sends.
send-refused_example :
    ((send toy_env memory_store 7
        (record { id = 11; display_name = [] })
        chat
        (codes "say")
        []
        here
        2000
        (err BridgeError.send_timeout)
        registry).1.sessions
      ≡ registry.sessions)
    × ((send toy_env memory_store 7
          (record { id = 11; display_name = [] })
          chat
          (codes "say")
          []
          here
          2000
          (err BridgeError.send_timeout)
          registry).1.emitted
        ≡ registry.emitted)
send-refused_example =
    send-refused toy_env memory_store 7 (record { id = 11; display_name = [] }) chat (codes "say")
      [] here 2000 (err BridgeError.send_timeout) registry
      (unfold send reserved is_system Map.get Set.contains in refl)

revoke_ticket_run : (revoke_ticket memory_store 7 3 registry).0 ≡ ok tt
unfolding revoke_ticket find_status ledger_entry Map.get put_ledger put_tickets update_record create
    raise_epoch_floor floor_of Map.insert to_record
revoke_ticket_run = refl

ensure_member-revoke_ticket_example :
    ensure_member toy_env memory_store 7 guest_info
      (some guest_claim)
      2000
      (revoke_ticket memory_store 7 3 registry).1
    ≡ (err ticket_not_admissible, (revoke_ticket memory_store 7 3 registry).1)
ensure_member-revoke_ticket_example =
    ensure_member-revoke_ticket toy_env memory_store 7 guest_info guest_claim 2000 registry hosted
      (unfold Map.get in refl) refl (λ _. unfold find_status in refl, tt)
      (unfold find_status ledger_entry in refl) revoke_ticket_run (unfold check_claim in refl)

-- The same daemon with a signing key, and a claim that it has signed.
abbrev signing_registry : Registry MemoryStore
signing_registry = record registry { signing_key = some 5 }

abbrev signed_claim : CapClaim
signed_claim = record guest_claim { cap_sig = sign_ticket_cap toy_ed25519 5 3 7 read_write 0 0 }

ensure_member_run :
    (ensure_member toy_env memory_store 7 guest_info (some signed_claim) 2000 signing_registry).0
    ≡ ok tt
unfolding ensure_member check_claim? check_claim Map.get admissible? ticket_admissible is_local
    entry_admits is_active capability_eq ledger_entry Set.contains after_admission any
    verify_ticket_cap sign_ticket_cap ticket_cap_canonical_bytes verify_bytes bytes_eq be_bytes
    cap_byte
ensure_member_run = refl

ensure_member-ok_example :
    ((signed_claim.expiry_ms ≡ 0) ⊎ (2000 < signed_claim.expiry_ms))
    × (verify_ticket_cap toy_ed25519 5 3 7 read_write 0 0 signed_claim.cap_sig ≡ ok tt)
    × ((t : TicketEntry) × Memᴰ t hosted.tickets × IsEntryFor signed_claim t)
ensure_member-ok_example =
    ensure_member-ok toy_env memory_store 7 guest_info signed_claim 2000 signing_registry hosted 5
      (unfold Map.get in refl) ensure_member_run refl refl

remove_member_run : (remove_member memory_store 7 9 registry).0 ≡ ok tt
unfolding remove_member Map.get Set.contains drop_member store_remove update_record create
    raise_epoch_floor floor_of Map.insert ledger_entry to_record
remove_member_run = refl

leave_run : (leave memory_store 7 5 registry).0 ≡ ok tt
unfolding leave Map.get Set.contains close delete is_local
leave_run = refl

leave-closes_example :
    Map.get 8 (leave memory_store 7 5 registry).1.sessions ≡ Map.get 8 registry.sessions
leave-closes_example =
    leave-closes memory_store 7 8 5 registry hosted (unfold Map.get in refl)
      (unfold is_local in refl) leave_run

guest_leave_run : (leave memory_store 7 9 registry).0 ≡ ok tt
unfolding leave Map.get Set.contains drop_member is_local store_remove update_record create
    raise_epoch_floor floor_of Map.insert ledger_entry to_record
guest_leave_run = refl
