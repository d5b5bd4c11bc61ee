-- ===== src/Examples/Bridges.antt =====
-- Runs over the gossip bridge.
use artel.Bridge.Trust.{on_mirror}
use artel.Bridge.Answer.{published}
use artel.Bridge.Inbound.{level}
use artel.Protocol.Message.{new, signature_unsigned}
use artel.Protocol.Ids.{next as next_seq}
use artel.Protocol.Signing.{
  canonical_bytes, canonical_head, kind_tag, verify_message, verify_seq, sign_seq,
  seq_canonical_bytes,
}
use artel.Protocol.Capability.{permits_write}
use artel.Session.{to_record, can_write}
use artel.Registry.Tickets.{ledger_entry}
use artel.Registry.State.{put_session, emit, with_store}
use artel.Registry.Send.{
  send_local, send_built, resolve_authoring, author_remote, sign_seq_for, message_frame_len,
}
use artel.Registry.Mirror.{
  apply_inbound, has_seq_at, partition_point, search, is_below, authentic, accept_inbound,
}
use artel.Examples.{hosted}
use artel.Examples.Mirrors.{signed, inbound}
use artel.Common.{
  ℕ, ◌≡◌, refl, ap, arith, true, false, Option, none, some, [], ◌∷◌, ◌++◌, Result, ok, err,
}
use artel.Common.Map
use artel.Common.Set
use artel.Protocol.Bytes.{Bytes, codes, be_bytes, bytes_eq}
use artel.Protocol.Ids.{PeerId}
use artel.Protocol.Message.{SessionMessage, chat, is_system}
use artel.Protocol.Signing.{
  close, beacon, verify_ctrl, verify_bytes, ctrl_canonical_bytes, ctrl_frame_byte,
}
use artel.Session.{is_local}
use artel.Store.Memory
use artel.Store.Memory.{MemoryStore, memory_store, update_record, raise_epoch_floor}
use artel.Registry.State.{BridgeError, Registry}
use artel.Registry.Join.{advance_host_epoch_watermark}
use artel.Registry.Send.{send, remotely, reserved}
use artel.Bridge.Slots.{
  SessionSlots, SlotReservation, live, reserve, forget, ours, finalize, drop, map_live, live_of,
}
use artel.Bridge.Slots.Stale.{rest, next, reserves, forget-finalize}
use artel.Bridge.Frames.{
  SignedSendPayload, GossipBody, send_request, send_ack, session_closed, epoch_beacon, GossipCodec,
  decode, sign_ack,
}
use artel.Bridge.Wire.{Display}
use artel.Bridge.Inbound.{
  Bridge, host, joiner, to_verdict, joiner_epoch_beacon, set_registry, track_authenticated_peer,
  handle_inbound_frame,
}
use artel.Bridge.Trust.{IsTrusted, handle_inbound_frame-IsTrusted, run_frames, beacon-close}
use artel.Bridge.Answer.{send_request-answered}
use artel.Examples.{toy_env, toy_laws, registry, guest_info}

abbrev hello : SignedSendPayload
hello = record {
  timestamp_ms = 1000;
  kind = chat;
  action = codes "say";
  payload = 1 ∷ [];
  signature = signed (canonical_bytes 7 3 1000 guest_info chat (codes "say") (1 ∷ []));
}

-- What the host makes of it.
abbrev welcome : SessionMessage
welcome = new 2 1000 guest_info chat (codes "say") (1 ∷ []) hello.signature signature_unsigned

-- Of the bodies, it encodes the answer that the message above was accepted.
abbrev toy_body : GossipBody → Bytes
toy_body (send_ack req_id (ok m) sig) = req_id ∷ sig
toy_body _ = []

abbrev toy_unbody : Bytes → Option GossipBody
toy_unbody (req_id ∷ sig) = some (send_ack req_id (ok welcome) sig)
toy_unbody _ = none

abbrev toy_codec : GossipCodec
toy_codec = record {
  body_encode = toy_body;
  body_decode = toy_unbody;
  message_encode = λ m. m.seq ∷ m.payload;
  error_encode = λ _. [];
}

abbrev toy_display : Display
toy_display = record {
  io = λ _. "io";
  detail = λ _. "detail";
  peer = λ _. "peer";
  had = λ _. "had";
  needed = λ _. "needed";
  action = λ _. "action";
}

-- A bridge with a topic for the session that is hosted here, and for the one that is mirrored.
abbrev bridge : Bridge MemoryStore
bridge = record {
  sessions = record { inner = (7, live tt) ∷ (8, live tt) ∷ []; generation = 2 };
  pending_sends = 40 ∷ [];
  alive = true;
  registry = registry;
  tracked_peer_ids = [];
  authenticated_peer_id = 5;
  signing_key = 5;
  watermarks = (8, 2) ∷ [];
  broadcasts = [];
  answered = [];
}

abbrev unheard : Result BridgeError SessionMessage
unheard = err BridgeError.send_timeout

abbrev on_message : SessionMessage → Registry MemoryStore → Registry MemoryStore
on_message = on_mirror toy_env toy_codec toy_display memory_store 8

send_request-answered_example :
    let after =
      handle_inbound_frame toy_env toy_codec toy_display memory_store 7 host
        (send_request 40 guest_info hello)
        9
        2000
        unheard
        bridge in
    let (sent, r) =
      send toy_env memory_store 7 guest_info chat
        (codes "say")
        (1 ∷ [])
        (remotely 1000 hello.signature)
        2000
        unheard
        registry in
    (after.registry ≡ r)
    × ((bytes : Bytes) × (body : GossipBody) × (after.broadcasts
          ≡ published toy_env toy_codec toy_display memory_store 7 sent ++ (7, bytes) ∷ [])
        × (decode toy_codec bytes ≡ ok body)
        × ((j : Bridge MemoryStore)
              (handler : SessionMessage → Registry MemoryStore → Registry MemoryStore)
              (from : PeerId)
            → Set.contains 40 j.pending_sends ≡ true
            → let woken =
                handle_inbound_frame toy_env toy_codec toy_display memory_store 7
                  (joiner handler 5)
                  body
                  from
                  2000
                  unheard
                  j in
              (woken.answered
                ≡ j.answered
                  ++ (40, to_verdict toy_env toy_codec toy_display memory_store sent) ∷ [])
              × (Set.contains 40 woken.pending_sends ≡ false)))
unfolding toy_laws
send_request-answered_example =
    send_request-answered toy_env toy_codec toy_display memory_store toy_laws 7 hosted 40 guest_info
      hello 2000 unheard bridge
      (unfold send send_local send_built resolve_authoring author_remote sign_seq_for reserved
          is_system can_write permits_write Set.contains Map.get next_seq message_frame_len
          Memory.append update_record Memory.create raise_epoch_floor Memory.floor_of Map.insert
          ledger_entry to_record sign_ack verify_message verify_bytes canonical_bytes canonical_head
          kind_tag bytes_eq be_bytes in
        refl)
      (unfold Map.get in refl) refl refl refl (unfold map_live live_of Map.get in refl)

abbrev beacon_sig : Bytes
beacon_sig = 1 ∷ 6 ∷ ctrl_canonical_bytes 8 beacon 4

beacon-close_example :
    let role = joiner on_message 6 in
    let b1 = run_frames toy_env toy_codec toy_display memory_store 8 role [] (
      handle_inbound_frame toy_env toy_codec toy_display memory_store 8 role
        (epoch_beacon 4 beacon_sig)
        6
        2000
        unheard
        bridge) in
    handle_inbound_frame toy_env toy_codec toy_display memory_store 8 role
      (session_closed 3 (1 ∷ 6 ∷ ctrl_canonical_bytes 8 close 3))
      6
      2000
      unheard
      b1
    ≡ b1
beacon-close_example =
    beacon-close toy_env toy_codec toy_display memory_store 8 on_message 6 4 3 beacon_sig
      (1 ∷ 6 ∷ ctrl_canonical_bytes 8 close 3) 6 6 2000 unheard [] bridge refl
      (unfold verify_ctrl verify_bytes bytes_eq ctrl_canonical_bytes ctrl_frame_byte be_bytes in
        refl)
      (unfold advance_host_epoch_watermark Map.get is_local Memory.bump_host_epoch update_record in
        refl)
      (omega arith)

-- A beacon of the mirror's host raises the watermark.
beacon_run :
    (handle_inbound_frame toy_env toy_codec toy_display memory_store 8
      (joiner on_message 6)
      (epoch_beacon 4 beacon_sig)
      6
      2000
      unheard
      bridge).watermarks
    ≡ (8, 4) ∷ []
unfolding level Map.insert handle_inbound_frame joiner_epoch_beacon set_registry
    track_authenticated_peer verify_ctrl verify_bytes bytes_eq ctrl_canonical_bytes ctrl_frame_byte
    be_bytes advance_host_epoch_watermark Map.get is_local Memory.bump_host_epoch update_record
beacon_run = refl

handle_inbound_frame-IsTrusted_example :
    IsTrusted toy_env toy_codec toy_display memory_store 8
      (joiner on_message 6)
      (GossipBody.message inbound)
      6
      bridge
unfolding handle_inbound_frame set_registry track_authenticated_peer apply_inbound has_seq_at
    partition_point search is_below authentic verify_message verify_seq verify_bytes sign_seq
    canonical_bytes canonical_head kind_tag seq_canonical_bytes bytes_eq accept_inbound
    Memory.append update_record Memory.create raise_epoch_floor Memory.floor_of Map.insert Map.get
    to_record reserved is_system put_session emit with_store be_bytes
handle_inbound_frame-IsTrusted_example =
    handle_inbound_frame-IsTrusted toy_env toy_codec toy_display memory_store 8
      (joiner on_message 6) (GossipBody.message inbound) 6 2000 unheard bridge (λ m r. refl)
      λ same. cc (ap (λ (b : Bridge MemoryStore). b.registry.emitted) same)

abbrev slots : SessionSlots ℕ
slots = record { inner = []; generation = 3 }

abbrev stale : SlotReservation
stale = record { session = 7; generation = 2 }

-- The session is reserved anew after it was forgotten.
forget-finalize_example :
    let t = (reserve 7 (forget 7 slots).1).1 in
    (finalize stale 1 t ≡ (false, t)) × (drop stale t ≡ t)
forget-finalize_example =
    forget-finalize stale 1 slots (reserve 7 (forget 7 slots).1).1 (omega arith)
      (next (reserves 7) rest)

newer_run :
    let (r, t) = reserve 7 (forget 7 slots).1 in
    (r ≡ some (record { session = 7; generation = 3 }))
    × ((finalize (record { session = 7; generation = 3 }) 5 t).0 ≡ true)
unfolding reserve forget finalize ours Map.get Map.insert Map.remove
newer_run = (refl, refl)
