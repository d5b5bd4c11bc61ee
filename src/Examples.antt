-- ===== src/Examples.antt =====
-- Toy instances of the crates that the daemon calls, and a small registry, for the runs in the modules
-- below this one.
mod Protocol
mod Tickets
mod Sessions
mod Hosting
mod Mirrors
mod Formats
mod Disks
mod Bridges
mod Workspaces
use artel.Common.{
  ℕ, ◌≡◌, refl, Bool, true, false, Option, none, some, List, [], ◌∷◌, ◌++◌, ◌+◌, if◌then◌else◌,
  ◌==◌, length,
}
use artel.Common.Map
use artel.Common.Map.{Map}
use artel.Protocol.Bytes.{Bytes, bytes_eq, bytes_eq_refl, codes}
use artel.Protocol.Capability.{Capability, read, read_write, CapabilityAction, grant, revoke}
use artel.Protocol.Message.{PeerInfo, SessionMessage, new, capability, chat}
use artel.Protocol.Signing.{Ed25519, Ed25519Laws, sign_seq}
use artel.Protocol.Ticket.{TicketCodec, WireEndpointAddr, SessionTicket}
use artel.Session.{Postcard, Session, local, remote, to_record, CapClaim}
use artel.Store.Memory.{MemoryStore, empty, create}
use artel.Registry.State.{Env, Registry}
use artel.Registry.Tickets.{ledger_entry}

-- A signature names its key and repeats the bytes.
abbrev pub toy_ed25519 : Ed25519
toy_ed25519 = record {
  sign = λ k m. 1 ∷ k ∷ m;
  valid_key = λ _. true;
  verify_strict = λ p m sig. bytes_eq sig (1 ∷ p ∷ m);
}

unfoldable pub toy_laws : Ed25519Laws toy_ed25519
unfolding bytes_eq
toy_laws = record {
  public = λ k. k;
  valid_public = λ k. refl;
  verify-sign = λ k m. bytes_eq_refl (1 ∷ k ∷ m);
  sign-ne-unsigned = λ k m. refl;
}

unfoldable pub toy_encode : CapabilityAction → Bytes
toy_encode (grant p read) = 1 ∷ p ∷ []
toy_encode (grant p read_write) = 2 ∷ p ∷ []
toy_encode (revoke p) = 3 ∷ p ∷ []

unfoldable pub toy_decode : Bytes → Option CapabilityAction
toy_decode (v ∷ p ∷ []) =
    if v == 1
    then some (grant p read)
    else if v == 2
    then some (grant p read_write)
    else if v == 3
    then some (revoke p)
    else none
toy_decode _ = none

abbrev pub toy_postcard : Postcard
toy_postcard = record {
  encode_action = toy_encode;
  decode_action = toy_decode;
  serialized_size = λ m. 100 + length m.payload;
  encode_upgrade = λ p secret. p ∷ secret;
  encode_downgrade = λ p. p ∷ [];
  encode_rotate = λ p epoch ticket. p ∷ epoch ∷ ticket;
}

abbrev pub toy_tickets : TicketCodec
toy_tickets = record {
  base32_encode = λ bs. bs;
  base32_decode = λ bs. some bs;
  body_encode = λ t. t.session_id ∷ [];
  body_decode = λ _. none;
}

abbrev pub toy_env : Env
toy_env = record { ed25519 = toy_ed25519; postcard = toy_postcard; tickets = toy_tickets }

abbrev pub host_info : PeerInfo
host_info = record { id = 5; display_name = codes "host" }

abbrev pub guest_info : PeerInfo
guest_info = record { id = 9; display_name = codes "guest" }

-- A session hosted here with a guest who can write, and one ticket.
abbrev pub hosted : Session
hosted = record {
  id = 7;
  host = 5;
  kind = local;
  members = 9 ∷ 5 ∷ [];
  log =
      new 1 1000 host_info capability (codes "capability.grant") (2 ∷ 9 ∷ []) (1 ∷ []) (1 ∷ [])
      ∷ [];
  head = 1;
  host_epoch = 0;
  caps = (5, read_write) ∷ (9, read_write) ∷ [];
  tickets = ledger_entry 3 read_write 0 1000 ∷ [];
  workspace_ticket = none;
}

-- A mirror of another daemon's session.
abbrev pub mirror : Session
mirror = record {
  id = 8;
  host = 6;
  kind = remote;
  members = 5 ∷ 6 ∷ [];
  log = [];
  head = 0;
  host_epoch = 2;
  caps = (6, read_write) ∷ [];
  tickets = [];
  workspace_ticket = none;
}

abbrev pub stored_sessions : MemoryStore
stored_sessions = (create (to_record mirror) (create (to_record hosted) empty).1).1

abbrev pub empty_registry : Registry MemoryStore
empty_registry = record {
  daemon_peer_id = 5;
  daemon_addr = record { peer_id = 5; relay_url = []; direct_addrs = [] };
  sessions = [];
  store = empty;
  bridge = true;
  signing_key = none;
  endpoint = false;
  emitted = [];
  requests = [];
}

abbrev pub registry : Registry MemoryStore
registry = record empty_registry {
  sessions = (7, hosted) ∷ (8, mirror) ∷ [];
  store = stored_sessions;
}

abbrev pub guest_claim : CapClaim
guest_claim = record {
  ticket_id = 3;
  granted_cap = read_write;
  expiry_ms = 0;
  host_epoch = 0;
  cap_sig = [];
}
