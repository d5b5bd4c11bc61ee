-- ===== src/Examples/Formats.antt =====
-- A concrete encoding of the files of the storage on disk, in place of postcard and serde_json.
use artel.Common.{ℕ, zero, suc, ◌≡◌, refl, subst, none, some, Option, List, [], ◌∷◌, ◌++◌, length}
use artel.Protocol.Bytes.{Bytes}
use artel.Protocol.Capability.{Capability, read, read_write}
use artel.Protocol.Message.{MessageKind, chat, tool, system, capability, SessionMessage}
use artel.Protocol.Signing.{cap_byte, kind_tag}
use artel.Protocol.Ticket.{TicketStatus, active, revoked, TicketEntry}
use artel.Session.{SessionKind, local, remote}
use artel.Store.Fs.{Meta, TicketsFile, EpochFloorFile, Formats, FormatLaws}
use artel.Store.Fs.FloorAbove.{some_injective}
use artel.Store.Fs.Log.{read_exact}
use artel.Store.Fs.Log.Parts.{read_exact-append}

unfoldable pub put : Bytes → Bytes → Bytes
put xs rest = length xs ∷ (xs ++ rest)

unfoldable pub get : Bytes → Bytes × Bytes
unfolding read_exact
get [] = ([], [])
get (n ∷ rest) = elim (read_exact n rest) [ none ↦ ([], []) | some parts ↦ parts ]

get-put : (xs rest : Bytes) → get (put xs rest) ≡ (xs, rest)
unfolding get put
get-put xs rest = rw (get, read_exact-append xs rest) refl

abbrev kind_of : ℕ → MessageKind
kind_of zero = chat
kind_of (suc zero) = tool
kind_of (suc (suc zero)) = system
kind_of _ = capability

kind_of-kind_tag : (k : MessageKind) → kind_of (kind_tag k) ≡ k
unfolding kind_tag
kind_of-kind_tag chat = refl
kind_of-kind_tag tool = refl
kind_of-kind_tag system = refl
kind_of-kind_tag capability = refl

abbrev session_tag : SessionKind → ℕ
session_tag local = 0
session_tag remote = 1

abbrev session_kind_of : ℕ → SessionKind
session_kind_of zero = local
session_kind_of _ = remote

session_kind_of-tag : (k : SessionKind) → session_kind_of (session_tag k) ≡ k
session_kind_of-tag local = refl
session_kind_of-tag remote = refl

abbrev cap_of : ℕ → Capability
cap_of zero = read
cap_of _ = read_write

cap_of-byte : (c : Capability) → cap_of (cap_byte c) ≡ c
unfolding cap_byte
cap_of-byte read = refl
cap_of-byte read_write = refl

abbrev status_tag : TicketStatus → ℕ
status_tag active = 0
status_tag revoked = 1

abbrev status_of : ℕ → TicketStatus
status_of zero = active
status_of _ = revoked

status_of-tag : (s : TicketStatus) → status_of (status_tag s) ≡ s
status_of-tag active = refl
status_of-tag revoked = refl

unfoldable pub encode_message : SessionMessage → Bytes
unfolding put kind_tag
encode_message m =
    m.version
    ∷ m.seq
    ∷ m.timestamp_ms
    ∷ m.peer.id
    ∷ kind_tag m.kind
    ∷ put m.peer.display_name (put m.action (put m.payload (put m.signature (put m.host_sig []))))

unfoldable pub decode_message : Bytes → Option SessionMessage
unfolding get
decode_message (version ∷ seq ∷ time ∷ peer ∷ kind ∷ rest) =
    let (name, r1) = get rest in
    let (action, r2) = get r1 in
    let (payload, r3) = get r2 in
    let (signature, r4) = get r3 in
    let (host_sig, _) = get r4 in
    some (record {
      version = version;
      seq = seq;
      timestamp_ms = time;
      peer = record { id = peer; display_name = name };
      kind = kind_of kind;
      action = action;
      payload = payload;
      signature = signature;
      host_sig = host_sig;
    })
decode_message _ = none

unfoldable pub encode_meta : Meta → Bytes
unfolding put
encode_meta m = m.version ∷ m.host ∷ m.head ∷ session_tag m.kind ∷ m.host_epoch ∷ put m.members []

unfoldable pub decode_meta : Bytes → Option Meta
unfolding get
decode_meta (version ∷ host ∷ head ∷ kind ∷ epoch ∷ rest) =
    let (members, _) = get rest in
    some (record {
      version = version;
      host = host;
      members = members;
      head = head;
      kind = session_kind_of kind;
      host_epoch = epoch;
    })
decode_meta _ = none

unfoldable encode_entries : List TicketEntry → Bytes
unfolding put cap_byte
encode_entries [] = []
encode_entries (t ∷ ts) =
    t.ticket_id
    ∷ cap_byte t.granted_cap
    ∷ t.expiry_ms
    ∷ t.issued_at_ms
    ∷ status_tag t.status
    ∷ put t.used_by (encode_entries ts)

unfoldable decode_entries : ℕ → Bytes → List TicketEntry
unfolding get
decode_entries (suc n) (id ∷ cap ∷ expiry ∷ issued ∷ status ∷ rest) =
    let (used, more) = get rest in
    record {
      ticket_id = id;
      granted_cap = cap_of cap;
      expiry_ms = expiry;
      issued_at_ms = issued;
      status = status_of status;
      used_by = used;
    }
    ∷ decode_entries n more
decode_entries _ _ = []

unfoldable pub encode_tickets : TicketsFile → Bytes
unfolding encode_entries
encode_tickets doc = doc.version ∷ length doc.entries ∷ encode_entries doc.entries

unfoldable pub decode_tickets : Bytes → Option TicketsFile
unfolding decode_entries
decode_tickets (version ∷ n ∷ rest) =
    some (record { version = version; entries = decode_entries n rest })
decode_tickets _ = none

abbrev pub decode_floor : Bytes → Option EpochFloorFile
decode_floor (version ∷ floor ∷ []) = some (record { version = version; floor = floor })
decode_floor _ = none

abbrev pub toy_formats : Formats
toy_formats = record {
  message = record { encode = λ m. some (encode_message m); decode = decode_message };
  meta = record { encode = λ m. some (encode_meta m); decode = decode_meta };
  tickets = record { encode = λ d. some (encode_tickets d); decode = decode_tickets };
  epoch_floor = record { encode = λ d. some (d.version ∷ d.floor ∷ []); decode = decode_floor };
}

decode_message-encode : (m : SessionMessage) → decode_message (encode_message m) ≡ some m
unfolding decode_message encode_message
decode_message-encode m =
    rw
      (
        decode_message,
        encode_message,
        get-put m.peer.display_name
            (put m.action (put m.payload (put m.signature (put m.host_sig [])))),
        get-put m.action (put m.payload (put m.signature (put m.host_sig []))),
        get-put m.payload (put m.signature (put m.host_sig [])),
        get-put m.signature (put m.host_sig []),
        get-put m.host_sig [],
        kind_of-kind_tag m.kind,
      )
      refl

decode_meta-encode : (m : Meta) → decode_meta (encode_meta m) ≡ some m
unfolding decode_meta encode_meta
decode_meta-encode m =
    rw (decode_meta, encode_meta, get-put m.members [], session_kind_of-tag m.kind) refl

decode_entries-encode :
    (ts : List TicketEntry) → decode_entries (length ts) (encode_entries ts) ≡ ts
unfolding decode_entries encode_entries
decode_entries-encode [] = refl
decode_entries-encode (t ∷ ts) =
    rw
      (
        decode_entries,
        encode_entries,
        get-put t.used_by (encode_entries ts),
        cap_of-byte t.granted_cap,
        status_of-tag t.status,
        decode_entries-encode ts,
      )
      refl

decode_tickets-encode : (d : TicketsFile) → decode_tickets (encode_tickets d) ≡ some d
unfolding decode_tickets encode_tickets
decode_tickets-encode d = rw (decode_tickets, encode_tickets, decode_entries-encode d.entries) refl

pub toy_formats-FormatLaws : FormatLaws toy_formats
toy_formats-FormatLaws = record {
  message_law = λ m bytes e.
      subst (λ b. decode_message b ≡ some m) (some_injective e) (decode_message-encode m);
  meta_law =
      λ m bytes e. subst (λ b. decode_meta b ≡ some m) (some_injective e) (decode_meta-encode m);
  tickets_law = λ d bytes e.
      subst (λ b. decode_tickets b ≡ some d) (some_injective e) (decode_tickets-encode d);
  epoch_floor_law = λ d bytes e. subst (λ b. decode_floor b ≡ some d) (some_injective e) refl;
  meta_total = λ m. (encode_meta m, refl);
  tickets_total = λ d. (encode_tickets d, refl);
  epoch_floor_total = λ d. (d.version ∷ d.floor ∷ [], refl);
}
