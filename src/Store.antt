-- ===== src/Store.antt =====
-- crates/artel-daemon/src/store/mod.rs: the operations that a registry asks of its storage. A call
-- takes the state of the storage and gives the new one beside its result, also when it fails.
pub mod Memory
pub mod Fs
use artel.Common.{◌≡◌, refl, ◌⊎◌, inl, inr, ℕ, Bool, Option, List}
use artel.Protocol.Bytes.{Bytes}
use artel.Protocol.Ids.{SessionId, PeerId}
use artel.Protocol.Message.{PeerInfo, SessionMessage}
use artel.Protocol.Ticket.{TicketEntry}
use artel.Session.{SessionRecord}

-- `std::io::ErrorKind`, as far as the code tells it apart.
pub data IoError : Type 0 where
  not_found invalid_data other : IoError

-- `io::Result<A>`
pub data Io {ℓ} (A : Type ℓ) : Type ℓ where
  done : A → Io A
  failed : IoError → Io A

pub Io-cases {ℓ} :
    {A : Type ℓ} (x : Io A) → ((a : A) × (x ≡ done a)) ⊎ ((e : IoError) × (x ≡ failed e))
Io-cases (done a) = inl (a, refl)
Io-cases (failed e) = inr (e, refl)

pub record StoredAttachment : Type 0 where
  pub session : SessionId
  pub kind : Bytes
  pub payload : Bytes

pub record SessionStore (σ : Type 0) : Type 0 where
  pub create : SessionRecord → σ → Io (Unit {0}) × σ
  pub append : SessionId → SessionMessage → σ → Io (Unit {0}) × σ
  pub bump_host_epoch : SessionId → ℕ → σ → Io (Unit {0}) × σ
  pub epoch_floor : SessionId → σ → Io ℕ × σ
  pub put_tickets : SessionId → List TicketEntry → σ → Io (Unit {0}) × σ
  pub put_workspace_ticket : SessionId → Bytes → σ → Io (Unit {0}) × σ
  pub add_member : SessionId → PeerInfo → σ → Io (Unit {0}) × σ
  pub remove_member : SessionId → PeerId → σ → Io (Unit {0}) × σ
  pub delete : SessionId → σ → Io (Unit {0}) × σ
  pub load_all : σ → Io (List SessionRecord) × σ
  pub put_attachment : SessionId → Bytes → Bytes → σ → Io Bool × σ
  pub list_attachments : Option Bytes → σ → Io (List StoredAttachment) × σ
  pub delete_attachment : SessionId → Bytes → σ → Io (Unit {0}) × σ
