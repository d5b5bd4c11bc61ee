-- ===== src/Protocol/Ids.antt =====
-- crates/artel-protocol/src/ids.rs. An id is the number that its bytes spell, big end first, so two
-- ids are equal exactly when their bytes are. The text form of a peer id is in `Hex`.
pub mod Hex
use artel.Common.{ℕ, suc, Option, none, some, if◌then◌else◌, ◌==◌, ◌+◌, ◌-◌, u64_mod}

abbrev pub SessionId : Type 0
SessionId = ℕ

abbrev pub TicketId : Type 0
TicketId = ℕ

abbrev pub PeerId : Type 0
PeerId = ℕ

-- A `u64`, with its range in the statements that need it.
abbrev pub Seq : Type 0
Seq = ℕ

-- `Seq::next`: `checked_add(1)`.
unfoldable pub next : Seq → Option Seq
next v = if v == u64_mod - 1 then none else some (v + 1)
