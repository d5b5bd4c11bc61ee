-- ===== src/Registry/Mirror.antt =====
-- crates/artel-daemon/src/session.rs (`apply_inbound_mirror_message`): how a mirror of a session that
-- another daemon hosts takes in a message of the gossip topic.
pub mod Search
pub mod Held
pub mod Order
pub mod Restart
pub mod Inbound
use artel.Common.{
  ℕ, suc, Bool, true, false, none, some, List, [], ◌∷◌, Result, ok, if◌then◌else◌, ◌==◌, ltb, ◌&&◌,
  insert_at, get_elem?, zero, ◌+◌, ◌-◌, ◌/◌, length,
}
use artel.Protocol.Ids.{SessionId, Seq}
use artel.Protocol.Message.{SessionMessage}
use artel.Protocol.Signing.{Ed25519, verify_message, verify_seq}
use artel.Session.{Session}
use artel.Store.{SessionStore, done, failed}
use artel.Registry.State.{Env, Registry, with_store, put_session, emit, message}
use artel.Registry.Send.{reserved}

-- The predicate of `s.log.partition_point(|m| m.seq < seq)` at a place.
unfoldable pub is_below : Seq → List SessionMessage → ℕ → Bool
is_below seq log i = elim (get_elem? log i) [ none ↦ false | some m ↦ ltb m.seq seq ]

-- The loop of the standard library's binary search: the part of `size` entries from `base` on is
-- halved until one entry is left. Fuel one less than the size is enough (`Search`).
unfoldable pub search : ℕ → Seq → List SessionMessage → ℕ → ℕ → ℕ
search zero seq log size base = base
search (suc fuel) seq log size base =
    let half = size / 2 in
    let base' = if is_below seq log (base + half) then base + half else base in
    let rest = search fuel seq log (size - half) base' in if ltb 1 size then rest else base

-- `partition_point`, also on a log that is not in order.
unfoldable pub partition_point : Seq → List SessionMessage → ℕ
partition_point seq log =
    let base = search (length log) seq log (length log) 0 in
    if is_below seq log base then suc base else base

-- `pos < log.len() && log[pos].seq == seq`
unfoldable pub has_seq_at : ℕ → Seq → List SessionMessage → Bool
has_seq_at pos seq log = elim (get_elem? log pos) [ none ↦ false | some m ↦ m.seq == seq ]

-- `s.log.insert(pos, msg)`, and the head where the number is past it.
unfoldable pub mirror_insert : Session → SessionMessage → Session
mirror_insert s m = record s {
  log = insert_at (partition_point m.seq s.log) m s.log;
  head = if ltb s.head m.seq then m.seq else s.head;
}

-- `verify(…).is_ok()`
abbrev pub verified {ℓ} : {E A : Type ℓ} → Result E A → Bool
verified (ok _) = true
verified _ = false

-- Neither the author's signature nor the host's over the place is skipped.
unfoldable pub authentic : Ed25519 → SessionId → Session → SessionMessage → Bool
authentic ed session s m =
    verified (verify_message ed session m m.signature)
    && verified (verify_seq ed s.host session m.seq m.signature m.host_sig)

module _ {σ : Type 0} (io : SessionStore σ) where
  -- A message that passed the checks: stored, inserted, and told unless its action is reserved.
  unfoldable pub accept_inbound : SessionId → Session → SessionMessage → Registry σ → Registry σ
  accept_inbound session s m r =
      let (appended, st) = io.append session m r.store in
      elim appended [
        | failed _ ↦ with_store st r
        | done _ ↦
            let kept = put_session session (mirror_insert s m) (with_store st r) in
            elim (reserved m.kind m.action) [ some _ ↦ kept | none ↦ emit (message session m) kept ]
      ]

module _ (env : Env) {σ : Type 0} (io : SessionStore σ) where
  -- `apply_inbound_mirror_message`: the duplicate check comes before the signatures.
  unfoldable pub apply_inbound : SessionId → Session → SessionMessage → Registry σ → Registry σ
  apply_inbound session s m r =
      if has_seq_at (partition_point m.seq s.log) m.seq s.log
      then r
      else if authentic env.ed25519 session s m
      then accept_inbound io session s m r
      else r
