-- ===== src/Bridge/Slots.antt =====
-- crates/artel-daemon/src/gossip_bridge.rs: `SessionSlots`, the table of the sessions that have a
-- topic, in which a task reserves a place before it opens the topic.
pub mod Stale
use artel.Common.{
  ℕ, ◌+◌, Bool, true, false, Option, none, some, if◌then◌else◌, ◌==◌, Result, ok, err,
}
use artel.Common.Map
use artel.Common.Map.{Map}
use artel.Protocol.Ids.{SessionId}

pub data Slot (T : Type 0) : Type 0 where
  reserved : ℕ → Slot T
  live : T → Slot T

-- `generation` is the counter NEXT_SLOT_GENERATION.
pub record SessionSlots (T : Type 0) : Type 0 where
  pub inner : Map (Slot T)
  pub generation : ℕ

pub record SlotReservation : Type 0 where
  pub session : SessionId
  pub generation : ℕ

module _ {T : Type 0} where
  -- The generation is drawn also when the place is taken.
  unfoldable pub reserve : SessionId → SessionSlots T → Option SlotReservation × SessionSlots T
  reserve session s =
      let drawn : SessionSlots T = record s { generation = s.generation + 1 } in
      elim (Map.get session s.inner) [
        | some _ ↦ (none, drawn)
        | none ↦ (
          some (record { session = session; generation = s.generation }),
          record drawn { inner = Map.insert session (reserved s.generation) s.inner },
        )
      ]

  unfoldable pub live_of : Slot T → Option T
  live_of (live payload) = some payload
  live_of (reserved _) = none

  unfoldable pub map_live : SessionId → SessionSlots T → Option T
  unfolding live_of
  map_live session s = elim (Map.get session s.inner) [ none ↦ none | some slot ↦ live_of slot ]

  unfoldable pub forget : SessionId → SessionSlots T → Option T × SessionSlots T
  unfolding map_live
  forget session s = (map_live session s, record s { inner = Map.remove session s.inner })

  -- Whether the place is still held under this reservation.
  unfoldable pub ours : SlotReservation → SessionSlots T → Bool
  ours r s = elim (Map.get r.session s.inner) [
    | some (reserved generation) ↦ generation == r.generation
    | _ ↦ false
  ]

  -- `none` gives the payload back to the caller.
  unfoldable pub finalize : SlotReservation → T → SessionSlots T → Bool × SessionSlots T
  unfolding ours
  finalize r payload s =
      if ours r s
      then (true, record s { inner = Map.insert r.session (live payload) s.inner })
      else (false, s)

  -- The end of a reservation that was not finalized.
  unfoldable pub drop : SlotReservation → SessionSlots T → SessionSlots T
  unfolding ours
  drop r s = if ours r s then record s { inner = Map.remove r.session s.inner } else s
