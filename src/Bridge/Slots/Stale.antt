-- ===== src/Bridge/Slots/Stale.antt =====
-- crates/artel-daemon/src/gossip_bridge.rs: a reservation that has lost its place.
use artel.Common.{◌+◌, ◌<◌, ◌≡◌, ◌≢◌, refl, false, some, arith, inl, inr, Option-cases, Bool-cases}
use artel.Common.Map
use artel.Common.Map.{get-insert, get-remove, get-insert_self}
use artel.Protocol.Ids.{SessionId}
use artel.Bridge.Slots.{
  reserved, live, SessionSlots, SlotReservation, reserve, forget, ours, finalize, drop,
}

module _ {T : Type 0} where
  -- What other tasks do to the table.
  pub data SlotStep : SessionSlots T → SessionSlots T → Type 0 where
    reserves : {s : SessionSlots T} (id : SessionId) → SlotStep s (reserve id s).1
    forgets : {s : SessionSlots T} (id : SessionId) → SlotStep s (forget id s).1
    finalizes :
        {s : SessionSlots T} (r : SlotReservation) (payload : T)
        → SlotStep s (finalize r payload s).1
    drops : {s : SessionSlots T} (r : SlotReservation) → SlotStep s (drop r s)

  pub data SlotSteps : SessionSlots T → SessionSlots T → Type 0 where
    rest : {s : SessionSlots T} → SlotSteps s s
    next : {s t u : SessionSlots T} → SlotStep s t → SlotSteps t u → SlotSteps s u

  -- No place of the session is held under this reservation, nor will one be.
  pub record IsLost (r : SlotReservation) (s : SessionSlots T) : Type 0 where
    pub drawn : r.generation < s.generation
    pub gone : Map.get r.session s.inner ≢ some (reserved r.generation)

  forget-IsLost :
      (r : SlotReservation) (s : SessionSlots T)
      → r.generation < s.generation
      → IsLost r (forget r.session s).1
  unfolding forget
  forget-IsLost r s low = record {
    drawn = low;
    gone = ground (arith, get-remove r.session r.session s.inner);
  }

  step-IsLost :
      {s t : SessionSlots T} (r : SlotReservation) → SlotStep s t → IsLost r s → IsLost r t
  unfolding reserve forget finalize drop
  step-IsLost r (reserves {s} id) h = elim (Option-cases (Map.get id s.inner)) [
    | inr (slot, e) ↦
        let low = h.drawn in
        let g = h.gone in
        let drawn_on : SessionSlots T = record s { generation = s.generation + 1 } in
        let still : IsLost r drawn_on = record { drawn = omega arith; gone = g } in
        rw (reserve, e) still
    | inl e ↦
        let low = h.drawn in
        let g = h.gone in
        let grown : SessionSlots T = record {
          inner = Map.insert id (reserved s.generation) s.inner;
          generation = s.generation + 1;
        } in
        let still : IsLost r grown = record {
          drawn = omega arith;
          gone = ground (arith, get-insert id r.session (reserved s.generation) s.inner);
        } in
        rw (reserve, e) still
  ]
  step-IsLost r (forgets {s} id) h = record {
    drawn = h.drawn;
    gone = let g = h.gone in ground (arith, get-remove id r.session s.inner);
  }
  step-IsLost r (finalizes {s} q payload) h = elim (Bool-cases (ours q s)) [
    | inr e ↦ rw (finalize, e) h
    | inl e ↦
        let g = h.gone in
        rw (finalize, e)
          (record {
            drawn = h.drawn;
            gone = ground (arith, get-insert q.session r.session (live payload) s.inner);
          })
  ]
  step-IsLost r (drops {s} q) h = elim (Bool-cases (ours q s)) [
    | inr e ↦ rw (drop, e) h
    | inl e ↦
        let g = h.gone in
        rw (drop, e)
          (record {
            drawn = h.drawn;
            gone = ground (arith, get-remove q.session r.session s.inner);
          })
  ]

  steps-IsLost :
      {s t : SessionSlots T} (r : SlotReservation) → SlotSteps s t → IsLost r s → IsLost r t
  steps-IsLost r rest h = h
  steps-IsLost r (next step steps) h = steps-IsLost r steps (step-IsLost r step h)

  lost-ours : (r : SlotReservation) (s : SessionSlots T) → IsLost r s → ours r s ≡ false
  unfolding ours
  lost-ours r s h = let g = h.gone in ground arith

  -- Once the session of a reservation is forgotten, whatever happens to the table after that, a
  -- late `finalize` gives its payload back and changes nothing, and so does the end of the
  -- reservation: the place of a newer reservation, or its topic, stays.
  pub forget-finalize :
      (r : SlotReservation) (payload : T) (s t : SessionSlots T)
      → r.generation < s.generation
      → SlotSteps (forget r.session s).1 t
      → (finalize r payload t ≡ (false, t)) × (drop r t ≡ t)
  unfolding finalize drop
  forget-finalize r payload s t low steps =
      let lost = lost-ours r t (steps-IsLost r steps (forget-IsLost r s low)) in
      rw (finalize, drop, lost) (refl, refl)
