-- ===== src/Store/Memory/Floors.antt =====
-- crates/artel-daemon/src/store/memory.rs: the epoch floors, which outlive the sessions.
use artel.Common.{
  ℕ, ◌+◌, ◌%◌, ◌≤◌, ◌<◌, ◌≡◌, refl, arith, if◌then◌else◌, ◌==◌, max, u64_mod, Bool-cases, inl, inr,
}
use artel.Common.Map.{get-insert}
use artel.Protocol.Ids.{SessionId}
use artel.Session.{SessionRecord}
use artel.Store.Memory.{
  MemoryStore, floor_of, raise_epoch_floor, create, delete, bump_host_epoch, update_record,
}

floor_of-raise :
    (id j : SessionId) (n : ℕ) (m : MemoryStore)
    → floor_of j (raise_epoch_floor id n m)
      ≡ (if id == j then max (floor_of j m) n else floor_of j m)
floor_of-raise id j n m = elim (Bool-cases (id == j)) [
  | inl same ↦
      let eq : id ≡ j = ground arith in
      unfold floor_of raise_epoch_floor in
      ground (arith, get-insert id j (max (floor_of id m) n) m.epoch_floors)
  | inr other ↦
      unfold floor_of raise_epoch_floor in
      ground (arith, get-insert id j (max (floor_of id m) n) m.epoch_floors)
]

suc-mod : (n : ℕ) → n + 1 < u64_mod → (n + 1) % u64_mod ≡ n + 1
suc-mod n h = omega arith

-- After a record is stored whose epoch is not the greatest u64, the floor of its id is above that
-- epoch, and no lower than before.
pub create-floor_of :
    (rec : SessionRecord) (m : MemoryStore)
    → rec.host_epoch + 1 < u64_mod
    → (rec.host_epoch < floor_of rec.id (create rec m).1)
      × (floor_of rec.id m ≤ floor_of rec.id (create rec m).1)
create-floor_of rec m h =
    let raised = floor_of-raise rec.id rec.id ((rec.host_epoch + 1) % u64_mod) m in
    let next = suc-mod rec.host_epoch h in
    let same : floor_of rec.id (create rec m).1
        ≡ floor_of rec.id (raise_epoch_floor rec.id ((rec.host_epoch + 1) % u64_mod) m) =
      unfold create floor_of in refl in
    (ground arith, ground arith)

update_record-floors :
    (id : SessionId) (change : SessionRecord → SessionRecord) (m : MemoryStore)
    → (update_record id change m).1.epoch_floors ≡ m.epoch_floors
unfolding update_record
update_record-floors id change m = ground arith

pub bump_host_epoch-floor_of :
    (id : SessionId) (epoch : ℕ) (m : MemoryStore)
    → epoch + 1 < u64_mod
    → (epoch < floor_of id (bump_host_epoch id epoch m).1)
      × (floor_of id m ≤ floor_of id (bump_host_epoch id epoch m).1)
bump_host_epoch-floor_of id epoch m h =
    let raised = floor_of-raise id id ((epoch + 1) % u64_mod) m in
    let next = suc-mod epoch h in
    let same : floor_of id (bump_host_epoch id epoch m).1
        ≡ floor_of id (raise_epoch_floor id ((epoch + 1) % u64_mod) m) =
      unfold bump_host_epoch floor_of in
      ground (
        arith,
        update_record-floors id (λ (r : SessionRecord). record r { host_epoch = epoch })
            (raise_epoch_floor id ((epoch + 1) % u64_mod) m),
      ) in
    (ground arith, ground arith)

pub delete-floor_of :
    (id j : SessionId) (m : MemoryStore) → floor_of j (delete id m).1 ≡ floor_of j m
unfolding delete floor_of
delete-floor_of id j m = refl
