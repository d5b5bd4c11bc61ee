-- ===== src/Examples/Hosting.antt =====
-- Runs of the theorems on hosting, on the invariant, on the storage and on one session.
use artel.Common.{◌≡◌, ◌<◌, refl, true, none, some, [], ◌∷◌, arith}
use artel.Common.Map
use artel.Common.Set
use artel.Protocol.Bytes.{codes}
use artel.Protocol.Capability.{read_write}
use artel.Protocol.Message.{SessionMessage, new, capability, is_capability}
use artel.Session.{
  Session, local, can_write, to_record, is_local, new as session_new, from_record, project_caps,
}
use artel.Session.Caps.{get-project_caps}
use artel.Session.WellFormed.{from_record-to_record, new-WellFormed}
use artel.Store.Memory.{
  MemoryStore, memory_store, update_record, floor_of, raise_epoch_floor, create as store_create,
  epoch_floor, delete, put_tickets, bump_host_epoch,
}
use artel.Registry.State.{Registry, Reply, put_session, request, emit, with_store}
use artel.Registry.Tickets.{ledger_entry}
use artel.Registry.Members.{leave, close}
use artel.Registry.Host.{
  host, host_pass, try_create, create, created, resume, saturating_suc, Hosted,
}
use artel.Registry.Hosting.{host-resumes}
use artel.Registry.Hosting.Again.{host-leave}
use artel.Registry.Invariant.{AllWellFormed}
use artel.Registry.Invariant.Steps.{
  hosts, initially, after, step-AllWellFormed, Reachable-AllWellFormed, Reachable-host_can_write,
}
use artel.Examples.{toy_env, toy_postcard, toy_decode, registry, empty_registry, hosted, host_info}

abbrev first_host : Reply MemoryStore Hosted
first_host =
    host toy_env memory_store host_info (some 7) read_write 0 ((1, 3) ∷ []) 1000 empty_registry

step-AllWellFormed_example : AllWellFormed toy_postcard first_host.1
step-AllWellFormed_example =
    step-AllWellFormed toy_env memory_store empty_registry first_host.1
      (hosts host_info (some 7) read_write 0 ((1, 3) ∷ []) 1000)
      (Reachable-AllWellFormed toy_env memory_store empty_registry empty_registry refl initially)

Reachable-host_can_write_example : can_write (created 7 host_info 0 read_write 0 3 1000) 5 ≡ true
Reachable-host_can_write_example =
    unfold created session_new in
    Reachable-host_can_write toy_env memory_store empty_registry first_host.1 7
      (created 7 host_info 0 read_write 0 3 1000) refl
      (after initially (hosts host_info (some 7) read_write 0 ((1, 3) ∷ []) 1000))
      (unfold host host_pass try_create create epoch_floor floor_of Map.get store_create
          raise_epoch_floor put_session request with_store Map.insert to_record in
        refl)
      refl

host-resumes_example :
    Map.get 7
      (host toy_env memory_store host_info
        (some 7)
        read_write
        0
        ((1, 4) ∷ [])
        1000
        registry).1.sessions
    ≡ some (record hosted {
      host_epoch = 1;
      tickets = ledger_entry 3 read_write 0 1000 ∷ ledger_entry 4 read_write 0 1000 ∷ [];
    })
host-resumes_example =
    unfold saturating_suc in
    host-resumes toy_env memory_store host_info 7 read_write 0 1 4 [] 1000 registry hosted
      (unfold Map.get in refl)
      (unfold host host_pass resume Map.get is_local put_tickets bump_host_epoch update_record
          store_create raise_epoch_floor floor_of Map.insert to_record with_store in
        refl)

-- The first two drawn ids are those of sessions that are here.
abbrev unlucky : Reply MemoryStore Hosted
unlucky =
    host toy_env memory_store host_info none read_write 0 ((7, 1) ∷ (8, 2) ∷ (1, 4) ∷ (2, 5) ∷ [])
      1000 registry

abbrev left_registry : Registry MemoryStore
left_registry = (leave memory_store 7 5 registry).1

abbrev hosted_again : Session
hosted_again = created 7 host_info 1 read_write 0 4 1000

host-leave_example : (0 < hosted_again.host_epoch) × (hosted_again.host ≡ 5)
host-leave_example =
    host-leave toy_env 7 registry hosted host_info read_write 0 1 4 [] 1000 hosted_again
      (unfold Map.get in refl) refl
      (unfold floor_of store_create raise_epoch_floor Map.insert Map.get to_record in omega arith)
      (unfold leave Map.get Set.contains close delete is_local in refl)
      (unfold leave Map.get Set.contains close delete is_local emit request with_store host
          host_pass try_create create epoch_floor floor_of store_create raise_epoch_floor Map.insert
          Map.remove to_record in
        refl)
      (unfold leave Map.get Set.contains close delete is_local emit request with_store host
          host_pass try_create create epoch_floor floor_of store_create raise_epoch_floor Map.insert
          Map.remove to_record put_session in
        refl)

-- A session as `host` makes it, and the first message of its host.
abbrev fresh : Session
fresh = session_new 7 host_info local

abbrev grant_message : SessionMessage
grant_message =
    new 1 1000 host_info capability (codes "capability.grant") (2 ∷ 9 ∷ []) (1 ∷ []) (1 ∷ [])

from_record-to_record_example : from_record toy_postcard (to_record fresh) ≡ fresh
from_record-to_record_example =
    from_record-to_record toy_postcard fresh (unfold session_new in refl)
      (new-WellFormed toy_postcard 7 host_info local)

get-project_caps_example :
    Map.get 9 (project_caps toy_postcard 5 (grant_message ∷ [])) ≡ some read_write
get-project_caps_example =
    get-project_caps toy_postcard 5 9 [] [] grant_message (some read_write)
      (λ e. absurd (omega (arith, e))) (omega arith, tt) (unfold is_capability toy_decode in refl)
      tt
