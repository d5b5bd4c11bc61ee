-- ===== src/Workspace/EchoGuard.antt =====
-- crates/artel-fs/src/echo_guard.rs (`EchoGuard`): which changes on disk the watcher takes for
-- echoes of what the applier wrote. A path is a number, as is a blake3 hash. A task that
-- `release_after` spawns takes its path from the pending set when its time is up, as `release`.
pub mod Echoes
use artel.Common.{ℕ, Bool, true, false, Option, none, some, List, [], ◌∷◌, if◌then◌else◌, ◌==◌}
use artel.Common.Map
use artel.Common.Map.{Map}
use artel.Common.Set

abbrev pub FilePath : Type 0
FilePath = ℕ

abbrev pub Hash : Type 0
Hash = ℕ

pub data RemoteDeleteMark : Type 0 where
  fresh duplicate : RemoteDeleteMark

pub record EchoGuard : Type 0 where
  pub pending : List FilePath
  pub last_published : Map Hash
  pub peer_deleted : List FilePath

abbrev pub new : EchoGuard
new = record { pending = []; last_published = []; peer_deleted = [] }

unfoldable pub mark_remote_write : FilePath → Hash → EchoGuard → EchoGuard
mark_remote_write path hash g = record {
  pending = Set.insert path g.pending;
  last_published = Map.insert path hash g.last_published;
  peer_deleted = Set.remove path g.peer_deleted;
}

unfoldable pub unmark_remote_write : FilePath → EchoGuard → EchoGuard
unmark_remote_write path g = record g {
  pending = Set.remove path g.pending;
  last_published = Map.remove path g.last_published;
}

unfoldable pub mark_remote_delete : FilePath → EchoGuard → RemoteDeleteMark × EchoGuard
mark_remote_delete path g = (
  if Set.contains path g.peer_deleted then duplicate else fresh,
  record g {
    last_published = Map.remove path g.last_published;
    peer_deleted = Set.insert path g.peer_deleted;
  },
)

unfoldable pub should_skip_removal : FilePath → EchoGuard → Bool
should_skip_removal path g = Set.contains path g.peer_deleted

-- The task of `release_after`, once it runs.
unfoldable pub release : FilePath → EchoGuard → EchoGuard
release path g = record g { pending = Set.remove path g.pending }

unfoldable pub is_hash : Hash → Option Hash → Bool
is_hash hash none = false
is_hash hash (some last) = last == hash

unfoldable pub should_skip_local : FilePath → Hash → EchoGuard → Bool
unfolding is_hash
should_skip_local path hash g =
    if Set.contains path g.pending then true else is_hash hash (Map.get path g.last_published)

unfoldable pub record_local_publish : FilePath → Hash → EchoGuard → EchoGuard
record_local_publish path hash g = record g {
  last_published = Map.insert path hash g.last_published;
  peer_deleted = Set.remove path g.peer_deleted;
}

unfoldable pub forget : FilePath → EchoGuard → EchoGuard
forget path g = record g { last_published = Map.remove path g.last_published }

unfoldable pub forget_all_published : EchoGuard → EchoGuard
forget_all_published g = record g { last_published = [] }
