-- ===== src/Workspace/EchoGuard/Echoes.antt =====
-- crates/artel-fs/src/echo_guard.rs: what the guard says after any calls, by the calls alone.
use artel.Common.{
  Bool, true, false, Option, none, some, List, [], ◌∷◌, ◌≡◌, refl, arith, if◌then◌else◌, ◌==◌,
}
use artel.Common.Map
use artel.Common.Map.{get-insert, get-remove}
use artel.Common.Set
use artel.Common.Set.{contains-insert, contains-remove}
use artel.Workspace.EchoGuard.{
  FilePath, Hash, RemoteDeleteMark, fresh, duplicate, EchoGuard, new, mark_remote_write,
  unmark_remote_write, mark_remote_delete, should_skip_removal, release, is_hash, should_skip_local,
  record_local_publish, forget, forget_all_published,
}

-- The calls that change the guard, and the end of a pending entry.
pub data Call : Type 0 where
  remote_write local_publish : FilePath → Hash → Call
  write_failed remote_delete released forgotten : FilePath → Call
  all_forgotten : Call

abbrev pub call : Call → EchoGuard → EchoGuard
call (remote_write p h) g = mark_remote_write p h g
call (local_publish p h) g = record_local_publish p h g
call (write_failed p) g = unmark_remote_write p g
call (remote_delete p) g = (mark_remote_delete p g).1
call (released p) g = release p g
call (forgotten p) g = forget p g
call all_forgotten g = forget_all_published g

-- The guard after a history of calls, the last one first.
abbrev pub after : List Call → EchoGuard
after [] = new
after (c ∷ cs) = call c (after cs)

-- A peer deleted the path, and it was not made again since.
abbrev pub deleted_since : FilePath → List Call → Bool
deleted_since p [] = false
deleted_since p (remote_delete q ∷ cs) = if q == p then true else deleted_since p cs
deleted_since p (remote_write q h ∷ cs) = if q == p then false else deleted_since p cs
deleted_since p (local_publish q h ∷ cs) = if q == p then false else deleted_since p cs
deleted_since p (write_failed q ∷ cs) = deleted_since p cs
deleted_since p (released q ∷ cs) = deleted_since p cs
deleted_since p (forgotten q ∷ cs) = deleted_since p cs
deleted_since p (all_forgotten ∷ cs) = deleted_since p cs

-- A write of a peer to the path is neither released nor taken back.
abbrev pub writing : FilePath → List Call → Bool
writing p [] = false
writing p (remote_write q h ∷ cs) = if q == p then true else writing p cs
writing p (write_failed q ∷ cs) = if q == p then false else writing p cs
writing p (released q ∷ cs) = if q == p then false else writing p cs
writing p (remote_delete q ∷ cs) = writing p cs
writing p (local_publish q h ∷ cs) = writing p cs
writing p (forgotten q ∷ cs) = writing p cs
writing p (all_forgotten ∷ cs) = writing p cs

-- The last content known of the path: nothing once it is gone, taken back, or another document's.
abbrev pub known : FilePath → List Call → Option Hash
known p [] = none
known p (remote_write q h ∷ cs) = if q == p then some h else known p cs
known p (local_publish q h ∷ cs) = if q == p then some h else known p cs
known p (write_failed q ∷ cs) = if q == p then none else known p cs
known p (remote_delete q ∷ cs) = if q == p then none else known p cs
known p (forgotten q ∷ cs) = if q == p then none else known p cs
known p (released q ∷ cs) = known p cs
known p (all_forgotten ∷ cs) = none

-- The watcher's questions, and what a tombstone is told.
abbrev pub answers : FilePath → Hash → EchoGuard → Bool × Bool × RemoteDeleteMark
answers p h g = (should_skip_local p h g, should_skip_removal p g, (mark_remote_delete p g).0)

deleted-after :
    (p : FilePath) (cs : List Call) → Set.contains p (after cs).peer_deleted ≡ deleted_since p cs
unfolding mark_remote_write unmark_remote_write mark_remote_delete release record_local_publish
    forget forget_all_published Set.contains
deleted-after p [] = refl
deleted-after p (remote_write q h ∷ cs) =
    ground (arith, contains-remove q p (after cs).peer_deleted, deleted-after p cs)
deleted-after p (local_publish q h ∷ cs) =
    ground (arith, contains-remove q p (after cs).peer_deleted, deleted-after p cs)
deleted-after p (remote_delete q ∷ cs) =
    ground (arith, contains-insert q p (after cs).peer_deleted, deleted-after p cs)
deleted-after p (write_failed q ∷ cs) = deleted-after p cs
deleted-after p (released q ∷ cs) = deleted-after p cs
deleted-after p (forgotten q ∷ cs) = deleted-after p cs
deleted-after p (all_forgotten ∷ cs) = deleted-after p cs

writing-after : (p : FilePath) (cs : List Call) → Set.contains p (after cs).pending ≡ writing p cs
unfolding mark_remote_write unmark_remote_write mark_remote_delete release record_local_publish
    forget forget_all_published Set.contains
writing-after p [] = refl
writing-after p (remote_write q h ∷ cs) =
    ground (arith, contains-insert q p (after cs).pending, writing-after p cs)
writing-after p (write_failed q ∷ cs) =
    ground (arith, contains-remove q p (after cs).pending, writing-after p cs)
writing-after p (released q ∷ cs) =
    ground (arith, contains-remove q p (after cs).pending, writing-after p cs)
writing-after p (remote_delete q ∷ cs) = writing-after p cs
writing-after p (local_publish q h ∷ cs) = writing-after p cs
writing-after p (forgotten q ∷ cs) = writing-after p cs
writing-after p (all_forgotten ∷ cs) = writing-after p cs

known-after : (p : FilePath) (cs : List Call) → Map.get p (after cs).last_published ≡ known p cs
unfolding mark_remote_write unmark_remote_write mark_remote_delete release record_local_publish
    forget forget_all_published Map.get
known-after p [] = refl
known-after p (remote_write q h ∷ cs) =
    ground (arith, get-insert q p h (after cs).last_published, known-after p cs)
known-after p (local_publish q h ∷ cs) =
    ground (arith, get-insert q p h (after cs).last_published, known-after p cs)
known-after p (write_failed q ∷ cs) =
    ground (arith, get-remove q p (after cs).last_published, known-after p cs)
known-after p (remote_delete q ∷ cs) =
    ground (arith, get-remove q p (after cs).last_published, known-after p cs)
known-after p (forgotten q ∷ cs) =
    ground (arith, get-remove q p (after cs).last_published, known-after p cs)
known-after p (released q ∷ cs) = known-after p cs
known-after p (all_forgotten ∷ cs) = refl

-- After any history of calls on a new guard: a change on disk is skipped exactly when a peer's write
-- to the path is under way, or its content is the last known one; a removal is skipped, and a
-- tombstone told a duplicate, exactly when a peer deleted the path and nothing made it again since.
pub answers-after :
    (p : FilePath) (h : Hash) (cs : List Call)
    → answers p h (after cs) ≡ (
      if writing p cs then true else is_hash h (known p cs),
      deleted_since p cs,
      if deleted_since p cs then duplicate else fresh,
    )
unfolding should_skip_local should_skip_removal mark_remote_delete
answers-after p h cs = rw (writing-after p cs, known-after p cs, deleted-after p cs) refl
