-- ===== src/Manager/Mirror.antt =====
-- `start_directory_sync`, and then the jobs that it has queued.
use nfs_system.Base.{
  ℕ, ◌-◌, ◌*◌, ◌<◌, List, [], ◌∷◌, ◌++◌, some, true, false, length, length-append, length-take, ◌≡◌,
  refl, ap, arith, ◌∙◌, subst, All, All-reorder,
}
use mathlib.Core.List.{Perm}
use mathlib.Core.Logic.{∥∥₁_map}
use nfs_system.Text.{Bytes}
use nfs_system.Net.{Stream, flatten}
use nfs_system.Spec.{max_path}
use nfs_system.Store.{SyncInfo, copy_into, copy_directory}
use nfs_system.Pool.{SyncJob, create_sync_job, max_filename}
use nfs_system.Pool.Threads.{System, Reach, create_thread_pool, total}
use nfs_system.Pool.Threads.Counts.{is_finished}
use nfs_system.Pool.Threads.Drain.{all_finished}
use nfs_system.Client.{Disk, FileServer, relative, handle_list_command}
use nfs_system.Transfer.{Peers, max_buffer_size}
use nfs_system.Transfer.Sent.{AllUp}
use nfs_system.Transfer.Directory.{OfPair, Ready, Mirrored, sync_single_file-Mirrored}
use nfs_system.Manager.{World, Manager, has_empty_field, start_directory_sync}
use nfs_system.Manager.Listing.{IsFilename, visible}
use nfs_system.Manager.Start.{jobs_for, start_directory_sync-Started}

copy_into_short : (n : ℕ) (s : Bytes) → 0 < n → length (copy_into n s) < n
unfolding copy_into
copy_into_short n s h = omega (arith, length-take (n - 1) s)

-- A directory's path and a file's name fit the array for both.
path_short :
    (dir name : Bytes)
    → length (copy_into max_path dir ++ b'/' ∷ copy_into max_filename name) < max_path * 2
path_short dir name = omega (
  arith,
  length-append (copy_into max_path dir) (b'/' ∷ copy_into max_filename name),
  copy_into_short max_path dir (omega arith),
  copy_into_short max_filename name (omega arith),
)

jobs_for-OfPair :
    (info : SyncInfo) (names : List Bytes)
    → All
        (OfPair (copy_into max_path info.source.dir) (copy_into max_path info.target.dir))
        (jobs_for info names)
unfolding create_sync_job copy_directory
jobs_for-OfPair info [] = tt
jobs_for-OfPair info (name ∷ names) = (
  record { in_source = refl; in_target = refl; short = path_short info.target.dir name },
  jobs_for-OfPair info names,
)

-- When no name of the pair is empty, the calls to the source succeed, its directory can be read and
-- holds file names of one line without NUL that fit, its answer to LIST arrives in one piece that
-- fits the buffer, the pool is not shutting down and its queue is empty, all calls of the transfers
-- succeed and each file to be copied is ready (the source has it, with less than 2 ^ 63 bytes, its
-- answer arrives whole, in non-empty segments, the size and its blank in the first one, which fits
-- one `recv`, the fuel is above its size, and the target opens and writes it at a path of one word
-- that fits), `start_directory_sync` queues a job for each regular file of the source's directory
-- whose name does not begin with a dot; and when these jobs are carried out one after the other, in
-- any order, each succeeds, and the target's server, when it receives each transfer's sends in a
-- session of their own, one `send` per segment, ends with each of the files as the source has it,
-- and its other files as they were.
pub start_directory_sync-Mirrored :
    (fuel : ℕ) (peers : Peers) (target : Disk) (a b : FileServer) (answers : SyncJob → Stream)
    (w : World) (m : Manager) (info : SyncInfo) (source : Disk) (names : List Bytes)
    (order : List SyncJob)
    → has_empty_field info ≡ false
    → w.connects info.source ≡ true
    → w.list_sent info.source ≡ true
    → source.entries (relative info.source.dir) ≡ some names
    → All IsFilename names
    → w.answer info.source ≡ flatten (handle_list_command source info.source.dir) ∷ []
    → length (flatten (handle_list_command source info.source.dir)) < max_buffer_size
    → m.pool_shutdown ≡ false
    → m.offered ≡ []
    → AllUp peers
    → All
        (Ready fuel peers source target a answers)
        (jobs_for info (visible source (relative info.source.dir) names))
    → Perm (start_directory_sync w m info).1.offered order
    → ((start_directory_sync w m info).1.offered
        ≡ jobs_for info (visible source (relative info.source.dir) names))
      × ∥ Mirrored fuel peers source target a answers b order ∥₁
start_directory_sync-Mirrored fuel peers target a b answers w m info source names order full c l e h
      answer fits opened none_queued up ready any =
    let found = visible source (relative info.source.dir) names in
    let started =
      start_directory_sync-Started w m info source names full c l e h answer fits opened in
    let queue = started.queues ∙ ap (λ q. q ++ jobs_for info found) none_queued in
    (
      queue,
      ∥∥₁_map {B = Mirrored fuel peers source target a answers b order}
          (subst (λ q. Perm q order) queue any)
          (λ d.
            sync_single_file-Mirrored fuel peers source target a answers
              (copy_into max_path info.source.dir) (copy_into max_path info.target.dir) order b up
              (All-reorder _ d (jobs_for-OfPair info found)) (All-reorder _ d ready)),
    )

-- When no name of the pair is empty, the calls to the source succeed, its directory can be read and
-- holds file names of one line without NUL that fit, its answer to LIST arrives in one piece that
-- fits the buffer, the pool is not shutting down and its queue is empty, all calls of the transfers
-- succeed and each file to be copied is ready (the source has it, with less than 2 ^ 63 bytes, its
-- answer arrives whole, in non-empty segments, the size and its blank in the first one, which fits
-- one `recv`, the fuel is above its size, and the target opens and writes it at a path of one word
-- that fits), `start_directory_sync` queues a job for each regular file of the source's directory
-- whose name does not begin with a dot; and when a pool that has accepted just these jobs has ended,
-- and they are carried out one after the other in the order in which its workers have finished them,
-- each succeeds, and the target's server, when it receives each transfer's sends in a session of
-- their own, one `send` per segment, ends with each of the files as the source has it, and its other
-- files as they were.
pub drained-Mirrored :
    (fuel : ℕ) (peers : Peers) (target : Disk) (a b : FileServer) (answers : SyncJob → Stream)
    (w : World) (m : Manager) (info : SyncInfo) (source : Disk) (names : List Bytes)
    (thread_count buffer_size : ℕ) {s : System}
    → has_empty_field info ≡ false
    → w.connects info.source ≡ true
    → w.list_sent info.source ≡ true
    → source.entries (relative info.source.dir) ≡ some names
    → All IsFilename names
    → w.answer info.source ≡ flatten (handle_list_command source info.source.dir) ∷ []
    → length (flatten (handle_list_command source info.source.dir)) < max_buffer_size
    → m.pool_shutdown ≡ false
    → m.offered ≡ []
    → AllUp peers
    → All
        (Ready fuel peers source target a answers)
        (jobs_for info (visible source (relative info.source.dir) names))
    → 0 < thread_count
    → Reach (create_thread_pool thread_count buffer_size) s
    → total is_finished s.workers ≡ thread_count
    → s.accepted ≡ (start_directory_sync w m info).1.offered
    → ((start_directory_sync w m info).1.offered
        ≡ jobs_for info (visible source (relative info.source.dir) names))
      × ∥ Mirrored fuel peers source target a answers b s.processed ∥₁
drained-Mirrored fuel peers target a b answers w m info source names thread_count buffer_size {s}
      full c l e h answer fits opened none_queued up ready some_workers reached ended accepted =
    start_directory_sync-Mirrored fuel peers target a b answers w m info source names s.processed
      full c l e h answer fits opened none_queued up ready
      (subst (λ q. Perm q s.processed) accepted
        (all_finished thread_count buffer_size some_workers reached ended).2)
