-- ===== src/Tests/Mirrors.antt =====
-- A directory of two visible files, listed and copied.
use nfs_system.Base.{List, Bool, true, false, All, [], ◌∷◌, ◌++◌, ◌≡◌, refl, arith, sym}
use nfs_system.Text.{Bytes, codes}
use nfs_system.Text.Words.{is_space}
use nfs_system.Text.Decimal.{print_nat, digits}
use nfs_system.Net.{Stream, flatten, bounded}
use nfs_system.Store.{copy_into, copy_directory}
use nfs_system.Pool.{SyncJob, create_sync_job}
use nfs_system.Pool.{enqueue_sync_job, dequeue_sync_job, signal_shutdown}
use nfs_system.Pool.Threads.{
  System, Reach, here, next, create_thread_pool, Worker, ready, busy, finished, free, call, nobody,
  offer_queued, take_job, finish_job, shut_down, take_stop,
}
use nfs_system.Client.{handle_list_command, handle_pull_command, chunks, is_hidden, relative}
use nfs_system.Client.Commands.{IsPath}
use nfs_system.Transfer.{join_path}
use nfs_system.Transfer.Directory.{Ready, Mirrored}
use nfs_system.Manager.{World, start_directory_sync}
use nfs_system.Manager.Listing.{IsFilename, visible}
use nfs_system.Manager.Start.{jobs_for, start_directory_sync-Started}
use nfs_system.Manager.Mirror.{drained-Mirrored}
use nfs_system.Tests.Server.{disk, empty, with_file}
use nfs_system.Tests.Transfers.{peers, peers-AllUp, header_fits}
use nfs_system.Tests.Managers.{world, idle, info, names, full, short, hidden_name, one_letter}

-- The answer to PULL, with the size and two bytes in the first segment.
abbrev answers : SyncJob → Stream
answers job = (print_nat 5 ++ 32 ∷ codes "he") ∷ codes "llo" ∷ []

pulled :
    (path : Bytes)
    → flatten ((print_nat 5 ++ 32 ∷ codes "he") ∷ codes "llo" ∷ [])
      ≡ flatten (handle_pull_command disk with_file path)
unfolding handle_pull_command chunks print_nat digits bounded
pulled path = refl

named :
    (name : Bytes)
    → IsPath (
        join_path
          (create_sync_job info.source info.target name).target.dir
          (create_sync_job info.source info.target name).filename)
    → Ready 9 peers disk disk with_file answers (create_sync_job info.source info.target name)
named name word = record {
  content = codes "hello";
  first = codes "he";
  rest = codes "llo" ∷ [];
  file = refl;
  small = omega arith;
  arrives = refl;
  whole = pulled (
      join_path (create_sync_job info.source info.target name).source.dir
        (create_sync_job info.source info.target name).filename);
  fits = header_fits (codes "he") (omega arith);
  solid = ((λ e. cc), tt);
  enough = omega arith;
  word = word;
  opens = refl;
  accepts = λ b. refl;
}

f-IsPath : IsPath (
    join_path
      (create_sync_job info.source info.target (codes "f")).target.dir
      (create_sync_job info.source info.target (codes "f")).filename)
unfolding is_space join_path bounded create_sync_job copy_directory copy_into
f-IsPath = record {
  word = ((λ e. cc), (refl, (refl, (refl, (refl, tt)))));
  no_nul = ((λ e. cc), ((λ e. cc), ((λ e. cc), ((λ e. cc), tt))));
  fits = omega arith;
}

h-IsPath : IsPath (
    join_path
      (create_sync_job info.source info.target (codes "h")).target.dir
      (create_sync_job info.source info.target (codes "h")).filename)
unfolding is_space join_path bounded create_sync_job copy_directory copy_into
h-IsPath = record {
  word = ((λ e. cc), (refl, (refl, (refl, (refl, tt)))));
  no_nul = ((λ e. cc), ((λ e. cc), ((λ e. cc), ((λ e. cc), tt))));
  fits = omega arith;
}

jobs-Ready :
    All
      (Ready 9 peers disk disk with_file answers)
      (jobs_for info (visible disk (relative info.source.dir) names))
unfolding is_hidden
jobs-Ready = (named (codes "f") f-IsPath, (named (codes "h") h-IsPath, tt))

abbrev answered : World
answered = world (flatten (handle_list_command disk (codes "/a")) ∷ [])

abbrev job_for : Bytes → SyncJob
job_for name = create_sync_job info.source info.target name

names-IsFilename : All IsFilename names
names-IsFilename =
    (one_letter b'f' (λ e. cc) (λ e. cc), (hidden_name, (one_letter b'h' (λ e. cc) (λ e. cc), tt)))

-- One worker takes two jobs, one after the other, and ends.
abbrev now : List SyncJob → Bool → Worker → List SyncJob → List SyncJob → List SyncJob → System
now jobs stopped worker accepted taken processed = record {
  pool = record { jobs = jobs; buffer_size = 2; shutdown = stopped };
  workers = worker ∷ [];
  producer = free;
  accepted = accepted;
  taken = taken;
  processed = processed;
}

abbrev both : SyncJob → SyncJob → List SyncJob
both j k = j ∷ k ∷ []

abbrev finished_both : SyncJob → SyncJob → System
finished_both j k = now [] true finished (both j k) (both j k) (both j k)

to_finished_both : (j k : SyncJob) → Reach (create_thread_pool 1 2) (finished_both j k)
unfolding create_thread_pool enqueue_sync_job dequeue_sync_job signal_shutdown
to_finished_both j k =
    let one : Reach (create_thread_pool 1 2) (now (j ∷ []) false ready (j ∷ []) [] []) =
      next here (offer_queued j _ _ (call refl) refl (nobody refl refl) refl) in
    let two : Reach (create_thread_pool 1 2) (now (both j k) false ready (both j k) [] []) =
      next one (offer_queued k _ _ (call refl) refl (nobody refl refl) refl) in
    let three : Reach (create_thread_pool 1 2)
        (now (k ∷ []) false (busy j) (both j k) (j ∷ []) []) =
      next two (take_job 0 j _ refl refl refl) in
    let four : Reach (create_thread_pool 1 2)
        (now (k ∷ []) false ready (both j k) (j ∷ []) (j ∷ [])) =
      next three (finish_job 0 j refl refl) in
    let five : Reach (create_thread_pool 1 2)
        (now [] false (busy k) (both j k) (both j k) (j ∷ [])) =
      next four (take_job 0 k _ refl refl refl) in
    let six : Reach (create_thread_pool 1 2) (now [] false ready (both j k) (both j k) (both j k)) =
      next five (finish_job 0 k refl refl) in
    let seven : Reach (create_thread_pool 1 2)
        (now [] true ready (both j k) (both j k) (both j k)) =
      next six (shut_down refl) in
    next seven (take_stop 0 refl refl refl)

queued :
    both (job_for (codes "f")) (job_for (codes "h"))
    ≡ (start_directory_sync answered idle info).1.offered
unfolding is_hidden
queued =
    sym
      (start_directory_sync-Started answered idle info disk names full refl refl refl
        names-IsFilename refl short refl).queues

drained-Mirrored_example :
    ((start_directory_sync answered idle info).1.offered
      ≡ jobs_for info (visible disk (relative info.source.dir) names))
    × ∥ Mirrored 9 peers disk disk with_file answers empty
        (both (job_for (codes "f")) (job_for (codes "h"))) ∥₁
drained-Mirrored_example =
    drained-Mirrored 9 peers disk with_file empty answers answered idle info disk names 1 2
      {s = finished_both (job_for (codes "f")) (job_for (codes "h"))} full refl refl refl
      names-IsFilename refl short refl refl peers-AllUp jobs-Ready (omega arith)
      (to_finished_both (job_for (codes "f")) (job_for (codes "h"))) refl queued
