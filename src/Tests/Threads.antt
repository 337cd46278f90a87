-- ===== src/Tests/Threads.antt =====
-- A pool with one worker that takes one job, is shut down, and ends.
use mathlib.Core.List.{Perm}
use nfs_system.Base.{some, ◌+◌, ◌<◌, [], ◌∷◌, true, false, pos, ◌≡◌, ◌⊎◌, refl, arith}
use nfs_system.Text.{codes}
use nfs_system.Spec.{DirectorySpec}
use nfs_system.Pool.{SyncJob, enqueue_sync_job, dequeue_sync_job, signal_shutdown}
use nfs_system.Pool.Threads.{
  System, ready, finished, busy, free, Step, offer_queued, offer_blocked, blocked, take_job,
  take_stop, finish_job, shut_down, call, nobody, create_thread_pool, Reach, here, next, total,
}
use nfs_system.Pool.Threads.Counts.{is_ready, is_busy, is_finished}
use nfs_system.Pool.Threads.Order.{IsOrdered, Reach-IsOrdered}
use nfs_system.Pool.Threads.Wakeups.{Reach-active}
use nfs_system.Pool.Threads.Shutdown.{measure, shutdown_measure}
use nfs_system.Pool.Threads.Room.{blocked_gets_room}
use nfs_system.Pool.Threads.Closing.{
  Closing, entering, joining, joined, run, move, move_worker, worker_move, is_mutex_free,
  create_move, destroy_move, can_move, started_workers,
}
use nfs_system.Pool.Threads.Closing.Stuck.{missed_broadcast, hanging, create_thread_pool_hangs}
use nfs_system.Pool.Threads.Closing.Locked.{destroy_thread_pool_moves}
use nfs_system.Pool.Threads.Moves.{Moves}
use nfs_system.Pool.Threads.Feed.{Feeding, Feeds, Fed, begins, goes_on, calls, effort}
use nfs_system.Pool.Threads.Feed.Ends.{Ended, Next, Fed-ends}
use nfs_system.Pool.Threads.Drain.{shutdown_drains, all_finished}

abbrev directory : DirectorySpec
directory = record { host = codes "h"; port = pos 80; dir = codes "/a" }

abbrev job : SyncJob
job = record { source = directory; target = directory; filename = codes "f" }

abbrev offered : System
offered = record {
  pool = record { jobs = job ∷ []; buffer_size = 1; shutdown = false };
  workers = ready ∷ [];
  producer = free;
  accepted = job ∷ [];
  taken = [];
  processed = [];
}

abbrev working : System
working = record {
  pool = record { jobs = []; buffer_size = 1; shutdown = false };
  workers = busy job ∷ [];
  producer = free;
  accepted = job ∷ [];
  taken = job ∷ [];
  processed = [];
}

abbrev stopping : System
stopping = record {
  pool = record { jobs = []; buffer_size = 1; shutdown = true };
  workers = busy job ∷ [];
  producer = free;
  accepted = job ∷ [];
  taken = job ∷ [];
  processed = [];
}

abbrev done_job : System
done_job = record stopping { workers = ready ∷ []; processed = job ∷ [] }

abbrev ended : System
ended = record stopping { workers = finished ∷ []; processed = job ∷ [] }

to_offered : Reach (create_thread_pool 1 1) offered
unfolding create_thread_pool enqueue_sync_job
to_offered = next here (offer_queued job _ _ (call refl) refl (nobody refl refl) refl)

to_working : Reach (create_thread_pool 1 1) working
unfolding dequeue_sync_job
to_working = next to_offered (take_job 0 job _ refl refl refl)

to_stopping : Reach (create_thread_pool 1 1) stopping
unfolding signal_shutdown
to_stopping = next to_working (shut_down refl)

last_job : Step stopping done_job
last_job = finish_job 0 job refl refl

to_ended : Reach (create_thread_pool 1 1) ended
unfolding dequeue_sync_job
to_ended = next (next to_stopping last_job) (take_stop 0 refl refl refl)

all_finished_example :
    (ended.pool.shutdown ≡ true) × (ended.pool.jobs ≡ []) × Perm ended.accepted ended.processed
all_finished_example = all_finished 1 1 {s = ended} (omega arith) to_ended refl

Reach-IsOrdered_example : IsOrdered stopping
Reach-IsOrdered_example = Reach-IsOrdered 1 1 to_stopping

Reach-active_example : 0 < total is_ready offered.workers + total is_busy offered.workers
Reach-active_example = Reach-active 1 1 {s = offered} (omega arith) to_offered (λ e. cc)

shutdown_measure_example : (measure done_job < measure stopping) ⊎ (done_job ≡ stopping)
shutdown_measure_example =
    shutdown_measure 1 1 {s = stopping} {t = done_job} to_stopping refl last_job

shutdown_drains_example : (t : System) × Moves stopping t × (total is_finished t.workers ≡ 1)
shutdown_drains_example = shutdown_drains 1 1 {s = stopping} to_stopping refl

abbrev waiting : System
waiting = record offered { producer = blocked job }

to_waiting : Reach (create_thread_pool 1 1) waiting
unfolding enqueue_sync_job
to_waiting = next to_offered (offer_blocked job (call refl) refl refl)

blocked_gets_room_example : (t : System) × Moves waiting t × (t.accepted ≡ job ∷ job ∷ [])
blocked_gets_room_example =
    blocked_gets_room 1 1 {s = waiting} job (omega arith) (omega arith) to_waiting refl

-- Two jobs are to be given, and the second call waits for room.
abbrev feeding : Feeding
feeding = record { system = waiting; todo = [] }

to_feeding : Fed 1 1 (job ∷ job ∷ []) feeding
unfolding create_thread_pool enqueue_sync_job
to_feeding =
    let first : Fed 1 1 (job ∷ job ∷ []) (record { system = offered; todo = job ∷ [] }) =
      goes_on begins (
        calls job refl refl (offer_queued job _ _ (call refl) refl (nobody refl refl) refl) refl) in
    goes_on first (calls job refl refl (offer_blocked job (call refl) refl refl) refl)

Fed-ends_example :
    (Ended 1 (job ∷ job ∷ []) waiting ⊎ Next feeding)
    × ((y : Feeding) → Feeds feeding y → effort 1 y < effort 1 feeding)
Fed-ends_example =
    Fed-ends 1 1 (job ∷ job ∷ []) (omega arith) (omega arith) {x = feeding} to_feeding

create_thread_pool_hangs_example :
    (run create_move (missed_broadcast 2) (started_workers 3) ≡ some (hanging 2))
    × (can_move create_move (hanging 2) ≡ false)
create_thread_pool_hangs_example = create_thread_pool_hangs 2

-- Of two workers one waits before the broadcast.
abbrev in_joins : Closing
in_joins = record { shutdown = true; closer = joining; workers = entering ∷ entering ∷ [] }

to_joins : run destroy_move (1 ∷ 1 ∷ 0 ∷ []) (started_workers 2) ≡ some in_joins
unfolding run move move_worker worker_move is_mutex_free destroy_move
to_joins = refl

destroy_thread_pool_moves_example :
    (can_move destroy_move in_joins ≡ true) ⊎ (in_joins.closer ≡ joined)
destroy_thread_pool_moves_example = destroy_thread_pool_moves 2 (1 ∷ 1 ∷ 0 ∷ []) in_joins to_joins
