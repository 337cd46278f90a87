-- ===== src/Pool.antt =====
-- thread_pool.c: the job queue and the worker threads. A job is a value; `Queue` has the pointers.
pub mod Queue
pub mod Threads
pub mod Life
use nfs_system.Base.{
  ℕ, ◌+◌, List, [], ◌∷◌, ◌++◌, Option, none, some, Bool, true, false, if◌then◌else◌, leb, length,
}
use nfs_system.Text.{Bytes}
use nfs_system.Spec.{DirectorySpec}
use nfs_system.Store.{copy_into, copy_directory}

abbrev pub max_filename : ℕ
max_filename = 256

-- `sync_job_t`
pub record SyncJob : Type 0 where
  pub source : DirectorySpec
  pub target : DirectorySpec
  pub filename : Bytes

unfoldable pub create_sync_job : DirectorySpec → DirectorySpec → Bytes → SyncJob
create_sync_job source target filename = record {
  source = copy_directory source;
  target = copy_directory target;
  filename = copy_into max_filename filename;
}

-- `thread_pool_t` without its threads: the queue is the list of its jobs, oldest first, and
-- `queue_size` is its length.
pub record ThreadPool : Type 0 where
  pub jobs : List SyncJob
  pub buffer_size : ℕ
  pub shutdown : Bool

-- What one pass of `enqueue_sync_job` through its loop test comes to: return -1, wait for
-- `queue_not_full`, or return 0.
pub data Enqueued : Type 0 where
  rejected must_wait : Enqueued
  queued : ThreadPool → Enqueued

unfoldable pub enqueue_sync_job : ThreadPool → SyncJob → Enqueued
enqueue_sync_job p job =
    if p.shutdown
    then rejected
    else if leb p.buffer_size (length p.jobs)
    then must_wait
    else queued (record p { jobs = p.jobs ++ job ∷ [] })

-- The same of `dequeue_sync_job`: return NULL, wait for `queue_not_empty`, or return a job.
pub data Dequeued : Type 0 where
  stopped idle : Dequeued
  taken : SyncJob → ThreadPool → Dequeued

unfoldable pub dequeue_sync_job : ThreadPool → Dequeued
dequeue_sync_job p = elim p.jobs [
  | [] ↦ if p.shutdown then stopped else idle
  | job ∷ rest ↦ taken job (record p { jobs = rest })
]

unfoldable pub signal_shutdown : ThreadPool → ThreadPool
signal_shutdown p = record p { shutdown = true }
