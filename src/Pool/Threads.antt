-- ===== src/Pool/Threads.antt =====
-- thread_pool.c: the workers and the thread that enqueues, as interleaved steps. One step is what a
-- thread does between two points where it may be suspended: a critical section from its lock to its
-- unlock or its wait, or the work on a job. `accepted`, `taken` and `processed` record the jobs in
-- the order in which `enqueue_sync_job` returned 0 for them, `dequeue_sync_job` returned them, and
-- `sync_single_file` was through with them.
pub mod Workers
pub mod Counts
pub mod Order
pub mod Wakeups
pub mod Shutdown
pub mod Moves
pub mod Drain
pub mod Room
pub mod Feed
pub mod Closing
use nfs_system.Base.{
  ℕ, zero, suc, List, [], ◌∷◌, ◌++◌, Option, some, Bool, true, false, get_elem?, set, map, ◌≡◌, ◌⊎◌,
  ◌+◌,
}
use nfs_system.Pool.{
  SyncJob, ThreadPool, Enqueued, Dequeued, enqueue_sync_job, dequeue_sync_job, signal_shutdown,
}

-- Where a worker stands in `worker_thread`: about to test the loop of `dequeue_sync_job`, in its
-- wait, in `sync_single_file`, or past the loop.
pub data Worker : Type 0 where
  ready asleep finished : Worker
  busy : SyncJob → Worker

-- Where the thread that enqueues stands: outside `enqueue_sync_job`, in its wait, or woken from it.
pub data Producer : Type 0 where
  free : Producer
  blocked retrying : SyncJob → Producer

pub record System : Type 0 where
  pub pool : ThreadPool
  pub workers : List Worker
  pub producer : Producer
  pub accepted : List SyncJob
  pub taken : List SyncJob
  pub processed : List SyncJob

-- `pthread_cond_broadcast(&queue_not_empty)`, seen by one worker.
abbrev pub wake_worker : Worker → Worker
wake_worker asleep = ready
wake_worker ready = ready
wake_worker finished = finished
wake_worker (busy job) = busy job

-- A signal on `queue_not_full`: only one thread ever waits for it.
abbrev pub wake_producer : Producer → Producer
wake_producer free = free
wake_producer (blocked job) = retrying job
wake_producer (retrying job) = retrying job

abbrev pub total : (Worker → ℕ) → List Worker → ℕ
total f [] = 0
total f (w ∷ ws) = f w + total f ws

abbrev pub is_asleep : Worker → ℕ
is_asleep ready = 0
is_asleep asleep = 1
is_asleep finished = 0
is_asleep (busy job) = 0

-- `pthread_cond_signal(&queue_not_empty)`: some worker in the wait is woken, if there is one.
pub data Signalled (ws vs : List Worker) : Type 0 where
  nobody : total is_asleep ws ≡ 0 → vs ≡ ws → Signalled ws vs
  somebody : (i : ℕ) → get_elem? ws i ≡ some asleep → vs ≡ set ws i ready → Signalled ws vs

-- The thread runs the test of `enqueue_sync_job` for a job: at the call, or back from the wait.
pub data Offers (p : Producer) (job : SyncJob) : Type 0 where
  call : p ≡ free → Offers p job
  again : p ≡ retrying job → Offers p job

pub data Step (s t : System) : Type 0 where
  offer_rejected :
      (job : SyncJob)
      → Offers s.producer job
      → enqueue_sync_job s.pool job ≡ Enqueued.rejected
      → t ≡ record s { producer = free }
      → Step s t
  offer_blocked :
      (job : SyncJob)
      → Offers s.producer job
      → enqueue_sync_job s.pool job ≡ Enqueued.must_wait
      → t ≡ record s { producer = blocked job }
      → Step s t
  offer_queued :
      (job : SyncJob) (p : ThreadPool) (vs : List Worker)
      → Offers s.producer job
      → enqueue_sync_job s.pool job ≡ Enqueued.queued p
      → Signalled s.workers vs
      → t ≡ record s { pool = p; workers = vs; producer = free; accepted = s.accepted ++ job ∷ [] }
      → Step s t
  producer_wakes :
      (job : SyncJob)
      → s.producer ≡ blocked job
      → t ≡ record s { producer = retrying job }
      → Step s t
  take_job :
      (i : ℕ) (job : SyncJob) (p : ThreadPool)
      → get_elem? s.workers i ≡ some ready
      → dequeue_sync_job s.pool ≡ Dequeued.taken job p
      → t ≡ record s {
        pool = p;
        workers = set s.workers i (busy job);
        producer = wake_producer s.producer;
        taken = s.taken ++ job ∷ [];
      }
      → Step s t
  take_nothing :
      (i : ℕ)
      → get_elem? s.workers i ≡ some ready
      → dequeue_sync_job s.pool ≡ Dequeued.idle
      → t ≡ record s { workers = set s.workers i asleep }
      → Step s t
  take_stop :
      (i : ℕ)
      → get_elem? s.workers i ≡ some ready
      → dequeue_sync_job s.pool ≡ Dequeued.stopped
      → t ≡ record s { workers = set s.workers i finished }
      → Step s t
  worker_wakes :
      (i : ℕ)
      → get_elem? s.workers i ≡ some asleep
      → t ≡ record s { workers = set s.workers i ready }
      → Step s t
  finish_job :
      (i : ℕ) (job : SyncJob)
      → get_elem? s.workers i ≡ some (busy job)
      → t ≡ record s { workers = set s.workers i ready; processed = s.processed ++ job ∷ [] }
      → Step s t
  shut_down :
      t ≡ record s {
        pool = signal_shutdown s.pool;
        workers = map wake_worker s.workers;
        producer = wake_producer s.producer;
      }
      → Step s t

abbrev pub replicate_worker : ℕ → List Worker
replicate_worker zero = []
replicate_worker (suc n) = ready ∷ replicate_worker n

-- `create_thread_pool`, when the last thread has been started.
unfoldable pub create_thread_pool : ℕ → ℕ → System
create_thread_pool thread_count buffer_size = record {
  pool = record { jobs = []; buffer_size = buffer_size; shutdown = false };
  workers = replicate_worker thread_count;
  producer = free;
  accepted = [];
  taken = [];
  processed = [];
}

pub data Reach (s : System) : System → Type 0 where
  here : Reach s s
  next : {t u : System} → Reach s t → Step t u → Reach s u
