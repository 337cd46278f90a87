-- ===== src/Pool/Queue.antt =====
-- thread_pool.c: the queue of `thread_pool_t` as a linked list on a heap, with its head, its tail
-- and its size. A job is named by its address.
pub mod Chain
pub mod Refine
use nfs_system.Base.{
  ℕ, ◌+◌, ◌-◌, Option, none, some, Bool, true, false, ◌&&◌, not, if◌then◌else◌, leb, ◌==◌,
}
use nfs_system.Pool.{SyncJob}

-- `sync_job_t` with its link.
pub record Cell : Type 0 where
  pub job : SyncJob
  pub next : Option ℕ

abbrev pub Heap : Type 0
Heap = ℕ → Cell

abbrev pub write : Heap → ℕ → Cell → Heap
write h a c b = if a == b then c else h b

pub record JobQueue : Type 0 where
  pub heap : Heap
  pub job_queue_head : Option ℕ
  pub job_queue_tail : Option ℕ
  pub queue_size : ℕ
  pub buffer_size : ℕ
  pub shutdown : Bool

-- `job->next = n`
abbrev pub link : Heap → ℕ → Option ℕ → Heap
link h a n = write h a (record (h a) { next = n })

pub data PushResult : Type 0 where
  rejected must_wait : PushResult
  queued : JobQueue → PushResult

-- `job->next` is NULL since `create_sync_job`.
append_job : JobQueue → ℕ → JobQueue
append_job q job =
    let (heap, head) : Heap × Option ℕ = elim q.job_queue_tail [
      | some tail ↦ (link q.heap tail (some job), q.job_queue_head)
      | none ↦ (q.heap, some job)
    ] in
    record q {
      heap = heap;
      job_queue_head = head;
      job_queue_tail = some job;
      queue_size = q.queue_size + 1;
    }

-- `enqueue_sync_job` up to its return or its wait.
pub push : JobQueue → ℕ → PushResult
push q job =
    if q.shutdown
    then rejected
    else if leb q.buffer_size q.queue_size
    then must_wait
    else queued (append_job q job)

pub data PopResult : Type 0 where
  stopped idle : PopResult
  taken : Option ℕ → JobQueue → PopResult

remove_job : JobQueue → PopResult
remove_job q = elim q.job_queue_head [
  | none ↦ taken none q
  | some job ↦
      let head = (q.heap job).next in
      let tail : Option ℕ = elim head [ none ↦ none | some _ ↦ q.job_queue_tail ] in
      taken (some job) (record q {
        heap = link q.heap job none;
        job_queue_head = head;
        job_queue_tail = tail;
        queue_size = q.queue_size - 1;
      })
]

-- `dequeue_sync_job` up to its return or its wait.
pub pop : JobQueue → PopResult
pop q =
    if q.queue_size == 0 && not q.shutdown
    then idle
    else if q.shutdown && q.queue_size == 0
    then stopped
    else remove_job q
