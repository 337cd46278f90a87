-- ===== src/Pool/Threads/Order.antt =====
-- thread_pool.c: the order of the jobs, from their acceptance to their end.
use mathlib.Core.List.{Perm, perm_append_singleton, perm_middle}
use mathlib.Core.List.Perm
use nfs_system.Base.{
  ℕ, zero, suc, ◌≤◌, ◌<◌, List, [], ◌∷◌, ◌++◌, append_assoc, false, set, map, ◌≡◌, refl, arith, ap,
  sym, ◌∙◌, length, length-append,
}
use nfs_system.Pool.{
  SyncJob, ThreadPool, Enqueued, Dequeued, enqueue_sync_job, dequeue_sync_job, signal_shutdown,
}
use nfs_system.Pool.Threads.{
  Worker, ready, asleep, finished, busy, System, Signalled, nobody, somebody, Step, offer_rejected,
  offer_blocked, offer_queued, producer_wakes, take_job, take_nothing, take_stop, worker_wakes,
  finish_job, shut_down, Reach, here, next, create_thread_pool, replicate_worker, wake_worker,
}
use nfs_system.Pool.Threads.Workers.{held, held-set, held-take, held-finish}

-- What a successful pass of `enqueue_sync_job` or `dequeue_sync_job` does.
pub queued_lem :
    (p : ThreadPool) (job : SyncJob) (q : ThreadPool)
    → enqueue_sync_job p job ≡ Enqueued.queued q
    → (q.jobs ≡ p.jobs ++ job ∷ [])
      × (q.buffer_size ≡ p.buffer_size)
      × (q.shutdown ≡ p.shutdown)
      × (p.shutdown ≡ false)
      × (length p.jobs < p.buffer_size)
unfolding enqueue_sync_job
queued_lem p job q e = ground arith

pub taken_lem :
    (p : ThreadPool) (job : SyncJob) (q : ThreadPool)
    → dequeue_sync_job p ≡ Dequeued.taken job q
    → (p.jobs ≡ job ∷ q.jobs) × (q.buffer_size ≡ p.buffer_size) × (q.shutdown ≡ p.shutdown)
unfolding dequeue_sync_job
taken_lem p job q e = ground arith

pub record IsOrdered (s : System) : Type 0 where
  pub fifo : s.accepted ≡ s.taken ++ s.pool.jobs
  pub bounded : length s.pool.jobs ≤ s.pool.buffer_size
  pub conserved : Perm s.taken (s.processed ++ held s.workers)

held-wake : (ws : List Worker) → held (map wake_worker ws) ≡ held ws
held-wake [] = refl
held-wake (ready ∷ ws) = held-wake ws
held-wake (asleep ∷ ws) = held-wake ws
held-wake (finished ∷ ws) = held-wake ws
held-wake (busy job ∷ ws) = ap (◌∷◌ job) (held-wake ws)

held-Signalled : (ws vs : List Worker) → Signalled ws vs → held vs ≡ held ws
held-Signalled ws vs (nobody n e) = ap held e
held-Signalled ws vs (somebody i e f) = ap held f ∙ held-set ws i asleep ready e tt tt

-- Only the workers change, and they hold the same jobs.
workers_moved :
    (s : System) (vs : List Worker)
    → held vs ≡ held s.workers
    → IsOrdered s
    → IsOrdered (record s { workers = vs })
workers_moved s vs h v = record {
  fifo = v.fifo;
  bounded = v.bounded;
  conserved = rw h (v.conserved);
}

-- Behind a job that has moved from one list to the end of another.
perm_front :
    (done rest : List SyncJob) (job : SyncJob)
    → Perm (done ++ job ∷ rest) ((done ++ job ∷ []) ++ rest)
perm_front done rest job = rw (append_assoc done (job ∷ []) rest) (Perm.refl _)

-- Each step keeps the order, the bound of the queue and the jobs.
pub Step-IsOrdered : {s t : System} → Step s t → IsOrdered s → IsOrdered t
Step-IsOrdered (offer_rejected job o r e) v =
    rw e (record { fifo = v.fifo; bounded = v.bounded; conserved = v.conserved })
Step-IsOrdered (offer_blocked job o r e) v =
    rw e (record { fifo = v.fifo; bounded = v.bounded; conserved = v.conserved })
Step-IsOrdered {s} (offer_queued job p vs o r g e) v =
    let (jobs, size, down, up, room) = queued_lem s.pool job p r in
    rw e (record {
      fifo = rw (jobs, v.fifo) (append_assoc s.taken s.pool.jobs (job ∷ []));
      bounded = omega (arith, size, room, ap length jobs, length-append s.pool.jobs (job ∷ []));
      conserved = rw (held-Signalled s.workers vs g) (v.conserved);
    })
Step-IsOrdered (producer_wakes job b e) v =
    rw e (record { fifo = v.fifo; bounded = v.bounded; conserved = v.conserved })
Step-IsOrdered {s} (take_job i job p w r e) v =
    let (jobs, size, down) = taken_lem s.pool job p r in
    rw e (record {
      fifo = v.fifo ∙ rw jobs (sym (append_assoc s.taken (job ∷ []) p.jobs));
      bounded = omega (arith, v.bounded, size, ap length jobs);
      conserved = Perm.trans (perm_append_singleton job s.taken) (
          Perm.trans (Perm.cons job v.conserved) (
            Perm.trans (Perm.symm (perm_middle s.processed (held s.workers)))
              (Perm.append_left s.processed (Perm.symm (held-take s.workers i ready job w tt)))));
    })
Step-IsOrdered {s} (take_nothing i w r e) v =
    rw e (workers_moved s _ (held-set s.workers i ready asleep w tt tt) v)
Step-IsOrdered {s} (take_stop i w r e) v =
    rw e (workers_moved s _ (held-set s.workers i ready finished w tt tt) v)
Step-IsOrdered {s} (worker_wakes i w e) v =
    rw e (workers_moved s _ (held-set s.workers i asleep ready w tt tt) v)
Step-IsOrdered {s} (finish_job i job w e) v = rw e (record {
  fifo = v.fifo;
  bounded = v.bounded;
  conserved = Perm.trans v.conserved (
      Perm.trans (Perm.append_left s.processed (held-finish s.workers i ready job w tt))
        (perm_front s.processed (held (set s.workers i ready)) job));
})
Step-IsOrdered {s} (shut_down e) v = rw e (
    unfold signal_shutdown in
    record {
      fifo = v.fifo;
      bounded = v.bounded;
      conserved = rw (held-wake s.workers) (v.conserved);
    })

held-replicate : (n : ℕ) → held (replicate_worker n) ≡ []
held-replicate zero = refl
held-replicate (suc n) = held-replicate n

create_thread_pool-IsOrdered : (n b : ℕ) → IsOrdered (create_thread_pool n b)
unfolding create_thread_pool
create_thread_pool-IsOrdered n b = record {
  fifo = refl;
  bounded = omega arith;
  conserved = rw (held-replicate n) (Perm.refl []);
}

-- In every state that a new pool can reach, under any interleaving of its threads: the accepted
-- jobs are the taken ones and then the queued ones, in the order of acceptance; the queue is within
-- `buffer_size`; and the taken jobs are, up to order, those processed and those being processed.
pub Reach-IsOrdered : (n b : ℕ) {s : System} → Reach (create_thread_pool n b) s → IsOrdered s
Reach-IsOrdered n b here = create_thread_pool-IsOrdered n b
Reach-IsOrdered n b (next r st) = Step-IsOrdered st (Reach-IsOrdered n b r)
