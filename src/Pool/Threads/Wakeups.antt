-- ===== src/Pool/Threads/Wakeups.antt =====
-- thread_pool.c: who sleeps in a wait and who has been woken.
use nfs_system.Base.{
  ℕ, zero, suc, ◌+◌, ◌≤◌, ◌<◌, List, [], ◌∷◌, true, false, ◌≡◌, ◌≢◌, ◌⊎◌, inl, inr, refl, arith, ap,
  ◌∙◌, length, length-append,
}
use nfs_system.Pool.{
  SyncJob, ThreadPool, Enqueued, Dequeued, enqueue_sync_job, dequeue_sync_job, signal_shutdown,
}
use nfs_system.Pool.Threads.{
  Worker, ready, asleep, finished, busy, Producer, free, blocked, retrying, System, Signalled,
  nobody, somebody, Step, offer_rejected, offer_blocked, offer_queued, producer_wakes, take_job,
  take_nothing, take_stop, worker_wakes, finish_job, shut_down, Reach, here, next,
  create_thread_pool, replicate_worker, wake_producer, total, is_asleep,
}
use nfs_system.Pool.Threads.Workers.{total-set}
use nfs_system.Pool.Threads.Counts.{
  is_ready, is_busy, is_finished, asleep-wake, finished-wake, total_workers, Reach-length,
}
use nfs_system.Pool.Threads.Order.{queued_lem, taken_lem}

-- A producer in its wait is there because the queue is full.
abbrev pub WaitsForRoom : Producer → ThreadPool → Type 0
WaitsForRoom free p = Unit {0}
WaitsForRoom (blocked job) p = (p.shutdown ≡ false) × (p.buffer_size ≤ length p.jobs)
WaitsForRoom (retrying job) p = Unit {0}

pub record IsAwake (s : System) : Type 0 where
  -- While a worker sleeps, there are as many that will look at the queue as there are jobs.
  pub served : (total is_asleep s.workers ≡ 0) ⊎ (length s.pool.jobs ≤ total is_ready s.workers)
  pub down_awake : (s.pool.shutdown ≡ false) ⊎ (total is_asleep s.workers ≡ 0)
  pub room : WaitsForRoom s.producer s.pool
  pub ended : (total is_finished s.workers ≡ 0) ⊎ ((s.pool.shutdown ≡ true) × (s.pool.jobs ≡ []))

wake_producer-free : (p : Producer) (q : ThreadPool) → WaitsForRoom (wake_producer p) q
wake_producer-free free q = tt
wake_producer-free (blocked job) q = tt
wake_producer-free (retrying job) q = tt

pub blocked_lem :
    (p : ThreadPool) (job : SyncJob)
    → enqueue_sync_job p job ≡ Enqueued.must_wait
    → (p.shutdown ≡ false) × (p.buffer_size ≤ length p.jobs)
unfolding enqueue_sync_job
blocked_lem p job e = ground arith

pub idle_lem :
    (p : ThreadPool) → dequeue_sync_job p ≡ Dequeued.idle → (p.shutdown ≡ false) × (p.jobs ≡ [])
unfolding dequeue_sync_job
idle_lem p e = ground arith

pub stopped_lem :
    (p : ThreadPool) → dequeue_sync_job p ≡ Dequeued.stopped → (p.shutdown ≡ true) × (p.jobs ≡ [])
unfolding dequeue_sync_job
stopped_lem p e = ground arith

-- A signal wakes a worker unless none sleeps, and changes no other count.
pub data Counted (ws vs : List Worker) : Type 0 where
  counted :
      (total is_finished vs ≡ total is_finished ws)
      → ((total is_asleep vs ≡ 0) × (vs ≡ ws)
          ⊎ (total is_asleep vs + 1 ≡ total is_asleep ws)
            × (total is_ready vs ≡ total is_ready ws + 1))
      → Counted ws vs

Signalled-Counted : (ws vs : List Worker) → Signalled ws vs → Counted ws vs
Signalled-Counted ws vs (nobody n e) =
    counted (ap (total is_finished) e) (inl (ap (total is_asleep) e ∙ n, e))
Signalled-Counted ws vs (somebody i e f) = rw f (
    counted (omega (arith, total-set is_finished ws i asleep ready e)) (
      inr (
        omega (arith, total-set is_asleep ws i asleep ready e),
        omega (arith, total-set is_ready ws i asleep ready e),
      )))

Step-IsAwake : {s t : System} → Step s t → IsAwake s → IsAwake t
Step-IsAwake (offer_rejected job o r e) v =
    rw e (record { served = v.served; down_awake = v.down_awake; room = tt; ended = v.ended })
Step-IsAwake {s} (offer_blocked job o r e) v = rw e (record {
  served = v.served;
  down_awake = v.down_awake;
  room = blocked_lem s.pool job r;
  ended = v.ended;
})
Step-IsAwake {s} (offer_queued job p vs o r g e) v =
    let (jobs, size, down, up, space) = queued_lem s.pool job p r in
    elim (Signalled-Counted s.workers vs g) [
      | counted fin alt ↦ rw e (record {
        served = ground (arith, v.served, jobs, alt, length-append s.pool.jobs (job ∷ []));
        down_awake = inl (down ∙ up);
        room = tt;
        ended = ground (arith, v.ended, up, fin);
      })
    ]
Step-IsAwake (producer_wakes job b e) v =
    rw e (record { served = v.served; down_awake = v.down_awake; room = tt; ended = v.ended })
Step-IsAwake {s} (take_job i job p w r e) v =
    let (jobs, size, down) = taken_lem s.pool job p r in
    rw e (record {
      served = ground (
        arith,
        v.served,
        jobs,
        total-set is_ready s.workers i ready (busy job) w,
        total-set is_asleep s.workers i ready (busy job) w,
      );
      down_awake =
          ground (arith, v.down_awake, down, total-set is_asleep s.workers i ready (busy job) w);
      room = wake_producer-free s.producer p;
      ended = ground (arith, v.ended, jobs, total-set is_finished s.workers i ready (busy job) w);
    })
Step-IsAwake {s} (take_nothing i w r e) v =
    let (down, empty) = idle_lem s.pool r in
    rw e (record {
      served = inr (omega (arith, ap length empty));
      down_awake = inl down;
      room = v.room;
      ended = ground (arith, v.ended, total-set is_finished s.workers i ready asleep w);
    })
Step-IsAwake {s} (take_stop i w r e) v =
    let (down, empty) = stopped_lem s.pool r in
    rw e (record {
      served = inr (omega (arith, ap length empty));
      down_awake =
          ground (arith, v.down_awake, down, total-set is_asleep s.workers i ready finished w);
      room = v.room;
      ended = inr (down, empty);
    })
Step-IsAwake {s} (worker_wakes i w e) v = rw e (record {
  served = ground (
    arith,
    v.served,
    total-set is_ready s.workers i asleep ready w,
    total-set is_asleep s.workers i asleep ready w,
  );
  down_awake = ground (arith, v.down_awake, total-set is_asleep s.workers i asleep ready w);
  room = v.room;
  ended = ground (arith, v.ended, total-set is_finished s.workers i asleep ready w);
})
Step-IsAwake {s} (finish_job i job w e) v = rw e (record {
  served = ground (
    arith,
    v.served,
    total-set is_ready s.workers i (busy job) ready w,
    total-set is_asleep s.workers i (busy job) ready w,
  );
  down_awake = ground (arith, v.down_awake, total-set is_asleep s.workers i (busy job) ready w);
  room = v.room;
  ended = ground (arith, v.ended, total-set is_finished s.workers i (busy job) ready w);
})
Step-IsAwake {s} (shut_down e) v = rw e (
    unfold signal_shutdown in
    record {
      served = inl (asleep-wake s.workers);
      down_awake = inr (asleep-wake s.workers);
      room = wake_producer-free s.producer _;
      ended = ground (arith, v.ended, finished-wake s.workers);
    })

create_thread_pool-IsAwake : (n b : ℕ) → IsAwake (create_thread_pool n b)
unfolding create_thread_pool
create_thread_pool-IsAwake n b = record {
  served = inr (omega arith);
  down_awake = inl refl;
  room = tt;
  ended = inl (none_finished n);
}
  where
    none_finished : (n : ℕ) → total is_finished (replicate_worker n) ≡ 0
    none_finished zero = refl
    none_finished (suc n) = omega (arith, none_finished n)

pub Reach-IsAwake : (n b : ℕ) {s : System} → Reach (create_thread_pool n b) s → IsAwake s
Reach-IsAwake n b here = create_thread_pool-IsAwake n b
Reach-IsAwake n b (next r st) = Step-IsAwake st (Reach-IsAwake n b r)

-- A pool with at least one worker never sleeps over its jobs: while a job is queued, some worker is
-- about to look at the queue or is working, whatever the interleaving.
pub Reach-active :
    (n b : ℕ) {s : System}
    → 0 < n
    → Reach (create_thread_pool n b) s
    → s.pool.jobs ≢ []
    → 0 < total is_ready s.workers + total is_busy s.workers
Reach-active n b {s} pos r ne =
    ground (arith, Reach-IsAwake n b r, Reach-length n b r, total_workers s.workers)
