-- ===== src/Pool/Threads/Drain.antt =====
-- thread_pool.c: the pool after a shutdown, to the end of its workers.
use mathlib.Core.List.{Perm}
use native.Mathlib.Decide.{dec_lt}
use nfs_system.Base.{
  ℕ, zero, suc, ◌+◌, ◌≤◌, ◌<◌, List, [], ◌∷◌, append-nil, some, true, get_elem?, ◌≡◌, inl, inr,
  refl, arith, ap, ◌∙◌, length,
}
use nfs_system.Pool.{SyncJob, dequeue_sync_job}
use nfs_system.Pool.Threads.{
  Worker, ready, asleep, finished, busy, Producer, free, blocked, retrying, System, Step, take_job,
  take_stop, finish_job, Reach, next, create_thread_pool, wake_producer, total,
}
use nfs_system.Pool.Threads.Workers.{total-set, held}
use nfs_system.Pool.Threads.Counts.{is_ready, is_busy, is_finished, total_workers, Reach-length}
use nfs_system.Pool.Threads.Order.{IsOrdered, Reach-IsOrdered}
use nfs_system.Pool.Threads.Wakeups.{IsAwake, Reach-IsAwake}
use nfs_system.Pool.Threads.Moves.{IsOwn, Moves, stay, move, Moves-trans}
use nfs_system.Pool.Threads.Shutdown.{work, pending, measure, down_asleep}

-- In a list of workers with a ready or a busy one there is one to be found.
pub find_ready :
    (ws : List Worker) → 0 < total is_ready ws → (i : ℕ) × (get_elem? ws i ≡ some ready)
find_ready [] h = absurd (omega arith)
find_ready (ready ∷ ws) h = (0, refl)
find_ready (asleep ∷ ws) h = let (i, e) = find_ready ws (omega arith) in (suc i, e)
find_ready (finished ∷ ws) h = let (i, e) = find_ready ws (omega arith) in (suc i, e)
find_ready (busy job ∷ ws) h = let (i, e) = find_ready ws (omega arith) in (suc i, e)

pub find_busy :
    (ws : List Worker)
    → 0 < total is_busy ws
    → (i : ℕ) × (job : SyncJob) × (get_elem? ws i ≡ some (busy job))
find_busy [] h = absurd (omega arith)
find_busy (ready ∷ ws) h = let (i, j, e) = find_busy ws (omega arith) in (suc i, j, e)
find_busy (asleep ∷ ws) h = let (i, j, e) = find_busy ws (omega arith) in (suc i, j, e)
find_busy (finished ∷ ws) h = let (i, j, e) = find_busy ws (omega arith) in (suc i, j, e)
find_busy (busy job ∷ ws) h = (0, job, refl)

held-none : (ws : List Worker) → total is_busy ws ≡ 0 → held ws ≡ []
held-none [] h = refl
held-none (ready ∷ ws) h = held-none ws (omega arith)
held-none (asleep ∷ ws) h = held-none ws (omega arith)
held-none (finished ∷ ws) h = held-none ws (omega arith)
held-none (busy job ∷ ws) h = absurd (omega arith)

-- A step that a worker can take in a pool that is shut down.
data Advances (s : System) : Type 0 where
  advances :
      (t : System)
      → (st : Step s t) → IsOwn st
      → t.pool.shutdown ≡ s.pool.shutdown
      → measure t < measure s
      → Advances s

pending-wake : (p : Producer) → pending (wake_producer p) ≤ pending p + 1
pending-wake free = omega arith
pending-wake (blocked job) = omega arith
pending-wake (retrying job) = omega arith

ready-Advances :
    (s : System) (i : ℕ) (jobs : List SyncJob)
    → s.pool.jobs ≡ jobs
    → s.pool.shutdown ≡ true
    → get_elem? s.workers i ≡ some ready
    → Advances s
unfolding dequeue_sync_job
ready-Advances s i [] q d e =
    advances _ (take_stop i e (ground arith) refl) tt refl
      (omega (arith, total-set work s.workers i ready finished e))
ready-Advances s i (job ∷ rest) q d e =
    advances _ (take_job i job (record (s.pool) { jobs = rest }) e (ground arith) refl) tt refl (
      omega (
        arith,
        ap length q,
        total-set work s.workers i ready (busy job) e,
        pending-wake s.producer,
      ))

busy-Advances :
    (s : System) (i : ℕ) (job : SyncJob) → get_elem? s.workers i ≡ some (busy job) → Advances s
busy-Advances s i job e =
    advances _ (finish_job i job e refl) tt refl
      (omega (arith, total-set work s.workers i (busy job) ready e))

some-Advances :
    (s : System)
    → s.pool.shutdown ≡ true
    → 0 < total is_ready s.workers + total is_busy s.workers
    → Advances s
some-Advances s d h = elim (dec_lt 0 (total is_ready s.workers)) [
  | yes r ↦ let (i, e) = find_ready s.workers r in ready-Advances s i s.pool.jobs refl d e
  | no r ↦ let (i, job, e) = find_busy s.workers (omega arith) in busy-Advances s i job e
]

drain_within :
    (fuel n b : ℕ) (s : System)
    → measure s < fuel
    → Reach (create_thread_pool n b) s
    → s.pool.shutdown ≡ true
    → (t : System) × Moves s t × (total is_finished t.workers ≡ n)
drain_within zero n b s m r d = absurd (omega arith)
drain_within (suc fuel) n b s m r d =
    elim (dec_lt 0 (total is_ready s.workers + total is_busy s.workers)) [
      | yes h ↦ elim (some-Advances s d h) [
        | advances t st own same less ↦
            let (u, q, f) = drain_within fuel n b t (omega arith) (next r st) (same ∙ d) in
            (u, Moves-trans (move stay st own) q, f)
      ]
      | no h ↦ (
        s,
        stay,
        omega (
          arith,
          total_workers s.workers,
          Reach-length n b r,
          down_asleep s (Reach-IsAwake n b r) d,
        ),
      )
    ]

-- From every reachable state in which the pool is shut down, moves of the threads, in which none
-- wakes without a signal, lead to a state in which all of its workers have ended.
pub shutdown_drains :
    (n b : ℕ) {s : System}
    → Reach (create_thread_pool n b) s
    → s.pool.shutdown ≡ true
    → (t : System) × Moves s t × (total is_finished t.workers ≡ n)
shutdown_drains n b {s} r d = drain_within (measure s + 1) n b s (omega arith) r d

-- When the workers of a pool have ended, so that `pthread_join` returns for each, the pool is shut
-- down, its queue is empty, and the processed jobs are the accepted ones up to order: each accepted
-- job has been through `sync_single_file` exactly as often as it was accepted, and no other.
pub all_finished :
    (n b : ℕ) {s : System}
    → 0 < n
    → Reach (create_thread_pool n b) s
    → total is_finished s.workers ≡ n
    → (s.pool.shutdown ≡ true) × (s.pool.jobs ≡ []) × Perm s.accepted s.processed
all_finished n b {s} pos r f = (down.0, down.1, perm)
  where
    v : IsAwake s
    v = Reach-IsAwake n b r

    o : IsOrdered s
    o = Reach-IsOrdered n b r

    down : (s.pool.shutdown ≡ true) × (s.pool.jobs ≡ [])
    down = elim v.ended [ inl none_yet ↦ absurd (omega arith) | inr d ↦ d ]

    idle : total is_busy s.workers ≡ 0
    idle = omega (arith, total_workers s.workers, Reach-length n b r)

    perm : Perm s.accepted s.processed
    perm =
        rw (o.fifo, down.1, append-nil s.taken)
          (rw (held-none s.workers idle, append-nil s.processed) at (o.conserved))
