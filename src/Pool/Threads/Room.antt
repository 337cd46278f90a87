-- ===== src/Pool/Threads/Room.antt =====
-- thread_pool.c: a thread that waits in `enqueue_sync_job` for room.
use native.Mathlib.Decide.{dec_lt}
use nfs_system.Base.{
  ℕ, zero, suc, ◌≤◌, ◌<◌, List, [], ◌∷◌, ◌++◌, some, false, get_elem?, set, ◌≡◌, ◌≢◌, refl, arith,
  ap, ◌∙◌, subst, length,
}
use nfs_system.Pool.{SyncJob, enqueue_sync_job, dequeue_sync_job, signal_shutdown}
use nfs_system.Pool.Threads.{
  Worker, ready, asleep, finished, busy, blocked, retrying, System, Step, offer_rejected,
  offer_blocked, offer_queued, producer_wakes, take_job, take_nothing, take_stop, worker_wakes,
  finish_job, shut_down, again, free, Signalled, nobody, somebody, Reach, here, next,
  create_thread_pool, wake_producer, total, is_asleep,
}
use nfs_system.Pool.Threads.Counts.{is_ready}
use nfs_system.Pool.Threads.Order.{IsOrdered, Reach-IsOrdered, queued_lem, taken_lem}
use nfs_system.Pool.Threads.Wakeups.{Reach-IsAwake, Reach-active, WaitsForRoom}
use nfs_system.Pool.Threads.Drain.{find_ready, find_busy}
use nfs_system.Pool.Threads.Moves.{IsOwn, Moves, stay, move, Moves-trans}

Step-buffer_size : {s t : System} → Step s t → t.pool.buffer_size ≡ s.pool.buffer_size
unfolding signal_shutdown
Step-buffer_size (offer_rejected job o r e) = rw e
Step-buffer_size (offer_blocked job o r e) = rw e
Step-buffer_size {s} (offer_queued job p vs o r g e) = rw e ((queued_lem s.pool job p r).1)
Step-buffer_size (producer_wakes job b e) = rw e
Step-buffer_size {s} (take_job i job p w r e) = rw e ((taken_lem s.pool job p r).1)
Step-buffer_size (take_nothing i w r e) = rw e
Step-buffer_size (take_stop i w r e) = rw e
Step-buffer_size (worker_wakes i w e) = rw e
Step-buffer_size (finish_job i job w e) = rw e
Step-buffer_size (shut_down e) = rw e

pub Reach-buffer_size :
    (n b : ℕ) {s : System} → Reach (create_thread_pool n b) s → s.pool.buffer_size ≡ b
Reach-buffer_size n b here = unfold create_thread_pool in refl
Reach-buffer_size n b (next r st) = Step-buffer_size st ∙ Reach-buffer_size n b r

find_asleep : (ws : List Worker) → 0 < total is_asleep ws → (i : ℕ) × (get_elem? ws i ≡ some asleep)
find_asleep [] h = absurd (omega arith)
find_asleep (asleep ∷ ws) h = (0, refl)
find_asleep (ready ∷ ws) h = let (i, e) = find_asleep ws (omega arith) in (suc i, e)
find_asleep (finished ∷ ws) h = let (i, e) = find_asleep ws (omega arith) in (suc i, e)
find_asleep (busy job ∷ ws) h = let (i, e) = find_asleep ws (omega arith) in (suc i, e)

-- A signal always has an outcome.
pub signal : (ws : List Worker) → (vs : List Worker) × Signalled ws vs
signal ws = elim (dec_lt 0 (total is_asleep ws)) [
  | yes h ↦ let (i, e) = find_asleep ws h in (set ws i ready, somebody i e refl)
  | no h ↦ (ws, nobody (omega arith) refl)
]

-- The thread's job is accepted, behind those before it, and the thread is back from the call.
pub record Accepts (before : List SyncJob) (job : SyncJob) (t : System) : Type 0 where
  pub queued : t.accepted ≡ before ++ job ∷ []
  pub returned : t.producer ≡ free
  pub up : t.pool.shutdown ≡ false

-- With room in the queue the thread that runs the test again gets its job accepted.
data Accepting (s : System) (before : List SyncJob) (job : SyncJob) : Type 0 where
  accepting :
      (t : System) (st : Step s t) → IsOwn st → Accepts before job t → Accepting s before job

accepts :
    (s : System) (job : SyncJob)
    → s.producer ≡ retrying job
    → s.pool.shutdown ≡ false
    → length s.pool.jobs < s.pool.buffer_size
    → Accepting s s.accepted job
unfolding enqueue_sync_job
accepts s job o up room =
    let (vs, g) = signal s.workers in
    accepting _
      (offer_queued job (record (s.pool) { jobs = s.pool.jobs ++ job ∷ [] }) vs (again o)
        (ground arith) g refl)
      tt (record { queued = refl; returned = refl; up = up })

-- A worker that is about to look at the queue makes room and wakes the thread.
from_ready :
    (s : System) (job : SyncJob) (i : ℕ) (jobs : List SyncJob)
    → s.pool.jobs ≡ jobs
    → jobs ≢ []
    → s.producer ≡ blocked job
    → s.pool.shutdown ≡ false
    → length s.pool.jobs ≤ s.pool.buffer_size
    → get_elem? s.workers i ≡ some ready
    → (t : System) × Moves s t × Accepts s.accepted job t
unfolding dequeue_sync_job
from_ready s job i [] q ne e up fits w = absurd (ne refl)
from_ready s job i (first ∷ rest) q ne e up fits w =
    elim (accepts
      (record s {
        pool = record (s.pool) { jobs = rest };
        workers = set s.workers i (busy first);
        producer = wake_producer s.producer;
        taken = s.taken ++ first ∷ [];
      })
      job (ap wake_producer e) up (omega (arith, ap length q))) [
        | accepting t st own a ↦ (
          t,
          move
              (move stay (take_job i first (record (s.pool) { jobs = rest }) w (ground arith) refl)
                tt)
              st own,
          a,
        )
      ]

get_elem?-set :
    (ws : List Worker) (i : ℕ) (w v : Worker)
    → get_elem? ws i ≡ some w
    → get_elem? (set ws i v) i ≡ some v
get_elem?-set [] i w v e = absurd (ground arith)
get_elem?-set (x ∷ ws) zero w v e = refl
get_elem?-set (x ∷ ws) (suc i) w v e = get_elem?-set ws i w v e

-- From a state in which a thread waits for room, moves of the workers and of that thread lead to one
-- in which its job is accepted.
pub waits-Accepts :
    (n b : ℕ) {s : System} (job : SyncJob)
    → 0 < n
    → 0 < b
    → Reach (create_thread_pool n b) s
    → s.producer ≡ blocked job
    → (t : System) × Moves s t × Accepts s.accepted job t
waits-Accepts n b {s} job some_worker some_room r e = elim (dec_lt 0 (total is_ready s.workers)) [
  | yes h ↦
      let (i, w) = find_ready s.workers h in
      from_ready s job i s.pool.jobs refl jobs e (waits.0) o.bounded w
  | no h ↦
      let (i, last, w) =
        find_busy s.workers (omega (arith, Reach-active n b {s = s} some_worker r jobs)) in
      let (t, q, a) =
        from_ready
          (record s { workers = set s.workers i ready; processed = s.processed ++ last ∷ [] }) job i
          s.pool.jobs refl jobs e (waits.0) o.bounded
          (get_elem?-set s.workers i (busy last) ready w) in
      (t, Moves-trans (move stay (finish_job i last w refl) tt) q, a)
]
  where
    o : IsOrdered s
    o = Reach-IsOrdered n b r

    waits : (s.pool.shutdown ≡ false) × (s.pool.buffer_size ≤ length s.pool.jobs)
    waits = subst (λ p. WaitsForRoom p s.pool) e ((Reach-IsAwake n b r).room)

    jobs : s.pool.jobs ≢ []
    jobs q = omega (arith, ap length q, waits, Reach-buffer_size n b r)

-- In every state that a new pool with at least one worker and room for at least one job can reach, a
-- thread that waits in `enqueue_sync_job` for room is not stuck: moves of the workers and of that
-- thread, in which none wakes without a signal, lead to a state in which its job is accepted, as the
-- next one.
pub blocked_gets_room :
    (n b : ℕ) {s : System} (job : SyncJob)
    → 0 < n
    → 0 < b
    → Reach (create_thread_pool n b) s
    → s.producer ≡ blocked job
    → (t : System) × Moves s t × (t.accepted ≡ s.accepted ++ job ∷ [])
blocked_gets_room n b {s} job some_worker some_room r e =
    let (t, q, a) = waits-Accepts n b {s = s} job some_worker some_room r e in (t, q, a.queued)
