-- ===== src/Pool/Threads/Feed.antt =====
-- thread_pool.c: a thread that enqueues one job after another and then shuts the pool down, with the
-- workers. None of the threads wakes without a signal.
pub mod Kept
pub mod Ends
use nfs_system.Base.{
  ℕ, ◌+◌, ◌*◌, ◌≤◌, ◌<◌, List, [], ◌∷◌, ◌++◌, Bool, true, false, map, ◌≡◌, refl, sym, arith, ap,
  ◌∙◌, length, length-append,
}
use nfs_system.Pool.{SyncJob, signal_shutdown}
use nfs_system.Pool.Threads.{
  Worker, ready, asleep, finished, busy, Producer, free, blocked, retrying, System, Step,
  offer_rejected, offer_blocked, offer_queued, producer_wakes, take_job, take_nothing, take_stop,
  worker_wakes, finish_job, shut_down, call, again, Signalled, nobody, somebody, Offers,
  create_thread_pool, wake_worker, wake_producer, total,
}
use nfs_system.Pool.Threads.Moves.{IsOwn}
use nfs_system.Pool.Threads.Workers.{total-set}
use nfs_system.Pool.Threads.Order.{queued_lem, taken_lem}
use nfs_system.Pool.Threads.Shutdown.{work}

-- The pool, and the jobs that the thread has still to give.
pub record Feeding : Type 0 where
  pub system : System
  pub todo : List SyncJob

-- The thread's first test in the call for `job`.
abbrev pub IsCall : SyncJob → {s t : System} → Step s t → Type 0
IsCall job (offer_rejected j o r e) = j ≡ job
IsCall job (offer_blocked j o r e) = j ≡ job
IsCall job (offer_queued j p vs o r g e) = j ≡ job
IsCall job (producer_wakes j b e) = ⊥
IsCall job (take_job i j p w r e) = ⊥
IsCall job (take_nothing i w r e) = ⊥
IsCall job (take_stop i w r e) = ⊥
IsCall job (worker_wakes i w e) = ⊥
IsCall job (finish_job i j w e) = ⊥
IsCall job (shut_down e) = ⊥

abbrev pub shut_down_of : System → System
shut_down_of s = record s {
  pool = signal_shutdown s.pool;
  workers = map wake_worker s.workers;
  producer = wake_producer s.producer;
}

pub data Feeds (x y : Feeding) : Type 0 where
  own : (st : Step x.system y.system) → IsOwn st → y.todo ≡ x.todo → Feeds x y
  calls :
      (job : SyncJob)
      → x.system.producer ≡ free
      → x.todo ≡ job ∷ y.todo
      → (st : Step x.system y.system) → IsCall job st
      → Feeds x y
  closes :
      x.system.producer ≡ free
      → x.system.pool.shutdown ≡ false
      → x.todo ≡ []
      → y.todo ≡ []
      → y.system ≡ shut_down_of x.system
      → Feeds x y

pub data Fed (n b : ℕ) (jobs : List SyncJob) : Feeding → Type 0 where
  begins : Fed n b jobs (record { system = create_thread_pool n b; todo = jobs })
  goes_on : {x y : Feeding} → Fed n b jobs x → Feeds x y → Fed n b jobs y

-- What is left to do: a job counts more, the earlier it is on its way.
abbrev pub call_effort : Producer → ℕ
call_effort free = 0
call_effort (blocked job) = 5
call_effort (retrying job) = 6

abbrev pub shutdown_effort : ℕ → Bool → ℕ
shutdown_effort n true = 0
shutdown_effort n false = n + 1

abbrev pub pool_effort : ℕ → System → ℕ
pool_effort n s =
    call_effort s.producer
    + 3 * length s.pool.jobs
    + total work s.workers
    + shutdown_effort n s.pool.shutdown

abbrev pub effort : ℕ → Feeding → ℕ
effort n x = 6 * length x.todo + pool_effort n x.system

Signalled-work : (ws vs : List Worker) → Signalled ws vs → total work vs ≤ total work ws + 1
Signalled-work ws vs (nobody z e) = omega (arith, ap (total work) e)
Signalled-work ws vs (somebody i e f) =
    omega (arith, ap (total work) f, total-set work ws i asleep ready e)

wake-work : (ws : List Worker) → total work (map wake_worker ws) ≤ total work ws + length ws
wake-work [] = omega arith
wake-work (ready ∷ ws) = omega (arith, wake-work ws)
wake-work (asleep ∷ ws) = omega (arith, wake-work ws)
wake-work (finished ∷ ws) = omega (arith, wake-work ws)
wake-work (busy job ∷ ws) = omega (arith, wake-work ws)

wake-effort : (p : Producer) → call_effort (wake_producer p) ≤ call_effort p + 1
wake-effort free = omega arith
wake-effort (blocked job) = omega arith
wake-effort (retrying job) = omega arith

own-effort : (n : ℕ) {s t : System} (st : Step s t) → IsOwn st → pool_effort n t < pool_effort n s
own-effort n (offer_rejected job (again o) r e) h = rw e (omega (arith, ap call_effort o))
own-effort n (offer_blocked job (again o) r e) h = rw e (omega (arith, ap call_effort o))
own-effort n {s} (offer_queued job p vs (again o) r g e) h =
    let (jobs, size, down, up, space) = queued_lem s.pool job p r in
    rw e (
      omega (
        arith,
        ap call_effort o,
        ap length jobs,
        length-append s.pool.jobs (job ∷ []),
        Signalled-work s.workers vs g,
        ap (shutdown_effort n) down,
      ))
own-effort n {s} (take_job i job p w r e) h =
    let (jobs, size, down) = taken_lem s.pool job p r in
    rw e (
      omega (
        arith,
        ap length jobs,
        total-set work s.workers i ready (busy job) w,
        wake-effort s.producer,
        ap (shutdown_effort n) down,
      ))
own-effort n {s} (take_nothing i w r e) h =
    rw e (omega (arith, total-set work s.workers i ready asleep w))
own-effort n {s} (take_stop i w r e) h =
    rw e (omega (arith, total-set work s.workers i ready finished w))
own-effort n {s} (finish_job i job w e) h =
    rw e (omega (arith, total-set work s.workers i (busy job) ready w))
own-effort n (offer_rejected job (call o) r e) h = absurd h
own-effort n (offer_blocked job (call o) r e) h = absurd h
own-effort n (offer_queued job p vs (call o) r g e) h = absurd h
own-effort n (producer_wakes job b e) h = absurd h
own-effort n (worker_wakes i w e) h = absurd h
own-effort n (shut_down e) h = absurd h

call-effort :
    (n : ℕ) (job : SyncJob) {s t : System} (st : Step s t)
    → IsCall job st
    → s.producer ≡ free
    → pool_effort n t < pool_effort n s + 6
call-effort n job (offer_rejected j o r e) h f = rw e (omega (arith, ap call_effort f))
call-effort n job (offer_blocked j o r e) h f = rw e (omega (arith, ap call_effort f))
call-effort n job {s} (offer_queued j p vs o r g e) h f =
    let (jobs, size, down, up, space) = queued_lem s.pool j p r in
    rw e (
      omega (
        arith,
        ap call_effort f,
        ap length jobs,
        length-append s.pool.jobs (j ∷ []),
        Signalled-work s.workers vs g,
        ap (shutdown_effort n) down,
      ))
call-effort n job (producer_wakes j b e) h f = absurd h
call-effort n job (take_job i j p w r e) h f = absurd h
call-effort n job (take_nothing i w r e) h f = absurd h
call-effort n job (take_stop i w r e) h f = absurd h
call-effort n job (worker_wakes i w e) h f = absurd h
call-effort n job (finish_job i j w e) h f = absurd h
call-effort n job (shut_down e) h f = absurd h

-- Each step of the threads leaves less to do.
pub Feeds-effort :
    (n : ℕ) {x y : Feeding} → length x.system.workers ≡ n → Feeds x y → effort n y < effort n x
unfolding signal_shutdown
Feeds-effort n l (own st h e) = omega (arith, own-effort n st h, ap length e)
Feeds-effort n l (calls job f e st h) = omega (arith, call-effort n job st h f, ap length e)
Feeds-effort n {x} l (closes f up e g q) = omega (
  arith,
  ap (pool_effort n) q,
  ap length g,
  ap length e,
  wake-work x.system.workers,
  ap (λ p. call_effort (wake_producer p)) f,
  ap (shutdown_effort n) up,
  l,
)
