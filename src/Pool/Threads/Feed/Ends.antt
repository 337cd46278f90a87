-- ===== src/Pool/Threads/Feed/Ends.antt =====
-- thread_pool.c: every run of the thread that enqueues and of the workers comes to its end.
use mathlib.Core.List.{Perm}
use native.Mathlib.Decide.{dec_lt}
use nfs_system.Base.{
  ℕ, ◌+◌, ◌<◌, List, [], ◌∷◌, ◌++◌, true, false, some, get_elem?, ◌≡◌, ◌≢◌, ◌⊎◌, inl, inr, refl,
  sym, arith, ap, ◌∙◌, append-nil, subst, length, Bool-cases,
}
use nfs_system.Pool.{SyncJob, Enqueued, enqueue_sync_job, dequeue_sync_job}
use nfs_system.Pool.Threads.{
  ready, Producer, free, blocked, retrying, System, Step, offer_blocked, offer_queued, take_job,
  take_nothing, take_stop, finish_job, call, again, total,
}
use nfs_system.Pool.Threads.Moves.{IsOwn}
use nfs_system.Pool.Threads.Counts.{is_ready, is_busy, is_finished, total_workers, Reach-length}
use nfs_system.Pool.Threads.Wakeups.{Reach-IsAwake, Reach-active, WaitsForRoom}
use nfs_system.Pool.Threads.Shutdown.{down_asleep}
use nfs_system.Pool.Threads.Room.{signal, Reach-buffer_size}
use nfs_system.Pool.Threads.Drain.{find_ready, find_busy, all_finished}
use nfs_system.Pool.Threads.Feed.{
  Feeding, shut_down_of, Feeds, own, calls, closes, Fed, effort, Feeds-effort,
}
use nfs_system.Pool.Threads.Feed.Kept.{in_call, given, IsFed, Fed-IsFed}

-- A step that a worker can take.
data Works (s : System) : Type 0 where
  works : (t : System) (st : Step s t) → IsOwn st → Works s

ready-Works :
    (s : System) (i : ℕ) (jobs : List SyncJob)
    → s.pool.jobs ≡ jobs
    → get_elem? s.workers i ≡ some ready
    → Works s
unfolding dequeue_sync_job
ready-Works s i (job ∷ rest) q w =
    works _ (take_job i job (record (s.pool) { jobs = rest }) w (ground arith) refl) tt
ready-Works s i [] q w = elim (Bool-cases s.pool.shutdown) [
  | inl d ↦ works _ (take_stop i w (ground arith) refl) tt
  | inr u ↦ works _ (take_nothing i w (ground arith) refl) tt
]

some-Works : (s : System) → 0 < total is_ready s.workers + total is_busy s.workers → Works s
some-Works s h = elim (dec_lt 0 (total is_ready s.workers)) [
  | yes r ↦ let (i, w) = find_ready s.workers r in ready-Works s i s.pool.jobs refl w
  | no r ↦
      let (i, job, w) = find_busy s.workers (omega arith) in works _ (finish_job i job w refl) tt
]

-- The test of `enqueue_sync_job` comes to something while the pool is not shut down.
data Tested (s : System) (job : SyncJob) : Type 0 where
  waits : enqueue_sync_job s.pool job ≡ Enqueued.must_wait → Tested s job
  accepts :
      enqueue_sync_job s.pool job
        ≡ Enqueued.queued (record (s.pool) { jobs = s.pool.jobs ++ job ∷ [] })
      → Tested s job

tested : (s : System) (job : SyncJob) → s.pool.shutdown ≡ false → Tested s job
unfolding enqueue_sync_job
tested s job up = elim (dec_lt (length s.pool.jobs) s.pool.buffer_size) [
  | yes room ↦ accepts (ground arith)
  | no full ↦ waits (ground arith)
]

-- The pool has ended: all jobs were accepted in their order, and each was processed as often as it
-- was accepted.
pub record Ended (n : ℕ) (jobs : List SyncJob) (t : System) : Type 0 where
  pub finished_all : total is_finished t.workers ≡ n
  pub queue_empty : t.pool.jobs ≡ []
  pub queued : t.accepted ≡ jobs
  pub processed_all : Perm jobs t.processed

abbrev pub Next : Feeding → Type 0
Next x = (y : Feeding) × Feeds x y

worker_goes_on : (x : Feeding) → Works x.system → Next x
worker_goes_on x (works t st h) = (record { system = t; todo = x.todo }, own st h refl)

-- The thread that is back from its wait tests again.
tests_again :
    (x : Feeding) (job : SyncJob)
    → x.system.producer ≡ retrying job
    → x.system.pool.shutdown ≡ false
    → Next x
tests_again x job e up = elim (tested x.system job up) [
  | waits r ↦ (
    record { system = record (x.system) { producer = blocked job }; todo = x.todo },
    own (offer_blocked job (again e) r refl) tt refl,
  )
  | accepts r ↦
      let (vs, g) = signal x.system.workers in
      (_, own (offer_queued job _ vs (again e) r g refl) tt refl)
]

-- It begins the next call, or shuts the pool down.
goes_further :
    (x : Feeding) (todo : List SyncJob)
    → x.todo ≡ todo
    → x.system.producer ≡ free
    → x.system.pool.shutdown ≡ false
    → Next x
goes_further x [] q e up =
    (record { system = shut_down_of x.system; todo = [] }, closes e up q refl refl)
goes_further x (job ∷ todo) q e up = elim (tested x.system job up) [
  | waits r ↦ (
    record { system = record (x.system) { producer = blocked job }; todo = todo },
    calls job e q (offer_blocked job (call e) r refl) refl,
  )
  | accepts r ↦
      let (vs, g) = signal x.system.workers in
      (_, calls job e q (offer_queued job _ vs (call e) r g refl) refl)
]

module _ (n b : ℕ) (jobs : List SyncJob) (some_workers : 0 < n) (some_room : 0 < b) where
  up_goes_on :
      (x : Feeding) (p : Producer)
      → IsFed n b jobs x
      → x.system.pool.shutdown ≡ false
      → x.system.producer ≡ p
      → Next x
  up_goes_on x free v up e = goes_further x x.todo refl e up
  up_goes_on x (retrying job) v up e = tests_again x job e up
  up_goes_on x (blocked job) v up e =
      let room = subst (λ p. WaitsForRoom p x.system.pool) e ((Reach-IsAwake n b v.reached).room) in
      let some_jobs : x.system.pool.jobs ≢ [] =
        λ q. omega (arith, ap length q, room, Reach-buffer_size n b v.reached) in
      worker_goes_on x
        (some-Works x.system (Reach-active n b {s = x.system} some_workers v.reached some_jobs))

  down_ends :
      (x : Feeding)
      → IsFed n b jobs x
      → x.system.pool.shutdown ≡ true
      → Ended n jobs x.system ⊎ Next x
  down_ends x v d =
      elim (dec_lt 0 (total is_ready x.system.workers + total is_busy x.system.workers)) [
        | yes h ↦ inr (worker_goes_on x (some-Works x.system h))
        | no h ↦
            let (f, g) = v.down d in
            let ended : total is_finished x.system.workers ≡ n = omega (
              arith,
              total_workers x.system.workers,
              Reach-length n b v.reached,
              down_asleep x.system (Reach-IsAwake n b v.reached) d,
            ) in
            let (_, empty, perm) = all_finished n b {s = x.system} some_workers v.reached ended in
            let all_given : x.system.accepted ≡ jobs =
              sym (
                ap (λ l. given x.system ++ l) g
                ∙ append-nil (given x.system)
                ∙ ap (λ p. x.system.accepted ++ in_call p) f
                ∙ append-nil x.system.accepted)
              ∙ v.conserved in
            inl (record {
              finished_all = ended;
              queue_empty = empty;
              queued = all_given;
              processed_all = subst (λ js. Perm js x.system.processed) all_given perm;
            })
      ]

  -- A thread gives any jobs to a new pool with a worker and room for a job, one call of
  -- `enqueue_sync_job` after the other, and then shuts it down; no thread wakes without a signal. Then
  -- in every order of the steps, and in every state on the way, some thread can take a step, until all
  -- workers have ended, the queue is empty, and the jobs were accepted in their order and processed
  -- each as often as it was given; and each step leaves less to do, so that every run gets there.
  pub Fed-ends :
      {x : Feeding}
      → Fed n b jobs x
      → (Ended n jobs x.system ⊎ Next x) × ((y : Feeding) → Feeds x y → effort n y < effort n x)
  Fed-ends {x} r =
      let v = Fed-IsFed n b jobs r in
      (
        elim (Bool-cases x.system.pool.shutdown) [
          | inl d ↦ down_ends x v d
          | inr up ↦ inr (up_goes_on x x.system.producer v up refl)
        ],
        λ y f. Feeds-effort n (Reach-length n b v.reached) f,
      )
