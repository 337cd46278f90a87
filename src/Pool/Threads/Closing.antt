-- ===== src/Pool/Threads/Closing.antt =====
-- thread_pool.c: the workers of a pool with an empty queue, and the thread that raises the shutdown flag
-- and joins them, in steps smaller than a critical section: `create_thread_pool`, when a thread cannot
-- be started, without the mutex, and `destroy_thread_pool` with it. No wait ends without a signal.
pub mod Stuck
pub mod Locked
use nfs_system.Base.{
  ℕ, zero, suc, List, [], ◌∷◌, Option, none, some, Bool, true, false, ◌&&◌, ◌||◌, if◌then◌else◌,
  get_elem?, set, map,
}

-- Where a worker stands in `dequeue_sync_job`: before the mutex; with the mutex, having found no job
-- and no shutdown; in `pthread_cond_wait`, without the mutex; or returned, to end.
pub data Phase : Type 0 where
  entering tested waiting ended : Phase

-- The thread that shuts down: before it, between the flag and the broadcast, in the joins, or through.
pub data Closer : Type 0 where
  deciding flagged joining joined : Closer

pub record Closing : Type 0 where
  pub shutdown : Bool
  pub closer : Closer
  pub workers : List Phase

abbrev pub holds_mutex : Phase → Bool
holds_mutex tested = true
holds_mutex _ = false

unfoldable pub is_mutex_free : List Phase → Bool
is_mutex_free [] = true
is_mutex_free (w ∷ ws) = if holds_mutex w then false else is_mutex_free ws

abbrev pub has_ended : Phase → Bool
has_ended ended = true
has_ended _ = false

unfoldable pub all_ended : List Phase → Bool
all_ended [] = true
all_ended (w ∷ ws) = has_ended w && all_ended ws

-- `pthread_cond_broadcast`, seen by one worker.
abbrev pub wake : Phase → Phase
wake waiting = entering
wake entering = entering
wake tested = tested
wake ended = ended

-- What a worker does next, by whether the mutex is free and the flag is up; `none` if it cannot move.
unfoldable pub worker_move : Bool → Bool → Phase → Option Phase
worker_move free shutdown entering =
    if free then some (if shutdown then ended else tested) else none
worker_move free shutdown tested = some waiting
worker_move free shutdown waiting = none
worker_move free shutdown ended = none

-- The joins, which end when all workers have.
abbrev pub join_workers : Closing → Option Closing
join_workers s = if all_ended s.workers then some (record s { closer = joined }) else none

-- The closing thread of `create_thread_pool`.
unfoldable pub create_move : Closing → Option Closing
create_move s = elim s.closer [
  | deciding ↦ some (record s { shutdown = true; closer = flagged })
  | flagged ↦ some (record s { closer = joining; workers = map wake s.workers })
  | joining ↦ join_workers s
  | joined ↦ none
]

-- The closing thread of `destroy_thread_pool`: flag and broadcast are one critical section.
unfoldable pub destroy_move : Closing → Option Closing
destroy_move s = elim s.closer [
  | deciding ↦
      if is_mutex_free s.workers
      then some (record { shutdown = true; closer = joining; workers = map wake s.workers })
      else none
  | flagged ↦ none
  | joining ↦ join_workers s
  | joined ↦ none
]

unfoldable pub move_worker : ℕ → Closing → Option Closing
move_worker i s = elim (get_elem? s.workers i) [
  | none ↦ none
  | some w ↦ elim (worker_move (is_mutex_free s.workers) s.shutdown w) [
    | none ↦ none
    | some v ↦ some (record s { workers = set s.workers i v })
  ]
]

abbrev pub is_some : {A : Type 0} → Option A → Bool
is_some none = false
is_some (some a) = true

unfoldable pub any_moves : Bool → Bool → List Phase → Bool
any_moves free shutdown [] = false
any_moves free shutdown (w ∷ ws) =
    is_some (worker_move free shutdown w) || any_moves free shutdown ws

module _ (closer_move : Closing → Option Closing) where
  -- The step of one thread: 0 is the closing thread, and i + 1 the worker i.
  unfoldable pub move : ℕ → Closing → Option Closing
  move zero s = closer_move s
  move (suc i) s = move_worker i s

  -- The threads move in this order.
  unfoldable pub run : List ℕ → Closing → Option Closing
  run [] s = some s
  run (i ∷ is) s = elim (move i s) [ none ↦ none | some t ↦ run is t ]

  -- Whether some thread can move.
  unfoldable pub can_move : Closing → Bool
  can_move s = is_some (closer_move s) || any_moves (is_mutex_free s.workers) s.shutdown s.workers

abbrev pub entering_workers : ℕ → List Phase
entering_workers zero = []
entering_workers (suc n) = entering ∷ entering_workers n

-- So many workers have been started, and nothing else has happened.
abbrev pub started_workers : ℕ → Closing
started_workers n = record { shutdown = false; closer = deciding; workers = entering_workers n }
