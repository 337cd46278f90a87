-- ===== src/Pool/Threads/Moves.antt =====
-- thread_pool.c: the steps that threads take without a wake-up out of nowhere. A thread in a wait goes on
-- only when another one has signalled it.
use nfs_system.Pool.{SyncJob}
use nfs_system.Pool.Threads.{
  System, Step, offer_rejected, offer_blocked, offer_queued, producer_wakes, take_job, take_nothing,
  take_stop, worker_wakes, finish_job, shut_down, Offers, call, again, Producer, Reach, next,
}

-- The test of `enqueue_sync_job` behind a wait.
abbrev pub IsAgain : {p : Producer} {job : SyncJob} → Offers p job → Type 0
IsAgain (call e) = ⊥
IsAgain (again e) = Unit

-- A step of a worker, or of the enqueuing thread behind its wait, but no spurious wake-up, no new call
-- and no shutdown.
abbrev pub IsOwn : {s t : System} → Step s t → Type 0
IsOwn (offer_rejected job o r e) = IsAgain o
IsOwn (offer_blocked job o r e) = IsAgain o
IsOwn (offer_queued job p vs o r g e) = IsAgain o
IsOwn (producer_wakes job b e) = ⊥
IsOwn (take_job i job p w r e) = Unit
IsOwn (take_nothing i w r e) = Unit
IsOwn (take_stop i w r e) = Unit
IsOwn (worker_wakes i w e) = ⊥
IsOwn (finish_job i job w e) = Unit
IsOwn (shut_down e) = ⊥

pub data Moves (s : System) : System → Type 0 where
  stay : Moves s s
  move : {t u : System} → Moves s t → (st : Step t u) → IsOwn st → Moves s u

pub Moves-trans : {s t u : System} → Moves s t → Moves t u → Moves s u
Moves-trans m stay = m
Moves-trans m (move k st own) = move (Moves-trans m k) st own

pub Moves-Reach : {s t u : System} → Reach s t → Moves t u → Reach s u
Moves-Reach r stay = r
Moves-Reach r (move k st own) = next (Moves-Reach r k) st
