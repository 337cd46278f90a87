-- ===== src/Pool/Threads/Counts.antt =====
-- How many workers stand where.
use nfs_system.Base.{
  ℕ, zero, suc, ◌+◌, List, [], ◌∷◌, map, ◌≡◌, refl, arith, ap, ◌∙◌, length, length-set,
}
use nfs_system.Pool.Threads.{
  Worker, ready, asleep, finished, busy, System, Signalled, nobody, somebody, Step, offer_rejected,
  offer_blocked, offer_queued, producer_wakes, take_job, take_nothing, take_stop, worker_wakes,
  finish_job, shut_down, Reach, here, next, create_thread_pool, replicate_worker, wake_worker,
  total, is_asleep,
}

abbrev pub is_ready : Worker → ℕ
is_ready ready = 1
is_ready asleep = 0
is_ready finished = 0
is_ready (busy job) = 0

abbrev pub is_busy : Worker → ℕ
is_busy ready = 0
is_busy asleep = 0
is_busy finished = 0
is_busy (busy job) = 1

abbrev pub is_finished : Worker → ℕ
is_finished ready = 0
is_finished asleep = 0
is_finished finished = 1
is_finished (busy job) = 0

pub asleep-wake : (ws : List Worker) → total is_asleep (map wake_worker ws) ≡ 0
asleep-wake [] = refl
asleep-wake (ready ∷ ws) = omega (arith, asleep-wake ws)
asleep-wake (asleep ∷ ws) = omega (arith, asleep-wake ws)
asleep-wake (finished ∷ ws) = omega (arith, asleep-wake ws)
asleep-wake (busy job ∷ ws) = omega (arith, asleep-wake ws)

pub finished-wake :
    (ws : List Worker) → total is_finished (map wake_worker ws) ≡ total is_finished ws
finished-wake [] = refl
finished-wake (ready ∷ ws) = omega (arith, finished-wake ws)
finished-wake (asleep ∷ ws) = omega (arith, finished-wake ws)
finished-wake (finished ∷ ws) = omega (arith, finished-wake ws)
finished-wake (busy job ∷ ws) = omega (arith, finished-wake ws)

-- Every worker is in one of the four places.
pub total_workers :
    (ws : List Worker)
    → total is_ready ws + total is_busy ws + total is_asleep ws + total is_finished ws ≡ length ws
total_workers [] = refl
total_workers (ready ∷ ws) = omega (arith, total_workers ws)
total_workers (asleep ∷ ws) = omega (arith, total_workers ws)
total_workers (finished ∷ ws) = omega (arith, total_workers ws)
total_workers (busy job ∷ ws) = omega (arith, total_workers ws)

length-Signalled : (ws vs : List Worker) → Signalled ws vs → length vs ≡ length ws
length-Signalled ws vs (nobody n e) = ap length e
length-Signalled ws vs (somebody i h e) = ap length e ∙ length-set ws i ready

length-wake : (ws : List Worker) → length (map wake_worker ws) ≡ length ws
length-wake [] = refl
length-wake (w ∷ ws) = ap suc (length-wake ws)

Step-length : {s t : System} → Step s t → length t.workers ≡ length s.workers
Step-length (offer_rejected job o r e) = rw e refl
Step-length (offer_blocked job o r e) = rw e refl
Step-length {s} (offer_queued job p vs o r g e) = rw e (length-Signalled s.workers vs g)
Step-length (producer_wakes job b e) = rw e refl
Step-length {s} (take_job i job p w r e) = rw e (length-set s.workers i (busy job))
Step-length {s} (take_nothing i w r e) = rw e (length-set s.workers i asleep)
Step-length {s} (take_stop i w r e) = rw e (length-set s.workers i finished)
Step-length {s} (worker_wakes i w e) = rw e (length-set s.workers i ready)
Step-length {s} (finish_job i job w e) = rw e (length-set s.workers i ready)
Step-length {s} (shut_down e) = rw e (length-wake s.workers)

-- The pool has as many workers as were created.
pub Reach-length : (n b : ℕ) {s : System} → Reach (create_thread_pool n b) s → length s.workers ≡ n
Reach-length n b here = unfold create_thread_pool in length-replicate n
  where
    length-replicate : (n : ℕ) → length (replicate_worker n) ≡ n
    length-replicate zero = refl
    length-replicate (suc n) = ap suc (length-replicate n)
Reach-length n b (next r st) = Step-length st ∙ Reach-length n b r
