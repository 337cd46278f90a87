-- ===== src/Pool/Threads/Shutdown.antt =====
-- thread_pool.c: a measure of what is left to do after a shutdown.
use nfs_system.Base.{
  ℕ, ◌+◌, ◌*◌, ◌<◌, List, [], ◌∷◌, some, true, get_elem?, map, ◌≡◌, ◌⊎◌, inl, inr, refl, arith, ap,
  sym, ◌∙◌, length,
}
use nfs_system.Pool.{ThreadPool, signal_shutdown}
use nfs_system.Pool.Threads.{
  Worker, ready, asleep, finished, busy, Producer, free, blocked, retrying, System, Step, call,
  again, offer_rejected, offer_blocked, offer_queued, producer_wakes, take_job, take_nothing,
  take_stop, worker_wakes, finish_job, shut_down, Reach, create_thread_pool, wake_worker,
  wake_producer, total, is_asleep,
}
use nfs_system.Pool.Threads.Workers.{total-set}
use nfs_system.Pool.Threads.Order.{queued_lem, taken_lem}
use nfs_system.Pool.Threads.Wakeups.{IsAwake, Reach-IsAwake, WaitsForRoom, blocked_lem, idle_lem}

-- What a worker and the producer still have to do.
abbrev pub work : Worker → ℕ
work ready = 1
work asleep = 0
work finished = 0
work (busy job) = 2

abbrev pub pending : Producer → ℕ
pending free = 0
pending (blocked job) = 0
pending (retrying job) = 1

abbrev pub measure : System → ℕ
measure s = 3 * length s.pool.jobs + total work s.workers + pending s.producer

none_asleep : (ws : List Worker) → total is_asleep ws ≡ 0 → map wake_worker ws ≡ ws
none_asleep [] h = refl
none_asleep (ready ∷ ws) h = ap (◌∷◌ ready) (none_asleep ws (omega arith))
none_asleep (asleep ∷ ws) h = absurd (omega arith)
none_asleep (finished ∷ ws) h = ap (◌∷◌ finished) (none_asleep ws (omega arith))
none_asleep (busy job ∷ ws) h = ap (◌∷◌ (busy job)) (none_asleep ws (omega arith))

none_asleep_at :
    (ws : List Worker) (i : ℕ) → total is_asleep ws ≡ 0 → get_elem? ws i ≡ some asleep → ⊥
none_asleep_at ws i h e = omega (arith, total-set is_asleep ws i asleep ready e, h)

not_blocked :
    (p : Producer) (q : ThreadPool) → q.shutdown ≡ true → WaitsForRoom p q → wake_producer p ≡ p
not_blocked free q d w = refl
not_blocked (blocked job) q d w = absurd (ground arith)
not_blocked (retrying job) q d w = refl

-- A second shutdown finds nothing to do.
shut_down_again :
    (s : System)
    → s.pool.shutdown ≡ true
    → total is_asleep s.workers ≡ 0
    → WaitsForRoom s.producer s.pool
    → record s {
      pool = signal_shutdown s.pool;
      workers = map wake_worker s.workers;
      producer = wake_producer s.producer;
    }
      ≡ s
unfolding signal_shutdown
shut_down_again s d a w = λ i. record s {
  pool = record (s.pool) { shutdown = sym d i };
  workers = none_asleep s.workers a i;
  producer = not_blocked s.producer s.pool d w i;
}

-- In a pool that is shut down each step brings the end nearer or changes nothing.
Step-measure :
    {s t : System}
    → Step s t
    → s.pool.shutdown ≡ true
    → total is_asleep s.workers ≡ 0
    → WaitsForRoom s.producer s.pool
    → (measure t < measure s) ⊎ (t ≡ s)
Step-measure {s} (offer_rejected job (call o) r e) d a w =
    inr (e ∙ ap (λ p. record s { producer = p }) (sym o))
Step-measure (offer_rejected job (again o) r e) d a w = inl (rw e (ground (arith, o)))
Step-measure {s} (offer_blocked job o r e) d a w =
    absurd (ground (arith, blocked_lem s.pool job r, d))
Step-measure {s} (offer_queued job p vs o r g e) d a w =
    absurd (ground (arith, queued_lem s.pool job p r, d))
Step-measure {s} (producer_wakes job b e) d a w = absurd (ground arith)
Step-measure {s} (take_job i job p w r e) d a room =
    let (jobs, size, down) = taken_lem s.pool job p r in
    inl (rw e (ground (arith, jobs, total-set work s.workers i ready (busy job) w)))
Step-measure {s} (take_nothing i w r e) d a room = absurd (ground (arith, idle_lem s.pool r, d))
Step-measure {s} (take_stop i w r e) d a room =
    inl (rw e (omega (arith, total-set work s.workers i ready finished w)))
Step-measure {s} (worker_wakes i w e) d a room = absurd (none_asleep_at s.workers i a w)
Step-measure {s} (finish_job i job w e) d a room =
    inl (rw e (omega (arith, total-set work s.workers i (busy job) ready w)))
Step-measure {s} (shut_down e) d a room = inr (e ∙ shut_down_again s d a room)

pub down_asleep : (s : System) → IsAwake s → s.pool.shutdown ≡ true → total is_asleep s.workers ≡ 0
down_asleep s v d = ground (arith, v.down_awake)

-- From a shutdown on, each step of any thread lowers the measure or leaves the state as it is: the
-- pool changes at most `measure s` times more, and then stands still.
pub shutdown_measure :
    (n b : ℕ) {s t : System}
    → Reach (create_thread_pool n b) s
    → s.pool.shutdown ≡ true
    → Step s t
    → (measure t < measure s) ⊎ (t ≡ s)
shutdown_measure n b {s} r d st = Step-measure st d (down_asleep s (Reach-IsAwake n b r) d) v.room
  where
    v : IsAwake s
    v = Reach-IsAwake n b r
