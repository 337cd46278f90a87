-- ===== src/Pool/Threads/Feed/Kept.antt =====
-- thread_pool.c: which jobs have been given, on the way through the enqueuing thread and the workers.
use nfs_system.Base.{
  ℕ, List, [], ◌∷◌, ◌++◌, true, false, ◌≡◌, inl, inr, refl, sym, arith, ap, ◌∙◌, append_assoc,
  append-nil, Bool-cases,
}
use nfs_system.Pool.{SyncJob, ThreadPool, Enqueued, enqueue_sync_job, signal_shutdown}
use nfs_system.Pool.Threads.{
  Producer, free, blocked, retrying, System, Step, offer_rejected, offer_blocked, offer_queued,
  producer_wakes, take_job, take_nothing, take_stop, worker_wakes, finish_job, shut_down, call,
  again, Reach, here, next, create_thread_pool, wake_producer,
}
use nfs_system.Pool.Threads.Moves.{IsOwn}
use nfs_system.Pool.Threads.Order.{queued_lem, taken_lem}
use nfs_system.Pool.Threads.Feed.{Feeding, IsCall, Feeds, own, calls, closes, Fed, begins, goes_on}

-- The job of a call that has not returned.
abbrev pub in_call : Producer → List SyncJob
in_call free = []
in_call (blocked job) = job ∷ []
in_call (retrying job) = job ∷ []

-- The jobs that are accepted or in a call.
abbrev pub given : System → List SyncJob
given s = s.accepted ++ in_call s.producer

rejected_lem :
    (p : ThreadPool) (job : SyncJob)
    → enqueue_sync_job p job ≡ Enqueued.rejected
    → p.shutdown ≡ true
unfolding enqueue_sync_job
rejected_lem p job e = ground arith

in_call-wake : (p : Producer) → in_call (wake_producer p) ≡ in_call p
in_call-wake free = refl
in_call-wake (blocked job) = refl
in_call-wake (retrying job) = refl

own-given :
    {s t : System} (st : Step s t)
    → IsOwn st
    → (s.pool.shutdown ≡ true → s.producer ≡ free)
    → given t ≡ given s
own-given {s} (offer_rejected job (again o) r e) h d =
    absurd (let f = d (rejected_lem s.pool job r) in let g = sym f ∙ o in cc)
own-given {s} (offer_blocked job (again o) r e) h d =
    rw e (ap (λ p. s.accepted ++ in_call p) (sym o))
own-given {s} (offer_queued job p vs (again o) r g e) h d =
    rw e (append-nil (s.accepted ++ job ∷ []) ∙ ap (λ p. s.accepted ++ in_call p) (sym o))
own-given {s} (take_job i job p w r e) h d =
    rw e (ap (λ l. s.accepted ++ l) (in_call-wake s.producer))
own-given (take_nothing i w r e) h d = rw e refl
own-given (take_stop i w r e) h d = rw e refl
own-given (finish_job i job w e) h d = rw e refl
own-given (offer_rejected job (call o) r e) h d = absurd h
own-given (offer_blocked job (call o) r e) h d = absurd h
own-given (offer_queued job p vs (call o) r g e) h d = absurd h
own-given (producer_wakes job b e) h d = absurd h
own-given (worker_wakes i w e) h d = absurd h
own-given (shut_down e) h d = absurd h

-- A step that is not the shutdown leaves the flag, and one of its own does not begin a call.
own-flag :
    {s t : System} (st : Step s t)
    → IsOwn st
    → (t.pool.shutdown ≡ s.pool.shutdown) × (s.producer ≡ free → t.producer ≡ free)
own-flag (offer_rejected job (again o) r e) h = rw e (refl, λ f. refl)
own-flag (offer_blocked job (again o) r e) h = rw e (refl, λ f. absurd (let g = sym f ∙ o in cc))
own-flag {s} (offer_queued job p vs (again o) r g e) h =
    let (jobs, size, down, up, space) = queued_lem s.pool job p r in rw e (down, λ f. refl)
own-flag {s} (take_job i job p w r e) h =
    let (jobs, size, down) = taken_lem s.pool job p r in rw e (down, λ f. ap wake_producer f)
own-flag (take_nothing i w r e) h = rw e (refl, λ f. f)
own-flag (take_stop i w r e) h = rw e (refl, λ f. f)
own-flag (finish_job i job w e) h = rw e (refl, λ f. f)
own-flag (offer_rejected job (call o) r e) h = absurd h
own-flag (offer_blocked job (call o) r e) h = absurd h
own-flag (offer_queued job p vs (call o) r g e) h = absurd h
own-flag (producer_wakes job b e) h = absurd h
own-flag (worker_wakes i w e) h = absurd h
own-flag (shut_down e) h = absurd h

call-given :
    (job : SyncJob) {s t : System} (st : Step s t)
    → IsCall job st
    → s.pool.shutdown ≡ false
    → (given t ≡ s.accepted ++ job ∷ []) × (t.pool.shutdown ≡ false)
call-given job {s} (offer_rejected j o r e) h up =
    absurd (let d = rejected_lem s.pool j r in let g = sym d ∙ up in cc)
call-given job {s} (offer_blocked j o r e) h up = rw e (ap (λ k. s.accepted ++ k ∷ []) h, up)
call-given job {s} (offer_queued j p vs o r g e) h up =
    let (jobs, size, down, _, space) = queued_lem s.pool j p r in
    rw e (append-nil (s.accepted ++ j ∷ []) ∙ ap (λ k. s.accepted ++ k ∷ []) h, down ∙ up)
call-given job (producer_wakes j b e) h up = absurd h
call-given job (take_job i j p w r e) h up = absurd h
call-given job (take_nothing i w r e) h up = absurd h
call-given job (take_stop i w r e) h up = absurd h
call-given job (worker_wakes i w e) h up = absurd h
call-given job (finish_job i j w e) h up = absurd h
call-given job (shut_down e) h up = absurd h

pub record IsFed (n b : ℕ) (jobs : List SyncJob) (x : Feeding) : Type 0 where
  pub reached : Reach (create_thread_pool n b) x.system
  pub conserved : given x.system ++ x.todo ≡ jobs
  pub down : x.system.pool.shutdown ≡ true → (x.system.producer ≡ free) × (x.todo ≡ [])

still_up :
    (n b : ℕ) (jobs : List SyncJob) (x : Feeding) (job : SyncJob) (rest : List SyncJob)
    → IsFed n b jobs x
    → x.todo ≡ job ∷ rest
    → x.system.pool.shutdown ≡ false
still_up n b jobs x job rest v e = elim (Bool-cases x.system.pool.shutdown) [
  | inl d ↦ absurd (let (f, g) = v.down d in let k = sym g ∙ e in cc)
  | inr u ↦ u
]

Feeds-IsFed :
    (n b : ℕ) (jobs : List SyncJob) {x y : Feeding}
    → IsFed n b jobs x
    → Feeds x y
    → IsFed n b jobs y
unfolding signal_shutdown
Feeds-IsFed n b jobs {x} {y} v (own st h e) =
    let (flag, stays) = own-flag st h in
    record {
      reached = next v.reached st;
      conserved =
          ap (λ l. given y.system ++ l) e
          ∙ ap (λ l. l ++ x.todo) (own-given st h (λ d. (v.down d).0))
          ∙ v.conserved;
      down = λ d. let (f, g) = v.down (sym flag ∙ d) in (stays f, e ∙ g);
    }
Feeds-IsFed n b jobs {x} {y} v (calls job f e st h) =
    let (gives, up) = call-given job st h (still_up n b jobs x job y.todo v e) in
    record {
      reached = next v.reached st;
      conserved =
          ap (λ l. l ++ y.todo) gives
          ∙ append_assoc x.system.accepted (job ∷ []) y.todo
          ∙ ap (λ l. x.system.accepted ++ l) (sym e)
          ∙ ap (λ l. l ++ x.todo) (sym (append-nil x.system.accepted))
          ∙ ap (λ p. (x.system.accepted ++ in_call p) ++ x.todo) (sym f)
          ∙ v.conserved;
      down = λ d. absurd (let k = sym d ∙ up in cc);
    }
Feeds-IsFed n b jobs {x} {y} v (closes f up e g q) =
    let free_again = ap (λ s. s.producer) q ∙ ap wake_producer f in
    record {
      reached = next v.reached (shut_down q);
      conserved =
          ap (λ s. (s.accepted ++ in_call s.producer) ++ y.todo) q
          ∙ ap (λ l. (x.system.accepted ++ l) ++ y.todo) (in_call-wake x.system.producer)
          ∙ ap (λ l. given x.system ++ l) (g ∙ sym e)
          ∙ v.conserved;
      down = λ d. (free_again, g);
    }

pub Fed-IsFed : (n b : ℕ) (jobs : List SyncJob) {x : Feeding} → Fed n b jobs x → IsFed n b jobs x
unfolding create_thread_pool
Fed-IsFed n b jobs begins = record { reached = here; conserved = refl; down = λ d. absurd (cc) }
Fed-IsFed n b jobs (goes_on r f) = Feeds-IsFed n b jobs (Fed-IsFed n b jobs r) f
