-- ===== src/Pool/Queue/Refine.antt =====
-- The linked queue beside the queue of jobs in `Pool`.
use nfs_system.Base.{
  ℕ, suc, ◌+◌, ◌-◌, List, [], ◌∷◌, ◌++◌, Option, none, some, ◌≡◌, ◌≢◌, refl, sym, ap, arith, length,
  length-append, leb, true, false, Bool-cases, inl, inr, if◌then◌else◌, ◌∙◌, subst,
}
use nfs_system.Pool.{ThreadPool, Enqueued, Dequeued, enqueue_sync_job, dequeue_sync_job}
use nfs_system.Pool.Queue.{
  Cell, Heap, JobQueue, PushResult, PopResult, append_job, remove_job, push, pop, link,
}
use nfs_system.Pool.Queue.Chain.{
  Chain, Absent, Distinct, last?, jobs_at, write_self, Chain-write, Chain-link, jobs_at-link,
  jobs_at-append, Distinct-append, last?-append,
}

-- The queue holds the cells at `xs`, from the head to the tail.
pub record Holds (q : JobQueue) (xs : List ℕ) : Type 0 where
  pub chain : Chain q.heap q.job_queue_head xs
  pub tail_last : q.job_queue_tail ≡ last? xs
  pub distinct : Distinct xs
  pub sized : q.queue_size ≡ length xs

-- The pool that such a queue stands for.
abbrev pub view : JobQueue → List ℕ → ThreadPool
view q xs = record { jobs = jobs_at q.heap xs; buffer_size = q.buffer_size; shutdown = q.shutdown }

length-jobs_at : (h : Heap) (xs : List ℕ) → length (jobs_at h xs) ≡ length xs
length-jobs_at h [] = refl
length-jobs_at h (x ∷ xs) = ap suc (length-jobs_at h xs)

last?-cons : (x : ℕ) (xs : List ℕ) → (t : ℕ) × (last? (x ∷ xs) ≡ some t)
last?-cons x [] = (x, refl)
last?-cons x (y ∷ xs) = last?-cons y xs

-- Appending the cell at `a`, as a change of the fields of `q`.
appended : JobQueue → Heap → Option ℕ → ℕ → JobQueue
appended q h head a = record q {
  heap = h;
  job_queue_head = head;
  job_queue_tail = some a;
  queue_size = q.queue_size + 1;
}

append_job_empty :
    (q : JobQueue) (a : ℕ) → q.job_queue_tail ≡ none → append_job q a ≡ appended q q.heap (some a) a
unfolding append_job appended
append_job_empty q a e = rw (append_job, e)

append_job_behind :
    (q : JobQueue) (a t : ℕ)
    → q.job_queue_tail ≡ some t
    → append_job q a ≡ appended q (link q.heap t (some a)) q.job_queue_head a
unfolding append_job appended
append_job_behind q a t e = rw (append_job, e)

-- The queue `r` is `q` with the cell at `a` behind the cells at `xs`.
abbrev Extends : JobQueue → List ℕ → ℕ → JobQueue → Type 0
Extends q xs a r =
    Holds r (xs ++ a ∷ [])
    × (view r (xs ++ a ∷ [])
        ≡ record (view q xs) { jobs = jobs_at q.heap xs ++ (q.heap a).job ∷ [] })

append_job-Holds :
    (q : JobQueue) (xs : List ℕ) (a : ℕ)
    → Holds q xs
    → Absent a xs
    → (q.heap a).next ≡ none
    → Extends q xs a (append_job q a)
unfolding appended
append_job-Holds q [] a v ab n = subst (Extends q [] a) (sym (append_job_empty q a v.tail_last)) (
  record {
    chain = (refl, n);
    tail_last = refl;
    distinct = (tt, tt);
    sized = omega (arith, v.sized);
  },
  refl,
)
append_job-Holds q (x ∷ xs) a v ab n =
    let (t, l) = last?-cons x xs in
    subst (Extends q (x ∷ xs) a) (sym (append_job_behind q a t (v.tail_last ∙ l))) (
      record {
        chain = Chain-link q.heap q.job_queue_head (x ∷ xs) t a v.chain v.distinct l ab n;
        tail_last = sym (last?-append (x ∷ xs) a);
        distinct = Distinct-append (x ∷ xs) a v.distinct ab;
        sized = omega (arith, v.sized, length-append xs (a ∷ []));
      },
      ap (λ js. record (view q (x ∷ xs)) { jobs = js })
          (jobs_at-link q.heap t (some a) (x ∷ xs ++ a ∷ []) ∙ jobs_at-append q.heap (x ∷ xs) a),
    )

-- The result of `push` in the terms of `Pool`, where a queue that results holds `xs`.
abbrev pub view_push : PushResult → List ℕ → Enqueued
view_push PushResult.rejected xs = Enqueued.rejected
view_push PushResult.must_wait xs = Enqueued.must_wait
view_push (PushResult.queued q) xs = Enqueued.queued (view q xs)

abbrev pub Pushed : PushResult → List ℕ → Type 0
Pushed PushResult.rejected xs = Unit {0}
Pushed PushResult.must_wait xs = Unit {0}
Pushed (PushResult.queued q) xs = Holds q xs

push_down : (q : JobQueue) (a : ℕ) → q.shutdown ≡ true → push q a ≡ PushResult.rejected
unfolding push
push_down q a e = ground arith

push_full :
    (q : JobQueue) (a : ℕ)
    → q.shutdown ≡ false
    → leb q.buffer_size q.queue_size ≡ true
    → push q a ≡ PushResult.must_wait
unfolding push
push_full q a e f = ground arith

push_room :
    (q : JobQueue) (a : ℕ)
    → q.shutdown ≡ false
    → leb q.buffer_size q.queue_size ≡ false
    → push q a ≡ PushResult.queued (append_job q a)
unfolding push
push_room q a e f = ground arith

-- Pushing a cell that is not in the queue and whose link is NULL does to the linked list what
-- `enqueue_sync_job` does to the list of jobs, on each of the three branches; where it queues the
-- job, the cell stands at the end and the links, the tail and the size are right again.
pub push_refines :
    (q : JobQueue) (xs : List ℕ) (a : ℕ)
    → Holds q xs
    → Absent a xs
    → (q.heap a).next ≡ none
    → (view_push (push q a) (xs ++ a ∷ []) ≡ enqueue_sync_job (view q xs) (q.heap a).job)
      × Pushed (push q a) (xs ++ a ∷ [])
unfolding enqueue_sync_job
push_refines q xs a v ab n =
    let e : length (jobs_at q.heap xs) ≡ q.queue_size = length-jobs_at q.heap xs ∙ sym v.sized in
    elim (Bool-cases q.shutdown) [
      | inl down ↦ rw (push_down q a down) (ground arith, tt)
      | inr up ↦ elim (Bool-cases (leb q.buffer_size q.queue_size)) [
        | inl full ↦ rw (push_full q a up full) (ground (arith, e), tt)
        | inr room ↦
            let (holds, same) = append_job-Holds q xs a v ab n in
            rw (push_room q a up room) (ground (arith, e, same), holds)
      ]
    ]

-- What `pop` returns from a queue that holds the given cells.
abbrev pub Popped : JobQueue → List ℕ → Type 0
Popped q [] =
    (pop q ≡ (if q.shutdown then PopResult.stopped else PopResult.idle))
    × (dequeue_sync_job (view q []) ≡ (if q.shutdown then Dequeued.stopped else Dequeued.idle))
Popped q (a ∷ xs) =
    (t : JobQueue) × (pop q ≡ PopResult.taken (some a) t)
    × (dequeue_sync_job (view q (a ∷ xs)) ≡ Dequeued.taken (q.heap a).job (view t xs))
    × Holds t xs
    × ((t.heap a).next ≡ none)

-- The queue without its first cell, where `n` is that cell's link and `t` the new tail.
removed : JobQueue → ℕ → Option ℕ → Option ℕ → JobQueue
removed q a n t = record q {
  heap = link q.heap a none;
  job_queue_head = n;
  job_queue_tail = t;
  queue_size = q.queue_size - 1;
}

new_tail : JobQueue → Option ℕ → Option ℕ
new_tail q n = elim n [ none ↦ none | some _ ↦ q.job_queue_tail ]

pop-some :
    (q : JobQueue) (a : ℕ)
    → q.queue_size ≢ 0
    → q.job_queue_head ≡ some a
    → pop q ≡ PopResult.taken (some a) (removed q a (q.heap a).next (new_tail q (q.heap a).next))
unfolding pop remove_job removed new_tail
pop-some q a ne e = ground arith

new_tail_last :
    (q : JobQueue) (a : ℕ) (xs : List ℕ) → Holds q (a ∷ xs) → new_tail q (q.heap a).next ≡ last? xs
unfolding new_tail
new_tail_last q a [] v = ground arith
new_tail_last q a (b ∷ xs) v = ground arith

removed-Holds :
    (q : JobQueue) (a : ℕ) (xs : List ℕ)
    → Holds q (a ∷ xs)
    → Holds (removed q a (q.heap a).next (new_tail q (q.heap a).next)) xs
unfolding removed
removed-Holds q a xs v = record {
  chain = Chain-write q.heap a _ (q.heap a).next xs v.distinct.0 v.chain.1;
  tail_last = new_tail_last q a xs v;
  distinct = v.distinct.1;
  sized = omega (arith, v.sized);
}

-- Popping takes the first cell, with its link reset, leaves a queue of the others, and answers as
-- `dequeue_sync_job` does on the list of jobs; an empty queue is left as it is.
pub pop_refines : (q : JobQueue) (xs : List ℕ) → Holds q xs → Popped q xs
unfolding dequeue_sync_job
pop_refines q [] v = (unfold pop in ground (arith, v.sized), refl)
pop_refines q (a ∷ xs) v = (
  removed q a (q.heap a).next (new_tail q (q.heap a).next),
  pop-some q a (omega (arith, v.sized)) v.chain.0,
  unfold removed in
      ap (λ js. Dequeued.taken (q.heap a).job (record (view q xs) { jobs = js }))
        (sym (jobs_at-link q.heap a none xs)),
  removed-Holds q a xs v,
  unfold removed in ap (λ (c : Cell). c.next) (write_self q.heap a _),
)
