-- ===== src/Pool/Life/Laws.antt =====
-- thread_pool.c: what a pool holds from its creation to its end.
use nfs_system.Base.{
  ℕ, zero, suc, ◌+◌, List, [], ◌∷◌, ◌++◌, Option, none, some, Bool, true, false, ◌≡◌, refl, sym, ap,
  arith, subst, append_assoc, ◌∙◌,
}
use nfs_system.Process.{
  pure, ◌>>◌, acquire_call, release_all, Resource, Process, resource, resources, memory, mutex,
  condition, thread,
}
use nfs_system.Process.Laws.{
  Holds, Keeps, owning, count, count-append, pure-Keeps, >>-Keeps, >>=-Keeps, acquire-then,
  release-Keeps, release_all-Keeps, same-Keeps, resources-append,
}
use nfs_system.Pool.Life.{
  PoolParts, fixed_parts, pool_resources, start_workers, finish_pool, create_thread_pool,
  free_sync_job, free_jobs, destroy_thread_pool, wait_for_workers,
}

count-snoc :
    (r : Resource) (w : ℕ) (ws : List ℕ) (rs : List Resource)
    → count r (resource thread w ∷ resources thread ws ++ rs)
      ≡ count r (resources thread (ws ++ w ∷ []) ++ rs)
unfolding resources
count-snoc r w [] rs = refl
count-snoc r w (v ∷ ws) rs = omega (arith, count-snoc r w ws rs)

start_workers-Keeps :
    (n : ℕ) (started : List ℕ) (rs : List Resource)
    → Keeps
        (resources thread started ++ rs)
        (start_workers n started)
        (λ x. resources thread x.1 ++ rs)
unfolding start_workers
start_workers-Keeps zero started rs = pure-Keeps (true, started) (λ x. resources thread x.1 ++ rs)
start_workers-Keeps (suc n) started rs =
    acquire-then (acquire_call thread) thread
      (pure-Keeps (false, started) (λ x. resources thread x.1 ++ rs))
      (λ w.
        same-Keeps _ _ (λ r. count-snoc r w started rs)
          (start_workers-Keeps n (started ++ w ∷ []) rs))

-- What is given back before NULL is returned.
release_and_fail-Keeps :
    (xs rs : List Resource)
    → Keeps (xs ++ rs) (release_all xs >> pure none) (owning pool_resources rs)
release_and_fail-Keeps xs rs =
    >>-Keeps rs (release_all-Keeps xs rs) (pure-Keeps none (owning pool_resources rs))

wait_for_workers-Keeps :
    (ws : List ℕ) (rs : List Resource)
    → Keeps (resources thread ws ++ rs) (wait_for_workers ws) (λ _. rs)
unfolding wait_for_workers
wait_for_workers-Keeps ws rs = release_all-Keeps (resources thread ws) rs

-- The parts of a pool, in the order in which `destroy_thread_pool` gives them back.
pool_resources-split :
    (t : PoolParts) (rs : List Resource)
    → pool_resources t ++ rs
      ≡ resources thread t.workers ++ (resources memory t.jobs ++ (fixed_parts t ++ rs))
unfolding pool_resources
pool_resources-split t rs =
    append_assoc (resources thread t.workers ++ resources memory t.jobs) (fixed_parts t) rs
    ∙ append_assoc (resources thread t.workers) (resources memory t.jobs) (fixed_parts t ++ rs)

count-pool :
    (r : Resource) (t : PoolParts) (rs : List Resource)
    → count r (pool_resources t ++ rs)
      ≡ count r (resources thread t.workers)
        + count r (resources memory t.jobs)
        + count r (fixed_parts t)
        + count r rs
count-pool r t rs =
    let ws = resources thread t.workers in
    let js = resources memory t.jobs in
    let fs = fixed_parts t in
    ap (count r) (pool_resources-split t rs)
    ∙ omega (
      arith,
      count-append r ws (js ++ (fs ++ rs)),
      count-append r js (fs ++ rs),
      count-append r fs rs,
    )

-- One more job in the queue, at its end.
pub count-queued :
    (r : Resource) (j : ℕ) (t : PoolParts) (rs : List Resource)
    → count r (resource memory j ∷ (pool_resources t ++ rs))
      ≡ count r (pool_resources (record t { jobs = t.jobs ++ j ∷ [] }) ++ rs)
unfolding resources fixed_parts
count-queued r j t rs =
    let last = count-append r (resources memory t.jobs) (resource memory j ∷ []) in
    omega (
      arith,
      count-pool r t rs,
      count-pool r (record t { jobs = t.jobs ++ j ∷ [] }) rs,
      ap (count r) (resources-append memory t.jobs (j ∷ [])),
      last,
    )

-- One job less, from its start.
pub count-dequeued :
    (r : Resource) (j : ℕ) (jobs : List ℕ) (t : PoolParts) (rs : List Resource)
    → t.jobs ≡ j ∷ jobs
    → count r (pool_resources t ++ rs)
      ≡ count r (resource memory j ∷ (pool_resources (record t { jobs = jobs }) ++ rs))
unfolding resources fixed_parts
count-dequeued r j jobs t rs e = omega (
  arith,
  count-pool r t rs,
  count-pool r (record t { jobs = jobs }) rs,
  ap (λ js. count r (resources memory js)) e,
)

finish_pool-Keeps :
    (t : PoolParts) (x : Bool × List ℕ) (rs : List Resource)
    → t.jobs ≡ []
    → Keeps
        (resources thread x.1 ++ (fixed_parts t ++ rs))
        (finish_pool t x)
        (owning pool_resources rs)
unfolding finish_pool resources fixed_parts
finish_pool-Keeps t (true, ws) rs e =
    let pool = record t { workers = ws } in
    subst (λ held. Keeps held (pure (some pool)) (owning pool_resources rs))
      (pool_resources-split pool rs
        ∙ ap (λ js. resources thread ws ++ (resources memory js ++ (fixed_parts t ++ rs))) e)
      (pure-Keeps (some pool) (owning pool_resources rs))
finish_pool-Keeps t (false, ws) rs e =
    >>-Keeps (fixed_parts t ++ rs) (wait_for_workers-Keeps ws (fixed_parts t ++ rs))
      (release_and_fail-Keeps (fixed_parts t) rs)

pub create_thread_pool-Keeps :
    (n : ℕ) (rs : List Resource) → Keeps rs (create_thread_pool n) (owning pool_resources rs)
unfolding create_thread_pool resources fixed_parts
create_thread_pool-Keeps n rs =
    let fails : (xs : List Resource)
        → Keeps (xs ++ rs) (release_all xs >> pure none) (owning pool_resources rs) =
      λ xs. release_and_fail-Keeps xs rs in
    acquire-then (acquire_call memory) memory (pure-Keeps none (owning pool_resources rs)) (λ block.
      let blocks = resource memory block ∷ [] in
      acquire-then (acquire_call memory) memory (fails blocks) (λ threads.
        let arrays = resource memory threads ∷ blocks in
        acquire-then (acquire_call mutex) mutex (fails arrays) (λ m.
          acquire-then (acquire_call condition) condition (fails (resource mutex m ∷ arrays)) (λ ne.
            acquire-then (acquire_call condition) condition
              (fails (resource condition ne ∷ resource mutex m ∷ arrays))
              (λ nf.
                let t : PoolParts = record {
                  block = block;
                  threads = threads;
                  queue_mutex = m;
                  queue_not_empty = ne;
                  queue_not_full = nf;
                  workers = [];
                  jobs = [];
                } in
                >>=-Keeps (λ x. resources thread x.1 ++ (fixed_parts t ++ rs))
                  (start_workers-Keeps n [] (fixed_parts t ++ rs))
                  (λ x. finish_pool-Keeps t x rs refl))))))

free_jobs-Keeps :
    (jobs : List ℕ) (rs : List Resource)
    → Keeps (resources memory jobs ++ rs) (free_jobs jobs) (λ _. rs)
unfolding free_jobs free_sync_job resources
free_jobs-Keeps [] rs = pure-Keeps tt (λ _. rs)
free_jobs-Keeps (job ∷ jobs) rs =
    >>-Keeps (resources memory jobs ++ rs)
      (release-Keeps (resource memory job) (resources memory jobs ++ rs)) (free_jobs-Keeps jobs rs)

pub destroy_thread_pool-Keeps :
    (pool : Option PoolParts) (rs : List Resource)
    → Keeps (owning pool_resources rs pool) (destroy_thread_pool pool) (λ _. rs)
unfolding destroy_thread_pool
destroy_thread_pool-Keeps none rs = pure-Keeps tt (λ _. rs)
destroy_thread_pool-Keeps (some t) rs =
    subst (λ held. Keeps held (destroy_thread_pool (some t)) (λ _. rs))
      (sym (pool_resources-split t rs))
      (>>-Keeps (resources memory t.jobs ++ (fixed_parts t ++ rs))
        (wait_for_workers-Keeps t.workers (resources memory t.jobs ++ (fixed_parts t ++ rs)))
        (>>-Keeps (fixed_parts t ++ rs) (free_jobs-Keeps t.jobs (fixed_parts t ++ rs))
          (release_all-Keeps (fixed_parts t) rs)))

-- Whatever the calls return, `create_thread_pool` returns either NULL, with everything given back that
-- it has allocated, initialized and started, each once, or a pool that refers to just what it has taken.
pub create_thread_pool-Holds :
    (n : ℕ) (rs : List Resource) (p : Process)
    → Holds rs p
    → Holds (owning pool_resources rs (create_thread_pool n p).0) (create_thread_pool n p).1
create_thread_pool-Holds n rs p h = (create_thread_pool-Keeps n rs).runs p h
