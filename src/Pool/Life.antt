-- ===== src/Pool/Life.antt =====
-- thread_pool.c: `create_thread_pool`, `wait_for_workers` and `destroy_thread_pool`, by what they
-- allocate, initialize and start, and what they give back. That a join returns is not said here.
pub mod Laws
use nfs_system.Base.{
  ℕ, zero, suc, ◌+◌, List, [], ◌∷◌, ◌++◌, Option, none, some, Bool, true, false, if◌then◌else◌, ◌≡◌,
  refl, sym, ap, arith, subst, append_assoc, append-nil,
}
use nfs_system.Process.{
  Sys, pure, ◌>>=◌, ◌>>◌, acquire, acquire_call, release, release_all, Resource, Process, resource,
  resources, memory, mutex, condition, thread,
}

-- `thread_pool_t`, by the names of what it refers to. `jobs` holds the jobs in the queue.
pub record PoolParts : Type 0 where
  pub block : ℕ
  pub threads : ℕ
  pub queue_mutex : ℕ
  pub queue_not_empty : ℕ
  pub queue_not_full : ℕ
  pub workers : List ℕ
  pub jobs : List ℕ

-- In the order in which `destroy_thread_pool` gives them back: the blocks of the pool.
unfoldable pub fixed_parts : PoolParts → List Resource
fixed_parts t =
    resource condition t.queue_not_full
    ∷ resource condition t.queue_not_empty
    ∷ resource mutex t.queue_mutex
    ∷ resource memory t.threads
    ∷ resource memory t.block
    ∷ []

unfoldable pub pool_resources : PoolParts → List Resource
pool_resources t = resources thread t.workers ++ resources memory t.jobs ++ fixed_parts t

-- The loop that starts the threads: whether all were started, and those that were, the first one first.
unfoldable pub start_workers : ℕ → List ℕ → Sys (Bool × List ℕ)
start_workers zero started = pure (true, started)
start_workers (suc n) started = do
  worker ← acquire thread
  elim worker [ none ↦ pure (false, started) | some w ↦ start_workers n (started ++ w ∷ []) ]

-- `pthread_join` of each worker.
unfoldable pub wait_for_workers : List ℕ → Sys Unit
wait_for_workers workers = release_all (resources thread workers)

-- What follows the loop: the pool, or everything is given back.
unfoldable pub finish_pool : PoolParts → Bool × List ℕ → Sys (Option PoolParts)
finish_pool t (true, workers) = pure (some (record t { workers = workers }))
finish_pool t (false, workers) = do wait_for_workers workers; release_all (fixed_parts t); pure none

unfoldable pub create_thread_pool : ℕ → Sys (Option PoolParts)
create_thread_pool thread_count = do
  pool ← acquire memory
  elim pool [
    | none ↦ pure none
    | some block ↦ do
      array ← acquire memory
      elim array [
        | none ↦ release_all (resource memory block ∷ []) >> pure none
        | some threads ↦ do
          lock ← acquire mutex
          elim lock [
            | none ↦ release_all (resource memory threads ∷ resource memory block ∷ []) >> pure none
            | some m ↦ do
              first ← acquire condition
              elim first [
                | none ↦
                    release_all
                      (resource mutex m ∷ resource memory threads ∷ resource memory block ∷ [])
                    >> pure none
                | some ne ↦ do
                  second ← acquire condition
                  elim second [
                    | none ↦
                        release_all (
                          resource condition ne
                          ∷ resource mutex m
                          ∷ resource memory threads
                          ∷ resource memory block
                          ∷ [])
                        >> pure none
                    | some nf ↦ do
                      result ← start_workers thread_count []
                      finish_pool
                          (record {
                            block = block;
                            threads = threads;
                            queue_mutex = m;
                            queue_not_empty = ne;
                            queue_not_full = nf;
                            workers = [];
                            jobs = [];
                          })
                          result
                  ]
              ]
          ]
      ]
  ]

unfoldable pub free_sync_job : Option ℕ → Sys Unit
free_sync_job none = pure tt
free_sync_job (some job) = release (resource memory job)

-- The loop over the jobs that are left.
unfoldable pub free_jobs : List ℕ → Sys Unit
free_jobs [] = pure tt
free_jobs (job ∷ jobs) = free_sync_job (some job) >> free_jobs jobs

unfoldable pub destroy_thread_pool : Option PoolParts → Sys Unit
destroy_thread_pool none = pure tt
destroy_thread_pool (some t) = do
  wait_for_workers t.workers
  free_jobs t.jobs
  release_all (fixed_parts t)
