-- ===== src/Tests/Queues.antt =====
-- The linked queue of jobs.
use nfs_system.Base.{ℕ, [], ◌∷◌, none, some, false, pos, ◌≡◌, refl, ◌==◌, if◌then◌else◌}
use nfs_system.Text.{codes}
use nfs_system.Spec.{DirectorySpec}
use nfs_system.Pool.{SyncJob, enqueue_sync_job}
use nfs_system.Pool.Queue.{Cell, JobQueue, push}
use nfs_system.Pool.Queue.Refine.{Holds, view, view_push, Pushed, Popped, push_refines, pop_refines}

abbrev directory : DirectorySpec
directory = record { host = codes "h"; port = pos 80; dir = codes "/a" }

abbrev job : SyncJob
job = record { source = directory; target = directory; filename = codes "f" }

-- The cells at 1 and 2 are linked; all others are alone.
abbrev cells : ℕ → Cell
cells a = if a == 1 then record { job = job; next = some 2 } else record { job = job; next = none }

abbrev two_jobs : JobQueue
two_jobs = record {
  heap = cells;
  job_queue_head = some 1;
  job_queue_tail = some 2;
  queue_size = 2;
  buffer_size = 3;
  shutdown = false;
}

two_jobs-Holds : Holds two_jobs (1 ∷ 2 ∷ [])
two_jobs-Holds = record {
  chain = (refl, (refl, refl));
  tail_last = refl;
  distinct = (((λ e. cc), tt), (tt, tt));
  sized = refl;
}

push_refines_example :
    (view_push (push two_jobs 3) (1 ∷ 2 ∷ 3 ∷ [])
      ≡ enqueue_sync_job (view two_jobs (1 ∷ 2 ∷ [])) job)
    × Pushed (push two_jobs 3) (1 ∷ 2 ∷ 3 ∷ [])
push_refines_example =
    push_refines two_jobs (1 ∷ 2 ∷ []) 3 two_jobs-Holds ((λ e. cc), ((λ e. cc), tt)) refl

pop_refines_example : Popped two_jobs (1 ∷ 2 ∷ [])
pop_refines_example = pop_refines two_jobs (1 ∷ 2 ∷ []) two_jobs-Holds
