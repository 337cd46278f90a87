-- ===== src/Manager/Life/Main/Faults.antt =====
-- The two failures of `initialize_manager` after which `cleanup_manager` gives back what the manager
-- does not hold.
use nfs_system.Base.{
  ℕ, ◌<◌, List, [], ◌∷◌, Option, none, some, false, ℤ, arith, ◌≡◌, refl, sym, subst,
}
use nfs_system.Text.{Bytes}
use nfs_system.Process.{
  Process, pure, ◌>>=◌, ◌>>◌, ask, acquire_by, fopen, Resource, resource, socket, file, memory,
  mutex, thread, standard, resources,
}
use nfs_system.Process.Laws.{Holds, grant, count, same-Keeps, ask-Keeps, acquire_denied, >>=-eq}
use nfs_system.Process.Faults.{
  Shrinks, Breaks, pure-Shrinks, release-Shrinks, release-Breaks, release_all-Shrinks, >>-Shrinks,
  >>-Breaks_later, >>-Breaks_first,
}
use nfs_system.Pool.Life.{
  PoolParts, destroy_thread_pool, free_jobs, free_sync_job, wait_for_workers, fixed_parts,
}
use nfs_system.Store.Life.{StoreParts, destroy_sync_info_store, free_infos, free_sync_info}
use nfs_system.Manager.Life.{
  ManagerParts, Descriptor, closed, standard_input, opened, parsed, manager_resources,
  handle_resources, descriptor_resources, cleanup_manager, initialize_manager, close_file,
  close_descriptor, free_path,
}
use nfs_system.Manager.Life.Main.{Workload, finish_main, run_main}
use nfs_system.Manager.Life.Main.Released.{
  path_resources, initialized, settled, initialize_manager-Keeps, cleanup_and_return-Keeps,
}

free_jobs-Shrinks : (jobs : List ℕ) → Shrinks (free_jobs jobs)
unfolding free_jobs free_sync_job
free_jobs-Shrinks [] = pure-Shrinks tt
free_jobs-Shrinks (j ∷ jobs) =
    >>-Shrinks (release-Shrinks (resource memory j)) (free_jobs-Shrinks jobs)

destroy_thread_pool-Shrinks : (pool : Option PoolParts) → Shrinks (destroy_thread_pool pool)
unfolding destroy_thread_pool wait_for_workers
destroy_thread_pool-Shrinks none = pure-Shrinks tt
destroy_thread_pool-Shrinks (some t) =
    >>-Shrinks (release_all-Shrinks (resources thread t.workers))
      (>>-Shrinks (free_jobs-Shrinks t.jobs) (release_all-Shrinks (fixed_parts t)))

free_infos-Shrinks : (infos : List ℕ) → Shrinks (free_infos infos)
unfolding free_infos free_sync_info
free_infos-Shrinks [] = pure-Shrinks tt
free_infos-Shrinks (i ∷ infos) =
    >>-Shrinks (release-Shrinks (resource memory i)) (free_infos-Shrinks infos)

close_file-Shrinks : (f : Option ℕ) → Shrinks (close_file f)
unfolding close_file
close_file-Shrinks none = pure-Shrinks tt
close_file-Shrinks (some f) = release-Shrinks (resource file f)

close_descriptor-Shrinks : (d : Descriptor) → Shrinks (close_descriptor d)
unfolding close_descriptor
close_descriptor-Shrinks closed = pure-Shrinks tt
close_descriptor-Shrinks standard_input = release-Shrinks (resource standard 0)
close_descriptor-Shrinks (opened fd) = release-Shrinks (resource socket fd)

free_path-Shrinks : (path : Option ℕ) → Shrinks (free_path path)
unfolding free_path
free_path-Shrinks none = pure-Shrinks tt
free_path-Shrinks (some path) = release-Shrinks (resource memory path)

-- The mutex of a store is destroyed whether or not the store exists.
destroy_sync_info_store-Breaks :
    (s : StoreParts) → Breaks (resource mutex s.store_mutex) (destroy_sync_info_store (some s))
unfolding destroy_sync_info_store
destroy_sync_info_store-Breaks s = >>-Breaks_later (free_infos-Shrinks s.infos) (
    >>-Breaks_first (release-Breaks (resource mutex s.store_mutex))
      (release-Shrinks (resource memory s.block)))

cleanup_manager-Breaks :
    (m : ManagerParts) (s : StoreParts)
    → m.sync_store ≡ some s
    → Breaks (resource mutex s.store_mutex) (cleanup_manager m)
unfolding cleanup_manager
cleanup_manager-Breaks m s e = >>-Breaks_later (destroy_thread_pool-Shrinks m.thread_pool) (
    >>-Breaks_first
      (subst (λ o. Breaks (resource mutex s.store_mutex) (destroy_sync_info_store o)) (sym e)
        (destroy_sync_info_store-Breaks s))
      (>>-Shrinks (close_file-Shrinks m.logfile) (
        >>-Shrinks (close_descriptor-Shrinks m.server_sockfd)
          (>>-Shrinks (free_path-Shrinks m.logfile_path) (free_path-Shrinks m.config_file_path)))))

count-grant_memory :
    (n : ℕ) (rs : List Resource) (o : Option ℕ)
    → count (resource mutex n) (grant memory rs o) ≡ count (resource mutex n) rs
count-grant_memory n rs none = refl
count-grant_memory n rs (some k) = omega arith

count-grant_file :
    (n : ℕ) (rs : List Resource) (o : Option ℕ)
    → count (resource mutex n) (grant file rs o) ≡ count (resource mutex n) rs
count-grant_file n rs none = refl
count-grant_file n rs (some k) = omega arith

count-descriptor :
    (n : ℕ) (rs : List Resource) (d : Descriptor)
    → count (resource mutex n) (descriptor_resources d rs) ≡ count (resource mutex n) rs
unfolding descriptor_resources
count-descriptor n rs closed = refl
count-descriptor n rs standard_input = omega arith
count-descriptor n rs (opened fd) = omega arith

-- No path, file or socket is a mutex.
count-handles :
    (n : ℕ) (m : ManagerParts) (rs : List Resource)
    → count (resource mutex n) (handle_resources m rs) ≡ count (resource mutex n) rs
unfolding handle_resources
count-handles n m rs =
    let config = grant memory rs m.config_file_path in
    let paths = grant memory config m.logfile_path in
    let sockets = descriptor_resources m.server_sockfd paths in
    omega (
      arith,
      count-grant_file n sockets m.logfile,
      count-descriptor n paths m.server_sockfd,
      count-grant_memory n config m.logfile_path,
      count-grant_memory n rs m.config_file_path,
    )

-- When `initialize_manager` fails with a store, as it does when the pool cannot be created, and the
-- process holds no other mutex of that name, `main` releases something that it does not hold.
pub run_main_double_free :
    (path : Bytes) (port : ℤ) (workers log config : ℕ) (w : Workload) (rs : List Resource)
    (p : Process) (m : ManagerParts) (s : StoreParts)
    → Holds (path_resources log config rs) p
    → (initialize_manager path port workers (parsed log config) p).0 ≡ (false, m)
    → m.sync_store ≡ some s
    → count (resource mutex s.store_mutex) rs ≡ 0
    → 0 < (run_main path port workers w (parsed log config) p).1.faults
unfolding run_main ◌>>=◌ finish_main manager_resources settled
run_main_double_free path port workers log config w rs p m s h e es en =
    let x = initialize_manager path port workers (parsed log config) p in
    let keeps = (initialize_manager-Keeps path port workers log config rs).runs p h in
    let after : Holds (initialized rs (false, m)) x.1 =
      subst (λ r. Holds (initialized rs r) x.1) e keeps in
    let breaks = >>-Breaks_first (cleanup_manager-Breaks m s es) (pure-Shrinks false) in
    let lacks = after.counts (resource mutex s.store_mutex) in
    let fault =
      breaks.breaks x.1 (omega (arith, lacks, count-handles s.store_mutex (settled m) rs, en)) in
    subst (λ r. 0 < (finish_main w r x.1).1.faults) (sym e) (omega (arith, fault))

-- When the log file cannot be opened, which is the first call, `main` closes the standard input.
pub run_main_closes_stdin :
    (path : Bytes) (port : ℤ) (workers log config : ℕ) (w : Workload) (rs : List Resource)
    (p : Process)
    → Holds (path_resources log config (resource standard 0 ∷ rs)) p
    → p.answer p.clock ≡ false
    → Holds rs (run_main path port workers w (parsed log config) p).1
unfolding run_main finish_main initialize_manager pure manager_resources handle_resources parsed
    descriptor_resources
run_main_closes_stdin path port workers log config w rs p h e =
    let m = parsed log config in
    let q = (ask (fopen path) p).1 in
    let failed : initialize_manager path port workers m p ≡ ((false, m), q) =
      >>=-eq (acquire_by (fopen path) file) _ p q none (acquire_denied (fopen path) file p e) in
    let ended : run_main path port workers w m p ≡ (cleanup_manager m >> pure false) q =
      >>=-eq (initialize_manager path port workers m) (finish_main w) p q (false, m) failed in
    let held =
      (ask-Keeps (fopen path) (path_resources log config (resource standard 0 ∷ rs))).runs p h in
    subst (λ x. Holds rs x.1) (sym ended)
      ((same-Keeps _ (manager_resources m rs) (λ r. omega arith)
          (cleanup_and_return-Keeps m rs false)).runs
        q held)
