-- ===== src/Manager/Life/Laws.antt =====
-- What the manager holds while it serves and at its end.
use nfs_system.Base.{ℕ, List, [], ◌∷◌, ◌++◌, Option, none, some, Bool, true, false, ◌≡◌, refl, sym}
use nfs_system.Spec.{DirectorySpec}
use nfs_system.Process.{
  pure, ◌>>=◌, ◌>>◌, acquire_call, accept, release, Resource, resource, socket, file, memory, send,
  recv, standard,
}
use nfs_system.Process.Laws.{
  Keeps, grant, owning, count-middle, pure-Keeps, >>-Keeps, >>=-Keeps, acquire-then, opened-then,
  ask-then, if-Keeps, release-Keeps, same-Keeps,
}
use nfs_system.Net.Sockets.{connect_to_server-Keeps}
use nfs_system.Pool.{SyncJob}
use nfs_system.Pool.Life.{PoolParts, free_sync_job, pool_resources}
use nfs_system.Pool.Life.Laws.{count-queued, count-dequeued, destroy_thread_pool-Keeps}
use nfs_system.Store.Life.{
  StoreParts, free_sync_info, store_resources, count-added, destroy_sync_info_store-Keeps,
}
use nfs_system.Transfer.Life.{sync_single_file-Keeps}
use nfs_system.Manager.Life.{
  ManagerParts, Descriptor, closed, standard_input, opened, handle_resources, manager_resources,
  descriptor_resources, close_file, close_descriptor, free_path, cleanup_manager,
}
use nfs_system.Manager.Life.Serve.{
  Act, adds, works, connects, queue_files, start_directory_sync, add_pair, work, serve_console, act,
  run_acts,
}

close_and_return-Keeps :
    {A : Type 0} (fd : ℕ) (a : A) (post : A → List Resource)
    → Keeps (resource socket fd ∷ post a) (release (resource socket fd) >> pure a) post
close_and_return-Keeps fd a post =
    >>-Keeps (post a) (release-Keeps (resource socket fd) (post a)) (pure-Keeps a post)

-- What the store and the pool hold, and besides it `rs`.
abbrev pub live : List Resource → StoreParts × PoolParts → List Resource
live rs x = pool_resources x.1 ++ (store_resources x.0 ++ rs)

close_file-Keeps :
    (f : Option ℕ) (rs : List Resource) → Keeps (grant file rs f) (close_file f) (λ _. rs)
unfolding close_file
close_file-Keeps none rs = pure-Keeps tt (λ _. rs)
close_file-Keeps (some f) rs = release-Keeps (resource file f) rs

close_descriptor-Keeps :
    (d : Descriptor) (rs : List Resource)
    → Keeps (descriptor_resources d rs) (close_descriptor d) (λ _. rs)
unfolding close_descriptor descriptor_resources
close_descriptor-Keeps closed rs = pure-Keeps tt (λ _. rs)
close_descriptor-Keeps standard_input rs = release-Keeps (resource standard 0) rs
close_descriptor-Keeps (opened fd) rs = release-Keeps (resource socket fd) rs

free_path-Keeps :
    (path : Option ℕ) (rs : List Resource) → Keeps (grant memory rs path) (free_path path) (λ _. rs)
unfolding free_path
free_path-Keeps none rs = pure-Keeps tt (λ _. rs)
free_path-Keeps (some path) rs = release-Keeps (resource memory path) rs

pub cleanup_manager-Keeps :
    (m : ManagerParts) (rs : List Resource)
    → Keeps (manager_resources m rs) (cleanup_manager m) (λ _. rs)
unfolding cleanup_manager manager_resources handle_resources
cleanup_manager-Keeps m rs =
    let config = grant memory rs m.config_file_path in
    let paths = grant memory config m.logfile_path in
    let sockets = descriptor_resources m.server_sockfd paths in
    let handles = grant file sockets m.logfile in
    let stored = owning store_resources handles m.sync_store in
    >>-Keeps stored (destroy_thread_pool-Keeps m.thread_pool stored) (
      >>-Keeps handles (destroy_sync_info_store-Keeps m.sync_store handles) (
        >>-Keeps sockets (close_file-Keeps m.logfile sockets) (
          >>-Keeps paths (close_descriptor-Keeps m.server_sockfd paths) (
            >>-Keeps config (free_path-Keeps m.logfile_path config)
              (free_path-Keeps m.config_file_path rs)))))

queue_files-Keeps :
    (files : List Bool) (t : PoolParts) (rs : List Resource)
    → Keeps (pool_resources t ++ rs) (queue_files files t) (λ u. pool_resources u ++ rs)
unfolding queue_files free_sync_job
queue_files-Keeps [] t rs = pure-Keeps t (λ u. pool_resources u ++ rs)
queue_files-Keeps (true ∷ rest) t rs =
    acquire-then (acquire_call memory) memory (queue_files-Keeps rest t rs) (λ j.
      let queued : PoolParts = record t { jobs = t.jobs ++ j ∷ [] } in
      same-Keeps _ (pool_resources queued ++ rs) (λ r. count-queued r j t rs)
        (queue_files-Keeps rest queued rs))
queue_files-Keeps (false ∷ rest) t rs =
    acquire-then (acquire_call memory) memory (queue_files-Keeps rest t rs) (λ j.
      >>-Keeps (pool_resources t ++ rs) (release-Keeps (resource memory j) (pool_resources t ++ rs))
        (queue_files-Keeps rest t rs))

-- With the connection to the source open, the files are queued and the connection is closed.
queue_and_close-Keeps :
    (fd : ℕ) (files : List Bool) (t : PoolParts) (rs : List Resource)
    → Keeps
        (resource socket fd ∷ (pool_resources t ++ rs))
        (queue_files files t >>= λ queued. release (resource socket fd) >> pure queued)
        (λ u. pool_resources u ++ rs)
queue_and_close-Keeps fd files t rs =
    let fds = resource socket fd ∷ rs in
    same-Keeps _ (pool_resources t ++ fds)
      (λ r. count-middle r (resource socket fd) (pool_resources t) rs)
      (>>=-Keeps (λ u. pool_resources u ++ fds) (queue_files-Keeps files t fds)
        (λ u.
          same-Keeps _ (resource socket fd ∷ (pool_resources u ++ rs))
            (λ r. sym (count-middle r (resource socket fd) (pool_resources u) rs))
            (close_and_return-Keeps fd u (λ v. pool_resources v ++ rs))))

start_directory_sync-Keeps :
    (valid : Bool) (source : DirectorySpec) (files : List Bool) (t : PoolParts) (rs : List Resource)
    → Keeps
        (pool_resources t ++ rs)
        (start_directory_sync valid source files t)
        (λ u. pool_resources u ++ rs)
unfolding start_directory_sync
start_directory_sync-Keeps valid source files t rs =
    let keeps = pure-Keeps t (λ u. pool_resources u ++ rs) in
    if-Keeps valid
      (opened-then (λ n. resource socket n ∷ [])
        (connect_to_server-Keeps source.host source.port (pool_resources t ++ rs)) keeps
        (λ fd.
          let closes = close_and_return-Keeps fd t (λ u. pool_resources u ++ rs) in
          ask-then (send fd) (ask-then (recv fd) (queue_and_close-Keeps fd files t rs) closes)
            closes))
      keeps

add_pair-Keeps :
    (added valid : Bool) (source : DirectorySpec) (files : List Bool) (x : StoreParts × PoolParts)
    (rs : List Resource)
    → Keeps (live rs x) (add_pair added valid source files x) (live rs)
unfolding add_pair free_sync_info
add_pair-Keeps true valid source files (s, t) rs =
    acquire-then (acquire_call memory) memory (pure-Keeps (s, t) (live rs)) (λ i.
      let more : StoreParts = record s { infos = i ∷ s.infos } in
      same-Keeps _ (live rs (more, t)) (λ r. count-added r i s (pool_resources t) rs)
        (>>=-Keeps (λ u. live rs (more, u))
          (start_directory_sync-Keeps valid source files t (store_resources more ++ rs))
          (λ u. pure-Keeps (more, u) (live rs))))
add_pair-Keeps false valid source files (s, t) rs =
    acquire-then (acquire_call memory) memory (pure-Keeps (s, t) (live rs)) (λ i.
      >>-Keeps (live rs (s, t)) (release-Keeps (resource memory i) (live rs (s, t)))
        (pure-Keeps (s, t) (live rs)))

work-Keeps :
    (job : SyncJob) (readable : Bool) (jobs : List ℕ) (t : PoolParts) (rs : List Resource)
    → t.jobs ≡ jobs
    → Keeps (pool_resources t ++ rs) (work job readable jobs t) (λ u. pool_resources u ++ rs)
unfolding work free_sync_job
work-Keeps job readable [] t rs e = pure-Keeps t (λ u. pool_resources u ++ rs)
work-Keeps job readable (j ∷ jobs) t rs e =
    let rest : PoolParts = record t { jobs = jobs } in
    let held = resource memory j ∷ (pool_resources rest ++ rs) in
    same-Keeps _ held (λ r. count-dequeued r j jobs t rs e)
      (>>-Keeps held (sync_single_file-Keeps job readable held) (
        >>-Keeps (pool_resources rest ++ rs)
          (release-Keeps (resource memory j) (pool_resources rest ++ rs))
          (pure-Keeps rest (λ u. pool_resources u ++ rs))))

act-Keeps :
    (a : Act) (x : StoreParts × PoolParts) (rs : List Resource)
    → Keeps (live rs x) (act a x) (live rs)
unfolding act serve_console
act-Keeps (adds added valid source files) x rs = add_pair-Keeps added valid source files x rs
act-Keeps (works job readable) (s, t) rs =
    >>=-Keeps (λ u. live rs (s, u))
      (work-Keeps job readable t.jobs t (store_resources s ++ rs) refl)
      (λ u. pure-Keeps (s, u) (live rs))
act-Keeps (connects server) x rs =
    acquire-then (accept server) socket (pure-Keeps x (live rs))
      (λ fd. close_and_return-Keeps fd x (live rs))

pub run_acts-Keeps :
    (acts : List Act) (x : StoreParts × PoolParts) (rs : List Resource)
    → Keeps (live rs x) (run_acts acts x) (live rs)
unfolding run_acts
run_acts-Keeps [] x rs = pure-Keeps x (live rs)
run_acts-Keeps (a ∷ acts) x rs =
    >>=-Keeps (live rs) (act-Keeps a x rs) (λ y. run_acts-Keeps acts y rs)
