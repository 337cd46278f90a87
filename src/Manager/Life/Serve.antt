-- ===== src/Manager/Life/Serve.antt =====
-- nfs_manager_logic.c and thread_pool.c: what the commands, the workers and the connections of a
-- manager that serves take and give back, one after the other. What the texts and the store decide
-- comes as an argument.
use nfs_system.Base.{ℕ, List, [], ◌∷◌, ◌++◌, none, some, Bool, true, false, if◌then◌else◌}
use nfs_system.Text.{Bytes}
use nfs_system.Spec.{DirectorySpec}
use nfs_system.Process.{
  Sys, pure, ◌>>=◌, ◌>>◌, ask, acquire, acquire_by, fopen, accept, release, resource, socket, file,
  memory, send, recv,
}
use nfs_system.Net.Sockets.{connect_to_server}
use nfs_system.Pool.{SyncJob}
use nfs_system.Pool.Life.{PoolParts, free_sync_job}
use nfs_system.Store.Life.{StoreParts, free_sync_info}
use nfs_system.Transfer.Life.{sync_single_file}

-- One file for each line of the answer to LIST, by whether `enqueue_sync_job` returns 0 for it.
unfoldable pub queue_files : List Bool → PoolParts → Sys PoolParts
queue_files [] t = pure t
queue_files (accepted ∷ rest) t = do
  job ← acquire memory
  elim job [
    | none ↦ queue_files rest t
    | some j ↦ elim accepted [
      | true ↦ queue_files rest (record t { jobs = t.jobs ++ j ∷ [] })
      | false ↦ free_sync_job (some j) >> queue_files rest t
    ]
  ]

-- `valid` says that no field of the entry is empty.
unfoldable pub start_directory_sync : Bool → DirectorySpec → List Bool → PoolParts → Sys PoolParts
start_directory_sync valid source files t =
    if valid
    then (do
      source_fd ← connect_to_server source.host source.port
      elim source_fd [
        | none ↦ pure t
        | some fd ↦ do
          sent ← ask (send fd)
          if sent
              then (do
                received ← ask (recv fd)
                if received
                    then (do
                      queued ← queue_files files t
                      release (resource socket fd)
                      pure queued)
                    else release (resource socket fd) >> pure t)
              else release (resource socket fd) >> pure t
      ])
    else pure t

-- `handle_add_command` for specifications that parse and whose source is not in the store. `added`
-- says whether `add_sync_info` returns 0.
unfoldable pub add_pair :
    Bool → Bool → DirectorySpec → List Bool → StoreParts × PoolParts → Sys (StoreParts × PoolParts)
add_pair added valid source files (s, t) = do
  info ← acquire memory
  elim info [
    | none ↦ pure (s, t)
    | some i ↦ elim added [
      | false ↦ free_sync_info (some i) >> pure (s, t)
      | true ↦ do
        queued ← start_directory_sync valid source files t
        pure (record s { infos = i ∷ s.infos }, queued)
    ]
  ]

-- One round of `worker_thread`, for the oldest job of the queue.
unfoldable pub work : SyncJob → Bool → List ℕ → PoolParts → Sys PoolParts
work job readable [] t = pure t
work job readable (j ∷ jobs) t = do
  sync_single_file job readable
  free_sync_job (some j)
  pure (record t { jobs = jobs })

-- `accept`, and `handle_console_connection`, which closes the connection at its end.
unfoldable pub serve_console : ℕ → StoreParts × PoolParts → Sys (StoreParts × PoolParts)
serve_console server x = do
  client_fd ← acquire_by (accept server) socket
  elim client_fd [ none ↦ pure x | some fd ↦ release (resource socket fd) >> pure x ]

pub data Act : Type 0 where
  adds : Bool → Bool → DirectorySpec → List Bool → Act
  works : SyncJob → Bool → Act
  connects : ℕ → Act

unfoldable pub act : Act → StoreParts × PoolParts → Sys (StoreParts × PoolParts)
act (adds added valid source files) x = add_pair added valid source files x
act (works job readable) (s, t) = do worked ← work job readable t.jobs t; pure (s, worked)
act (connects server) x = serve_console server x

unfoldable pub run_acts : List Act → StoreParts × PoolParts → Sys (StoreParts × PoolParts)
run_acts [] x = pure x
run_acts (a ∷ acts) x = act a x >>= run_acts acts

-- `load_config_file`, with what its lines bring about; NULL from `fopen` is the result -1.
unfoldable pub load_config_file :
    Bytes → List Act → StoreParts × PoolParts → Sys (Bool × (StoreParts × PoolParts))
load_config_file path acts x = do
  config_file ← acquire_by (fopen path) file
  elim config_file [
    | none ↦ pure (false, x)
    | some f ↦ do loaded ← run_acts acts x; release (resource file f); pure (true, loaded)
  ]
