-- ===== src/Manager/Life/Main.antt =====
-- nfs_manager.c: `main` behind `parse_arguments`, by what it holds: the manager is set up, loads its
-- configuration, serves and is cleaned up.
pub mod Released
pub mod Faults
use nfs_system.Base.{ℕ, List, Option, none, some, Bool, true, false, ℤ, if◌then◌else◌}
use nfs_system.Text.{Bytes}
use nfs_system.Process.{Sys, pure, ◌>>=◌, ◌>>◌}
use nfs_system.Pool.Life.{PoolParts}
use nfs_system.Store.Life.{StoreParts}
use nfs_system.Manager.Life.{ManagerParts, initialize_manager, cleanup_manager}
use nfs_system.Manager.Life.Serve.{Act, run_acts, load_config_file}

-- The store and the pool as the commands and the workers left them.
unfoldable pub with_parts : ManagerParts → StoreParts × PoolParts → ManagerParts
with_parts m (s, t) = record m { sync_store = some s; thread_pool = some t }

-- What a file's path and its lines come to, and what happens in the main loop.
pub record Workload : Type 0 where
  pub config_path : Bytes
  pub lines : List Act
  pub served : List Act

-- From `load_config_file` on. The result is the exit status 0, or 1.
unfoldable pub load_and_serve : Workload → ManagerParts → StoreParts × PoolParts → Sys Bool
load_and_serve w m x = do
  (loaded, y) ← load_config_file w.config_path w.lines x
  if loaded
      then (do z ← run_acts w.served y; cleanup_manager (with_parts m z); pure true)
      else cleanup_manager (with_parts m y) >> pure false

unfoldable pub start_serving :
    Workload → ManagerParts → Option StoreParts → Option PoolParts → Sys Bool
start_serving w m (some s) (some t) = load_and_serve w m (s, t)
start_serving w m _ _ = cleanup_manager m >> pure false

-- What follows `initialize_manager`, by its result.
unfoldable pub finish_main : Workload → Bool × ManagerParts → Sys Bool
finish_main w (true, m) = start_serving w m m.sync_store m.thread_pool
finish_main w (false, m) = cleanup_manager m >> pure false

-- The log's path, the port and the number of workers are those of `initialize_manager`.
unfoldable pub run_main : Bytes → ℤ → ℕ → Workload → ManagerParts → Sys Bool
run_main log_path port worker_limit w m =
    initialize_manager log_path port worker_limit m >>= finish_main w
