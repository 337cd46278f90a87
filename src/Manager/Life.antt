-- ===== src/Manager/Life.antt =====
-- nfs_manager_logic.c and nfs_manager.c: what the manager opens, allocates and starts from the start
-- of `main` behind `parse_arguments` to its end, and what it gives back.
pub mod Serve
pub mod Main
pub mod Laws
use nfs_system.Base.{
  ℕ, List, [], ◌∷◌, ◌++◌, Option, none, some, Bool, true, false, ℤ, if◌then◌else◌,
}
use nfs_system.Text.{Bytes}
use nfs_system.Process.{
  Sys, pure, ◌>>=◌, ◌>>◌, acquire_by, fopen, release, Resource, resource, socket, file, memory,
  standard,
}
use nfs_system.Process.Laws.{owning, grant}
use nfs_system.Net.Sockets.{create_server_socket}
use nfs_system.Pool.Life.{PoolParts, create_thread_pool, destroy_thread_pool, pool_resources}
use nfs_system.Store.Life.{
  StoreParts, create_sync_info_store, destroy_sync_info_store, store_resources,
}

-- `server_sockfd`: -1, or 0 as `memset` leaves it, which is the standard input, or a socket.
pub data Descriptor : Type 0 where
  closed standard_input : Descriptor
  opened : ℕ → Descriptor

-- The fields of `nfs_manager_t` that refer to something. NULL is `none`.
pub record ManagerParts : Type 0 where
  pub logfile_path : Option ℕ
  pub config_file_path : Option ℕ
  pub logfile : Option ℕ
  pub server_sockfd : Descriptor
  pub thread_pool : Option PoolParts
  pub sync_store : Option StoreParts

-- After `parse_arguments`, with the two paths that `strdup` returned.
unfoldable pub parsed : ℕ → ℕ → ManagerParts
parsed log config = record {
  logfile_path = some log;
  config_file_path = some config;
  logfile = none;
  server_sockfd = standard_input;
  thread_pool = none;
  sync_store = none;
}

unfoldable pub descriptor_resources : Descriptor → List Resource → List Resource
descriptor_resources closed rs = rs
descriptor_resources standard_input rs = resource standard 0 ∷ rs
descriptor_resources (opened fd) rs = resource socket fd ∷ rs

-- What the paths, the log file and the socket refer to, and besides it `rs`.
unfoldable pub handle_resources : ManagerParts → List Resource → List Resource
handle_resources m rs =
    let paths = grant memory (grant memory rs m.config_file_path) m.logfile_path in
    grant file (descriptor_resources m.server_sockfd paths) m.logfile

-- What all fields refer to, and besides it `rs`.
unfoldable pub manager_resources : ManagerParts → List Resource → List Resource
manager_resources m rs =
    owning pool_resources (owning store_resources (handle_resources m rs) m.sync_store)
      m.thread_pool

-- The log's path, the port and the number of workers. The result is 0 or -1. When the pool cannot be
-- created the store is destroyed, but `sync_store` keeps its address.
unfoldable pub initialize_manager : Bytes → ℤ → ℕ → ManagerParts → Sys (Bool × ManagerParts)
initialize_manager path port worker_limit m = do
  logfile ← acquire_by (fopen path) file
  elim logfile [
    | none ↦ pure (false, m)
    | some log ↦ do
      server ← create_server_socket port
      elim server [
        | none ↦ pure (false, record m { logfile = some log; server_sockfd = closed })
        | some fd ↦ do
          store ← create_sync_info_store
          elim store [
            | none ↦ pure (false, record m { logfile = some log; server_sockfd = opened fd })
            | some s ↦
                let ready : ManagerParts = record m {
                  logfile = some log;
                  server_sockfd = opened fd;
                  sync_store = some s;
                } in
                do
                  pool ← create_thread_pool worker_limit
                  elim pool [
                    | none ↦ destroy_sync_info_store (some s) >> pure (false, ready)
                    | some t ↦ pure (true, record ready { thread_pool = some t })
                  ]
          ]
      ]
  ]

unfoldable pub close_file : Option ℕ → Sys Unit
close_file none = pure tt
close_file (some f) = release (resource file f)

unfoldable pub close_descriptor : Descriptor → Sys Unit
close_descriptor closed = pure tt
close_descriptor standard_input = release (resource standard 0)
close_descriptor (opened fd) = release (resource socket fd)

unfoldable pub free_path : Option ℕ → Sys Unit
free_path none = pure tt
free_path (some path) = release (resource memory path)

unfoldable pub cleanup_manager : ManagerParts → Sys Unit
cleanup_manager m = do
  destroy_thread_pool m.thread_pool
  destroy_sync_info_store m.sync_store
  close_file m.logfile
  close_descriptor m.server_sockfd
  free_path m.logfile_path
  free_path m.config_file_path
