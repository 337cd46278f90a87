-- ===== src/Tests/Lives.antt =====
-- Runs of the programs on an operating system that answers in a fixed way.
use nfs_system.Base.{ℕ, [], ◌∷◌, none, some, true, false, not, ◌==◌, pos, ◌≡◌, refl, ◌<◌}
use nfs_system.Text.{codes}
use nfs_system.Spec.{DirectorySpec}
use nfs_system.Process.{
  Process, pure, ◌>>=◌, ◌>>◌, ask, acquire_by, release, resource, memory, standard,
}
use nfs_system.Process.Laws.{Holds}
use nfs_system.Net.Sockets.{create_server_socket, open_listener}
use nfs_system.Pool.{SyncJob}
use nfs_system.Pool.Life.{create_thread_pool, start_workers, finish_pool}
use nfs_system.Store.Life.{StoreParts, create_sync_info_store, destroy_sync_info_store}
use nfs_system.Manager.Life.{ManagerParts, opened, parsed, initialize_manager}
use nfs_system.Manager.Life.Serve.{adds, works, connects}
use nfs_system.Manager.Life.Main.{Workload, run_main}
use nfs_system.Manager.Life.Main.Released.{is_settled, run_main-Released}
use nfs_system.Manager.Life.Main.Faults.{run_main_double_free, run_main_closes_stdin}

-- All calls succeed but the one of this number. Two paths and the standard input are held.
abbrev failing_at : ℕ → Process
failing_at k = record {
  answer = λ n. not (n == k);
  clock = 2;
  held = resource memory 0 ∷ resource memory 1 ∷ resource standard 0 ∷ [];
  faults = 0;
  calls = [];
}

failing_at-Holds :
    (k : ℕ)
    → Holds (resource memory 0 ∷ resource memory 1 ∷ resource standard 0 ∷ []) (failing_at k)
failing_at-Holds k = record { counts = λ r. refl; clean = refl }

abbrev source_dir : DirectorySpec
source_dir = record { host = codes "10.0.0.1"; port = pos 8000; dir = codes "/a" }

abbrev one_job : SyncJob
one_job = record { source = source_dir; target = source_dir; filename = codes "f" }

-- A line of the configuration with two files, one of which is copied while a console is connected.
abbrev workload : Workload
workload = record {
  config_path = codes "config";
  lines = adds true true source_dir (true ∷ true ∷ []) ∷ [];
  served = works one_job true ∷ connects 5 ∷ [];
}

-- The call 100 is never made.
initialized_at_100 :
    is_settled (initialize_manager (codes "log") (pos 7000) 2 (parsed 0 1) (failing_at 100)).0
    ≡ true
unfolding is_settled initialize_manager parsed acquire_by ask pure ◌>>=◌ create_server_socket
    open_listener create_sync_info_store create_thread_pool start_workers finish_pool
initialized_at_100 = refl

run_main-Released_example :
    Holds
      (resource standard 0 ∷ [])
      (run_main (codes "log") (pos 7000) 2 workload (parsed 0 1) (failing_at 100)).1
run_main-Released_example =
    run_main-Released (codes "log") (pos 7000) 2 0 1 workload (resource standard 0 ∷ [])
      (failing_at 100) (failing_at-Holds 100) initialized_at_100

-- The call 9 is the first `malloc` of `create_thread_pool`.
abbrev left_store : StoreParts
left_store = record { block = 7; store_mutex = 8; infos = [] }

abbrev left_manager : ManagerParts
left_manager = record {
  logfile_path = some 0;
  config_file_path = some 1;
  logfile = some 2;
  server_sockfd = opened 3;
  thread_pool = none;
  sync_store = some left_store;
}

failed_at_9 :
    (initialize_manager (codes "log") (pos 7000) 2 (parsed 0 1) (failing_at 9)).0
    ≡ (false, left_manager)
unfolding initialize_manager parsed acquire_by ask pure ◌>>=◌ ◌>>◌ create_server_socket
    open_listener create_sync_info_store create_thread_pool destroy_sync_info_store release
failed_at_9 = refl

run_main_double_free_example :
    0 < (run_main (codes "log") (pos 7000) 2 workload (parsed 0 1) (failing_at 9)).1.faults
run_main_double_free_example =
    run_main_double_free (codes "log") (pos 7000) 2 0 1 workload (resource standard 0 ∷ [])
      (failing_at 9) left_manager left_store (failing_at-Holds 9) failed_at_9 refl refl

-- The call 2 is `fopen`.
run_main_closes_stdin_example :
    Holds [] (run_main (codes "log") (pos 7000) 2 workload (parsed 0 1) (failing_at 2)).1
run_main_closes_stdin_example =
    run_main_closes_stdin (codes "log") (pos 7000) 2 0 1 workload [] (failing_at 2)
      (failing_at-Holds 2) refl
