-- ===== src/Manager.antt =====
-- nfs_manager_logic.c: the state of the manager and its commands. A `World` is what the program
-- meets outside itself while one command runs. A line of the log is the call of `log_message` that
-- writes it; prints are not modelled. No pointer is NULL, and the memory does not run out.
pub mod Arguments
pub mod Console
pub mod Listing
pub mod Start
pub mod Sound
pub mod Runs
pub mod Kept
pub mod Commands
pub mod Life
pub mod Signals
pub mod Mirror
use nfs_system.Base.{
  ℕ, zero, suc, ◌+◌, ◌-◌, ◌*◌, List, [], ◌∷◌, ◌++◌, Option, none, some, Bool, true, false, ◌==◌,
  ◌||◌, ◌&&◌, not, if◌then◌else◌, Exec, done, overrun, ◌>>=◌,
}
use nfs_system.Text.{Bytes, codes, str_eq}
use nfs_system.Text.Words.{scan_words}
use nfs_system.Net.{Stream, recv, c_string}
use nfs_system.Spec.{DirectorySpec, parse_directory_spec, max_path}
use nfs_system.Store.{
  Status, success, refused, failure, SyncInfo, SyncInfoStore, create_sync_info_store,
  create_sync_info, find_sync_info, add_sync_info, deactivate_sync_info,
}
use nfs_system.Pool.{SyncJob, create_sync_job}
use nfs_system.Transfer.{max_buffer_size}

-- Whether `connect_to_server` reaches a server, whether `send_command` succeeds, what the server
-- then sends, and the time.
pub record World : Type 0 where
  pub connects : DirectorySpec → Bool
  pub list_sent : DirectorySpec → Bool
  pub answer : DirectorySpec → Stream
  pub now : ℕ

pub data LogLine : Type 0 where
  connect_failed : DirectorySpec → LogLine
  added_file enqueue_failed : SyncJob → LogLine
  already_in_queue start_failed sync_stopped not_synchronized : DirectorySpec → LogLine
  sync_started : DirectorySpec → DirectorySpec → LogLine
  shutting_down waiting_for_workers processing_remaining shutdown_complete : LogLine

-- `nfs_manager_t` while it serves. `offered` holds the jobs that `enqueue_sync_job` has put in the
-- queue, oldest first: where the queue is full the call waits for room. `pool_shutdown` is the
-- pool's flag, and `shutdown_flag` the global variable.
pub record Manager : Type 0 where
  pub sync_store : SyncInfoStore
  pub offered : List SyncJob
  pub pool_shutdown : Bool
  pub shutdown_requested : Bool
  pub shutdown_flag : Bool
  pub log : List LogLine

-- What `initialize_manager` sets up when nothing fails.
unfoldable pub initialize_manager : Manager
initialize_manager = record {
  sync_store = create_sync_info_store;
  offered = [];
  pool_shutdown = false;
  shutdown_requested = false;
  shutdown_flag = false;
  log = [];
}

unfoldable pub log_message : Manager → LogLine → Manager
log_message m line = record m { log = m.log ++ line ∷ [] }

unfoldable pub is_empty : Bytes → Bool
is_empty [] = true
is_empty (x ∷ s) = false

abbrev add_piece : Bytes → List Bytes → List Bytes
add_piece [] rest = rest
add_piece (x ∷ s) rest = (x ∷ s) ∷ rest

-- The text up to the first newline, and the pieces behind it.
unfoldable pub pieces : Bytes → Bytes × List Bytes
pieces [] = ([], [])
pieces (x ∷ s) =
    let rest = pieces s in if x == 10 then ([], add_piece rest.0 rest.1) else (x ∷ rest.0, rest.1)

-- All that `strtok(…, "\n")` returns.
unfoldable pub tokens : Bytes → List Bytes
tokens s = add_piece (pieces s).0 (pieces s).1

-- The tokens that the loop takes: up to the first that is ".".
unfoldable pub listed : List Bytes → List Bytes
listed [] = []
listed (line ∷ rest) =
    let others = listed rest in if str_eq line (codes ".") then [] else line ∷ others

-- A job for one file. The queue takes none once it shuts down.
unfoldable pub offer : Manager → SyncInfo → Bytes → Manager
offer m info line =
    let job = create_sync_job info.source info.target line in
    if m.pool_shutdown
    then log_message m (enqueue_failed job)
    else log_message (record m { offered = m.offered ++ job ∷ [] }) (added_file job)

unfoldable pub offer_all : Manager → SyncInfo → List Bytes → Manager
offer_all m info [] = m
offer_all m info (line ∷ lines) = offer_all (offer m info line) info lines

unfoldable pub has_empty_field : SyncInfo → Bool
has_empty_field info =
    is_empty info.source.host
    || is_empty info.source.dir
    || is_empty info.target.host
    || is_empty info.target.dir

unfoldable pub start_directory_sync : World → Manager → SyncInfo → Status × Manager
start_directory_sync w m info =
    if has_empty_field info
    then (failure, m)
    else if not (w.connects info.source)
    then (failure, log_message m (connect_failed info.source))
    else if not (w.list_sent info.source)
    then (failure, m)
    else elim (recv (max_buffer_size - 1) (w.answer info.source)) [
      | none ↦ (failure, m)
      | some (buffer, rest) ↦ (success, offer_all m info (listed (tokens (c_string buffer))))
    ]

-- What `handle_add_command` returns when `start_directory_sync` has returned.
unfoldable pub started : DirectorySpec → DirectorySpec → Status × Manager → Status × Manager
started source target (success, m) = (success, log_message m (sync_started source target))
started source target (refused, m) = (failure, log_message m (start_failed source))
started source target (failure, m) = (failure, log_message m (start_failed source))

-- From the result of `add_sync_info` on.
unfoldable pub added :
    World
    → Manager
    → DirectorySpec
    → DirectorySpec
    → SyncInfo
    → Status × SyncInfoStore
    → Status × Manager
added w m source target info (success, s) =
    started source target (start_directory_sync w (record m { sync_store = s }) info)
added w m source target info (refused, s) = (failure, record m { sync_store = s })
added w m source target info (failure, s) = (failure, record m { sync_store = s })

-- `handle_add_command` behind its parsing.
unfoldable pub add_pair : World → Manager → DirectorySpec → DirectorySpec → Status × Manager
add_pair w m source target = elim (find_sync_info m.sync_store source) [
  | some _ ↦ (refused, log_message m (already_in_queue source))
  | none ↦
      let info = create_sync_info source target w.now in
      added w m source target info (add_sync_info m.sync_store info)
]

unfoldable pub handle_add_command : World → Manager → Bytes → Bytes → Status × Manager
handle_add_command w m source_spec target_spec = elim (parse_directory_spec source_spec) [
  | none ↦ (failure, m)
  | some source ↦ elim (parse_directory_spec target_spec) [
    | none ↦ (failure, m)
    | some target ↦ add_pair w m source target
  ]
]

-- From the result of `deactivate_sync_info` on.
unfoldable pub cancelled : Manager → DirectorySpec → Status × SyncInfoStore → Status × Manager
cancelled m source (success, s) =
    (success, log_message (record m { sync_store = s }) (sync_stopped source))
cancelled m source (refused, s) =
    (refused, log_message (record m { sync_store = s }) (not_synchronized source))
cancelled m source (failure, s) =
    (refused, log_message (record m { sync_store = s }) (not_synchronized source))

unfoldable pub handle_cancel_command : Manager → Bytes → Status × Manager
handle_cancel_command m source_spec = elim (parse_directory_spec source_spec) [
  | none ↦ (failure, m)
  | some source ↦ cancelled m source (deactivate_sync_info m.sync_store source)
]

-- `signal_shutdown` raises the pool's flag.
unfoldable pub handle_shutdown_command : Manager → Manager
handle_shutdown_command m = record m {
  pool_shutdown = true;
  shutdown_requested = true;
  shutdown_flag = true;
  log =
      m.log ++ shutting_down ∷ waiting_for_workers ∷ processing_remaining ∷ shutdown_complete ∷ [];
}

-- A line of the configuration file, as `fgets` delivers it.
unfoldable pub is_skipped : Bytes → Bool
is_skipped [] = false
is_skipped (c ∷ line) = c == 10 || c == b'#'

unfoldable pub config_words : World → Manager → List Bytes → Manager
config_words w m (source ∷ target ∷ []) = (handle_add_command w m source target).1
config_words w m _ = m

unfoldable pub load_config_line : World → Manager → Bytes → Exec Manager
unfolding is_skipped
load_config_line w m line = if is_skipped line then done m else do
  words ← scan_words (max_path * 2 ∷ max_path * 2 ∷ []) line
  done (config_words w m words)

-- The loop over the lines, each with the world that it meets.
unfoldable pub load_config_file : Manager → List (World × Bytes) → Exec Manager
load_config_file m [] = done m
load_config_file m ((w, line) ∷ lines) = do
  m1 ← load_config_line w m line
  load_config_file m1 lines
