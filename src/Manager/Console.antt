-- ===== src/Manager/Console.antt =====
-- nfs_manager_logic.c: `handle_console_connection`; nfs_manager.c: the loop of `main`. What
-- `select`, `recv` and `accept` come to is an event, and the arrival of a signal is one as well.
use nfs_system.Base.{
  ℕ, List, [], ◌∷◌, ◌++◌, Bool, true, false, ◌&&◌, not, if◌then◌else◌, Exec, done, overrun, ◌>>=◌,
}
use nfs_system.Text.{Bytes, codes, str_eq}
use nfs_system.Text.Words.{scan_words}
use nfs_system.Net.{c_string, bounded}
use nfs_system.Spec.{max_path}
use nfs_system.Store.{Status, success, refused, failure}
use nfs_system.Transfer.{max_buffer_size}
use nfs_system.Manager.{
  World, Manager, handle_add_command, handle_cancel_command, handle_shutdown_command,
  initialize_manager, load_config_file,
}

abbrev pub command_size : ℕ
command_size = 64

-- The state behind one command: the manager, what the array `command` holds, the response, and
-- whether the connection ends.
pub record Handled : Type 0 where
  pub manager : Manager
  pub command : Bytes
  pub response : Bytes
  pub ends : Bool

unfoldable pub respond : Manager → Bytes → Bytes → Handled
respond m command text = record {
  manager = m;
  command = command;
  response = bounded max_buffer_size text;
  ends = false;
}

unfoldable pub add_response : Bytes → Status → Bytes
add_response arg1 success = codes "Added sync pair successfully\n"
add_response arg1 refused = codes "Already in queue: " ++ (arg1 ++ codes "\n")
add_response arg1 failure = codes "Error adding sync pair\n"

unfoldable pub cancel_response : Bytes → Status → Bytes
cancel_response arg1 success = codes "Synchronization stopped for " ++ (arg1 ++ codes "\n")
cancel_response arg1 refused = codes "Directory not being synchronized: " ++ (arg1 ++ codes "\n")
cancel_response arg1 failure = codes "Error canceling synchronization\n"

unfoldable pub invalid_response : Bytes → Bytes
invalid_response buffer = codes "Invalid command: " ++ (buffer ++ codes "\n")

unfoldable pub shut_down : Manager → Bytes → Handled
shut_down m command = record {
  manager = handle_shutdown_command m;
  command = command;
  response = codes "Shutting down manager...\n";
  ends = true;
}

-- The tests on the words that `sscanf` has stored. Without a word the array `command` is as the
-- round before left it.
unfoldable pub dispatch : World → Manager → Bytes → Bytes → List Bytes → Handled
unfolding respond shut_down
dispatch w m stale buffer [] =
    if str_eq stale (codes "shutdown")
    then shut_down m stale
    else respond m stale (invalid_response buffer)
dispatch w m stale buffer (command ∷ []) =
    if str_eq command (codes "shutdown")
    then shut_down m command
    else respond m command (invalid_response buffer)
dispatch w m stale buffer (command ∷ arg1 ∷ []) =
    let (status, cancelled) = handle_cancel_command m arg1 in
    if str_eq command (codes "cancel")
    then respond cancelled command (cancel_response arg1 status)
    else if str_eq command (codes "shutdown")
    then shut_down m command
    else respond m command (invalid_response buffer)
dispatch w m stale buffer (command ∷ arg1 ∷ arg2 ∷ more) =
    let (status, added) = handle_add_command w m arg1 arg2 in
    if str_eq command (codes "add")
    then respond added command (add_response arg1 status)
    else if str_eq command (codes "shutdown")
    then shut_down m command
    else respond m command (invalid_response buffer)

-- From the bytes that one `recv` has stored on.
unfoldable pub handle_command : World → Manager → Bytes → Bytes → Exec Handled
handle_command w m stale received =
    let buffer = c_string received in
    do
      words ← scan_words (command_size ∷ max_path ∷ max_path ∷ []) buffer
      done (dispatch w m stale buffer words)

pub data Event : Type 0 where
  interrupted timed_out select_failed connection_closed signalled : Event
  arrived : World → Bytes → Event

-- How far a console's connection has come, the responses sent first to last.
pub data ConsoleServed : Type 0 where
  over : Manager → List Bytes → ConsoleServed
  still_open : Manager → Bytes → List Bytes → ConsoleServed
  console_overran : ConsoleServed

unfoldable pub signal_handler : Manager → Manager
signal_handler m = record m { shutdown_requested = true; shutdown_flag = true }

-- The loop's test.
unfoldable pub is_serving : Manager → Bool
is_serving m = not m.shutdown_requested && not m.shutdown_flag

-- One round's event, by the code of the loop; the events behind it are for the next rounds.
unfoldable pub handle_console_connection : List Event → Manager → Bytes → List Bytes → ConsoleServed
handle_console_connection [] m command out =
    if is_serving m then still_open m command out else over m out
handle_console_connection (interrupted ∷ events) m command out =
    let next = handle_console_connection events m command out in
    if is_serving m then next else over m out
handle_console_connection (timed_out ∷ events) m command out =
    let next = handle_console_connection events m command out in
    if is_serving m then next else over m out
handle_console_connection (select_failed ∷ events) m command out = over m out
handle_console_connection (connection_closed ∷ events) m command out = over m out
handle_console_connection (signalled ∷ events) m command out =
    handle_console_connection events (signal_handler m) command out
handle_console_connection (arrived w b ∷ events) m command out = elim (is_serving m) [
  | false ↦ over m out
  | true ↦ elim (handle_command w m command b) [
    | overrun ↦ console_overran
    | done h ↦ elim h.ends [
      | true ↦ over h.manager (out ++ h.response ∷ [])
      | false ↦ handle_console_connection events h.manager h.command (out ++ h.response ∷ [])
    ]
  ]
]

pub data MainEvent : Type 0 where
  main_interrupted main_timed_out main_select_failed accept_failed main_signalled : MainEvent
  connected : Bytes → List Event → MainEvent

-- The loop of `main`: one connection at a time, each with the bytes that `command` holds at first.
pub data Ran : Type 0 where
  stopped running : Manager → Ran
  main_overran : Ran
  in_connection : Manager → Ran

unfoldable pub serve_consoles : List MainEvent → Manager → Ran
serve_consoles [] m = if is_serving m then running m else stopped m
serve_consoles (main_interrupted ∷ events) m =
    let next = serve_consoles events m in if is_serving m then next else stopped m
serve_consoles (main_timed_out ∷ events) m =
    let next = serve_consoles events m in if is_serving m then next else stopped m
serve_consoles (main_select_failed ∷ events) m = stopped m
serve_consoles (accept_failed ∷ events) m =
    let next = serve_consoles events m in if is_serving m then next else stopped m
serve_consoles (main_signalled ∷ events) m = serve_consoles events (signal_handler m)
serve_consoles (connected command session ∷ events) m = elim (is_serving m) [
  | false ↦ stopped m
  | true ↦ elim (handle_console_connection session m command []) [
    | console_overran ↦ main_overran
    | still_open m1 rest out ↦ in_connection m1
    | over m1 out ↦ serve_consoles events m1
  ]
]

-- `main` of the manager: the configuration, then the consoles.
unfoldable pub run_manager : List (World × Bytes) → List MainEvent → Ran
run_manager lines events = elim (load_config_file initialize_manager lines) [
  | overrun ↦ main_overran
  | done m ↦ serve_consoles events m
]
