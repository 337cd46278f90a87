-- ===== src/Console/Shutdown.antt =====
-- The command shutdown, from the console to the loop of the manager's `main`.
use nfs_system.Base.{List, [], ◌∷◌, ◌++◌, Bool, true, ◌≡◌, refl, done}
use nfs_system.Text.{Bytes, codes, str_eq}
use nfs_system.Text.Words.{is_space, skip_spaces, take_word, scan_word, scan_words}
use nfs_system.Text.Search.{strchr}
use nfs_system.Net.{first_line, strip_prefix, c_string}
use nfs_system.Manager.{World, Manager, handle_shutdown_command, is_empty}
use nfs_system.Manager.Console.{
  dispatch, shut_down, handle_command, Event, arrived, over, handle_console_connection, is_serving,
  signal_handler, MainEvent, main_interrupted, main_timed_out, main_select_failed, accept_failed,
  main_signalled, connected, stopped, serve_consoles,
}
use nfs_system.Console.{
  strcpy, split_command, validate, process_user_command, full_command, is_newline, is_help, line_of,
  console_line, sends, run_console,
}

-- A manager that is told to stop ends its loop, whatever comes.
stops :
    (events : List MainEvent) (m : Manager)
    → serve_consoles events (handle_shutdown_command m) ≡ stopped (handle_shutdown_command m)
unfolding serve_consoles handle_shutdown_command is_serving signal_handler
stops [] m = refl
stops (main_interrupted ∷ events) m = refl
stops (main_timed_out ∷ events) m = refl
stops (main_select_failed ∷ events) m = refl
stops (accept_failed ∷ events) m = refl
stops (main_signalled ∷ events) m = stops events m
stops (connected command session ∷ events) m = refl

shutdown_line : console_line (codes "shutdown\n") ≡ done (sends (codes "shutdown") true)
unfolding console_line process_user_command split_command strcpy validate full_command is_newline
    is_help line_of first_line strip_prefix strchr str_eq is_empty
shutdown_line = refl

shutdown_received :
    (w : World) (m : Manager) (stale : Bytes)
    → handle_command w m stale (codes "shutdown") ≡ done (shut_down m (codes "shutdown"))
unfolding handle_command dispatch c_string scan_words scan_word skip_spaces take_word is_space
    str_eq
shutdown_received w m stale = refl

shutdown_session :
    (w : World) (m : Manager) (command : Bytes) (events : List Event) (out : List Bytes)
    → is_serving m ≡ true
    → handle_console_connection (arrived w (codes "shutdown") ∷ events) m command out
      ≡ over (handle_shutdown_command m) (out ++ codes "Shutting down manager...\n" ∷ [])
unfolding handle_console_connection shut_down
shutdown_session w m command events out h =
    rw (handle_console_connection, h, shutdown_received w m command)

-- The user types "shutdown": the console sends it as its last command, whatever lines follow; and a
-- manager that is serving, when it has received it, raises its flags and the pool's, answers, ends
-- the connection and stops, whatever the console still sends and whatever connections follow.
pub shutdown_stops :
    (w : World) (m : Manager) (command : Bytes) (inputs : List (Bytes × Bool)) (events : List Event)
    (later : List MainEvent)
    → is_serving m ≡ true
    → (run_console ((codes "shutdown\n", true) ∷ inputs) ≡ done (codes "shutdown" ∷ []))
      × (serve_consoles (connected command (arrived w (codes "shutdown") ∷ events) ∷ later) m
          ≡ stopped (handle_shutdown_command m))
unfolding run_console serve_consoles
shutdown_stops w m command inputs events later h = (
  rw (run_console, shutdown_line),
  rw (serve_consoles, h, shutdown_session w m command events [] h) (stops later m),
)
