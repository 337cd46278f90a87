-- ===== src/Manager/Runs.antt =====
-- The invariant over whole runs: the configuration file, the connections, the loop of `main`.
use nfs_system.Base.{
  ◌*◌, List, [], ◌∷◌, ◌++◌, Bool, true, false, if◌then◌else◌, done, >>=-eq-done, Exec-cases, ◌≡◌,
  arith, subst, Bool-cases, if_intro, inl, inr,
}
use nfs_system.Text.{Bytes, codes, str_eq}
use nfs_system.Text.Words.{scan_words}
use nfs_system.Net.{c_string}
use nfs_system.Spec.{max_path}
use nfs_system.Store.Valid.{create_sync_info_store-IsValid}
use nfs_system.Manager.{
  World, Manager, is_skipped, handle_add_command, handle_cancel_command, initialize_manager,
  load_config_file, load_config_line, config_words,
}
use nfs_system.Manager.Sound.{
  IsSound, handle_add_command-IsSound, handle_cancel_command-IsSound,
  handle_shutdown_command-IsSound,
}
use nfs_system.Manager.Console.{
  Handled, dispatch, shut_down, respond, invalid_response, add_response, cancel_response,
  handle_command, command_size, Event, interrupted, timed_out, select_failed, connection_closed,
  signalled, arrived, ConsoleServed, over, still_open, console_overran, signal_handler, is_serving,
  handle_console_connection, MainEvent, main_interrupted, main_timed_out, main_select_failed,
  accept_failed, main_signalled, connected, Ran, stopped, running, main_overran, in_connection,
  serve_consoles, run_manager,
}

shut_down-IsSound :
    (m : Manager) (command : Bytes) → IsSound m → IsSound (shut_down m command).manager
unfolding shut_down
shut_down-IsSound m command h = handle_shutdown_command-IsSound m h

respond-IsSound :
    (m : Manager) (command text : Bytes) → IsSound m → IsSound (respond m command text).manager
unfolding respond
respond-IsSound m command text h = h

-- The test that stands last in each case.
otherwise-IsSound :
    (b : Bool) (m : Manager) (command text : Bytes)
    → IsSound m
    → IsSound (if b then shut_down m command else respond m command text).manager
otherwise-IsSound true m command text h = shut_down-IsSound m command h
otherwise-IsSound false m command text h = respond-IsSound m command text h

choice-IsSound :
    (b : Bool) (x y : Handled)
    → IsSound x.manager
    → IsSound y.manager
    → IsSound (if b then x else y).manager
choice-IsSound true x y h k = h
choice-IsSound false x y h k = k

dispatch-IsSound :
    (w : World) (m : Manager) (stale buffer : Bytes) (words : List Bytes)
    → IsSound m
    → IsSound (dispatch w m stale buffer words).manager
unfolding dispatch
dispatch-IsSound w m stale buffer [] h =
    otherwise-IsSound (str_eq stale (codes "shutdown")) m stale (invalid_response buffer) h
dispatch-IsSound w m stale buffer (command ∷ []) h =
    otherwise-IsSound (str_eq command (codes "shutdown")) m command (invalid_response buffer) h
dispatch-IsSound w m stale buffer (command ∷ arg1 ∷ []) h =
    choice-IsSound (str_eq command (codes "cancel"))
      (respond (handle_cancel_command m arg1).1 command
        (cancel_response arg1 (handle_cancel_command m arg1).0))
      _
      (respond-IsSound _ command (cancel_response arg1 (handle_cancel_command m arg1).0)
        (handle_cancel_command-IsSound m arg1 h))
      (otherwise-IsSound (str_eq command (codes "shutdown")) m command (invalid_response buffer) h)
dispatch-IsSound w m stale buffer (command ∷ arg1 ∷ arg2 ∷ more) h =
    choice-IsSound (str_eq command (codes "add"))
      (respond (handle_add_command w m arg1 arg2).1 command
        (add_response arg1 (handle_add_command w m arg1 arg2).0))
      _
      (respond-IsSound _ command (add_response arg1 (handle_add_command w m arg1 arg2).0)
        (handle_add_command-IsSound w m arg1 arg2 h))
      (otherwise-IsSound (str_eq command (codes "shutdown")) m command (invalid_response buffer) h)

signal_handler-IsSound : (m : Manager) → IsSound m → IsSound (signal_handler m)
unfolding signal_handler
signal_handler-IsSound m h = record { valid = h.valid; registered = h.registered }

pub data SoundServed : ConsoleServed → Type 0 where
  sound_over : (m : Manager) (out : List Bytes) → IsSound m → SoundServed (over m out)
  sound_open :
      (m : Manager) (c : Bytes) (out : List Bytes) → IsSound m → SoundServed (still_open m c out)
  sound_overran : SoundServed console_overran

ended-SoundServed :
    (m : Manager) (command : Bytes) (out : List Bytes)
    → IsSound m
    → SoundServed (if is_serving m then still_open m command out else over m out)
ended-SoundServed m command out h =
    if_intro SoundServed (is_serving m) (λ e. sound_open m command out h) (λ e. sound_over m out h)

-- Sessions from a sound manager.
handle_console_connection-SoundServed :
    (events : List Event) (m : Manager) (command : Bytes) (out : List Bytes)
    → IsSound m
    → SoundServed (handle_console_connection events m command out)
unfolding handle_console_connection handle_command
handle_console_connection-SoundServed [] m command out h = ended-SoundServed m command out h
handle_console_connection-SoundServed (interrupted ∷ events) m command out h =
    if_intro SoundServed (is_serving m)
      (λ e. handle_console_connection-SoundServed events m command out h) (λ e. sound_over m out h)
handle_console_connection-SoundServed (timed_out ∷ events) m command out h =
    if_intro SoundServed (is_serving m)
      (λ e. handle_console_connection-SoundServed events m command out h) (λ e. sound_over m out h)
handle_console_connection-SoundServed (select_failed ∷ events) m command out h = sound_over m out h
handle_console_connection-SoundServed (connection_closed ∷ events) m command out h =
    sound_over m out h
handle_console_connection-SoundServed (signalled ∷ events) m command out h =
    handle_console_connection-SoundServed events (signal_handler m) command out
      (signal_handler-IsSound m h)
handle_console_connection-SoundServed (arrived w b ∷ events) m command out h =
    elim (Bool-cases (is_serving m)) [
      | inr e ↦ rw (handle_console_connection, e) (sound_over m out h)
      | inl e ↦
          elim (Exec-cases (scan_words (command_size ∷ max_path ∷ max_path ∷ []) (c_string b))) [
            | inl q ↦ rw (handle_console_connection, e, handle_command, q) sound_overran
            | inr (words, q) ↦
                let d = dispatch w m command (c_string b) words in
                let sound = dispatch-IsSound w m command (c_string b) words h in
                rw (handle_console_connection, e, handle_command, q)
                  (elim (Bool-cases d.ends) [
                    | inl ends ↦ rw ends (sound_over d.manager (out ++ d.response ∷ []) sound)
                    | inr goes ↦ rw goes (
                        handle_console_connection-SoundServed events d.manager d.command
                          (out ++ d.response ∷ []) sound)
                  ])
          ]
    ]

pub data SoundRan : Ran → Type 0 where
  sound_stopped : (m : Manager) → IsSound m → SoundRan (stopped m)
  sound_running : (m : Manager) → IsSound m → SoundRan (running m)
  sound_in_connection : (m : Manager) → IsSound m → SoundRan (in_connection m)
  sound_main_overran : SoundRan main_overran

after :
    (events : List MainEvent)
    → ((m : Manager) → IsSound m → SoundRan (serve_consoles events m))
    → (r : ConsoleServed) → SoundServed r
    → SoundRan (elim r [
      | console_overran ↦ main_overran
      | still_open m1 rest out ↦ in_connection m1
      | over m1 out ↦ serve_consoles events m1
    ])
after events next _ (sound_over m1 out k) = next m1 k
after events next _ (sound_open m1 c out k) = sound_in_connection m1 k
after events next _ sound_overran = sound_main_overran

serve_consoles-SoundRan :
    (events : List MainEvent) (m : Manager) → IsSound m → SoundRan (serve_consoles events m)
unfolding serve_consoles
serve_consoles-SoundRan [] m h =
    if_intro SoundRan (is_serving m) (λ e. sound_running m h) (λ e. sound_stopped m h)
serve_consoles-SoundRan (main_interrupted ∷ events) m h =
    if_intro SoundRan (is_serving m) (λ e. serve_consoles-SoundRan events m h)
      (λ e. sound_stopped m h)
serve_consoles-SoundRan (main_timed_out ∷ events) m h =
    if_intro SoundRan (is_serving m) (λ e. serve_consoles-SoundRan events m h)
      (λ e. sound_stopped m h)
serve_consoles-SoundRan (main_select_failed ∷ events) m h = sound_stopped m h
serve_consoles-SoundRan (accept_failed ∷ events) m h =
    if_intro SoundRan (is_serving m) (λ e. serve_consoles-SoundRan events m h)
      (λ e. sound_stopped m h)
serve_consoles-SoundRan (main_signalled ∷ events) m h =
    serve_consoles-SoundRan events (signal_handler m) (signal_handler-IsSound m h)
serve_consoles-SoundRan (connected command session ∷ events) m h =
    elim (Bool-cases (is_serving m)) [
      | inr e ↦ rw (serve_consoles, e) (sound_stopped m h)
      | inl e ↦
          rw (serve_consoles, e)
            (after events (λ m1 k. serve_consoles-SoundRan events m1 k)
              (handle_console_connection session m command [])
              (handle_console_connection-SoundServed session m command [] h))
    ]

config_words-IsSound :
    (w : World) (m : Manager) (words : List Bytes) → IsSound m → IsSound (config_words w m words)
unfolding config_words
config_words-IsSound w m [] h = h
config_words-IsSound w m (a ∷ []) h = h
config_words-IsSound w m (a ∷ b ∷ []) h = handle_add_command-IsSound w m a b h
config_words-IsSound w m (a ∷ b ∷ c ∷ more) h = h

load_config_line-IsSound :
    (w : World) (m m1 : Manager) (line : Bytes)
    → IsSound m
    → load_config_line w m line ≡ done m1
    → IsSound m1
unfolding load_config_line is_skipped
load_config_line-IsSound w m m1 line h e = elim (Bool-cases (is_skipped line)) [
  | inl skip ↦ subst IsSound (ground arith) h
  | inr parsed ↦ elim (Exec-cases (scan_words (max_path * 2 ∷ max_path * 2 ∷ []) line)) [
    | inl q ↦ absurd (ground arith)
    | inr (words, q) ↦ subst IsSound (ground arith) (config_words-IsSound w m words h)
  ]
]

load_config_file-IsSound :
    (lines : List (World × Bytes)) (m m1 : Manager)
    → IsSound m
    → load_config_file m lines ≡ done m1
    → IsSound m1
unfolding load_config_file
load_config_file-IsSound [] m m1 h e = subst IsSound (ground arith) h
load_config_file-IsSound ((w, line) ∷ lines) m m1 h e =
    let (m2, first, rest) = >>=-eq-done (load_config_line w m line) _ e in
    load_config_file-IsSound lines m2 m1 (load_config_line-IsSound w m m2 line h first) rest

initialize_manager-IsSound : IsSound initialize_manager
unfolding initialize_manager
initialize_manager-IsSound = record { valid = create_sync_info_store-IsValid; registered = tt }

-- A run of the manager, on any configuration lines, consoles, signals, answers of servers and
-- failures of calls, never leaves its invariant, so long as no array is overrun: the count of the
-- store is the number of its entries, no source stands in it twice, and every job that has entered
-- the queue belongs to a source in the store.
pub run_manager-SoundRan :
    (lines : List (World × Bytes)) (events : List MainEvent) → SoundRan (run_manager lines events)
unfolding run_manager
run_manager-SoundRan lines events = elim (Exec-cases (load_config_file initialize_manager lines)) [
  | inl e ↦ rw (run_manager, e) sound_main_overran
  | inr (m, e) ↦
      rw (run_manager, e)
        (serve_consoles-SoundRan events m
          (load_config_file-IsSound lines initialize_manager m initialize_manager-IsSound e))
]
