-- ===== src/Console/Main.antt =====
-- nfs_console.c: `main`: its arguments, its log and its connection, and what it writes.
use nfs_system.Base.{
  ℕ, List, [], ◌∷◌, ◌++◌, Option, none, some, Bool, true, false, ℤ, pos, is_positive, int_eq,
  if◌then◌else◌,
}
use nfs_system.Text.{Bytes, codes, str_eq}
use nfs_system.Text.Number.{atoi}
use nfs_system.Process.{
  Sys, pure, ◌>>=◌, ◌>>◌, ask, acquire_by, fopen, release, Resource, resource, socket, file, send,
  recv,
}
use nfs_system.Process.Laws.{
  Keeps, pure-Keeps, >>-Keeps, acquire-then, opened-then, ask-then, release-Keeps,
}
use nfs_system.Net.Sockets.{
  connect_to_server, cleanup_socket, connect_to_server-Keeps, send_command, receive_response,
}
use nfs_system.Spec.{max_buffer_size}
use nfs_system.Log.{stamped}
use nfs_system.Console.{Line, skipped, sends}

-- The variables of `main` that the arguments set. NULL is `none`.
pub record ConsoleSettings : Type 0 where
  pub logfile_path : Option Bytes
  pub host : Option Bytes
  pub port : ℤ

unfoldable pub set_console_option : ConsoleSettings → Bytes → Bytes → Option ConsoleSettings
set_console_option m option value =
    if str_eq option (codes "-l")
    then some (record m { logfile_path = some value })
    else if str_eq option (codes "-h")
    then some (record m { host = some value })
    else if str_eq option (codes "-p")
    then (if is_positive (atoi value) then some (record m { port = atoi value }) else none)
    else none

-- The loop over the arguments behind the program's name; `none` is the jump to `usage`.
unfoldable pub set_console_options : ConsoleSettings → List Bytes → Option ConsoleSettings
set_console_options m [] = some m
set_console_options m (option ∷ []) = none
set_console_options m (option ∷ value ∷ rest) = elim (set_console_option m option value) [
  | none ↦ none
  | some m1 ↦ set_console_options m1 rest
]

-- The test behind the loop: the log's path, the host and the port.
unfoldable pub check_console : Option Bytes → Option Bytes → ℤ → Option (Bytes × (Bytes × ℤ))
check_console (some path) (some host) port =
    if int_eq port (pos 0) then none else some (path, (host, port))
check_console _ _ port = none

unfoldable pub console_arguments : List Bytes → Option (Bytes × (Bytes × ℤ))
console_arguments arguments =
    elim (set_console_options (record { logfile_path = none; host = none; port = pos 0 })
      arguments) [ none ↦ none | some m ↦ check_console m.logfile_path m.host m.port ]

-- What `console_log_command` writes, where the log is open.
unfoldable pub console_log_command : Bytes → Bytes → Bytes
console_log_command timestamp command = stamped timestamp (codes "Command " ++ command)

-- `send_command_to_manager`, by what `send` returns and what `recv` is offered: -1, or the text that
-- it shows to the user and the line that it writes to the log.
unfoldable pub send_command_to_manager :
    Bytes → Option ℕ → Option Bytes → Bytes → Option (Bytes × Bytes)
send_command_to_manager timestamp sent arrived command =
    if send_command sent command
    then elim (receive_response max_buffer_size arrived) [
      | none ↦ none
      | some response ↦
          some
            (response, codes "[" ++ (timestamp ++ (codes "] " ++ (codes "Response: " ++ response))))
    ]
    else none

-- The loop, over what each line comes to: a command is sent and answered, unless a call fails.
unfoldable pub exchange : ℕ → List Line → Sys Unit
exchange fd [] = pure tt
exchange fd (skipped ∷ lines) = exchange fd lines
exchange fd (sends command last ∷ lines) = do
  sent ← ask (send fd)
  if sent
      then (do
        received ← ask (recv fd)
        if received then (elim last [ true ↦ pure tt | false ↦ exchange fd lines ]) else pure tt)
      else pure tt

-- `main` behind the arguments. The result is the exit status 0, or 1.
unfoldable pub console_main : Bytes → Bytes → ℤ → List Line → Sys Bool
console_main path host port lines = do
  logfile ← acquire_by (fopen path) file
  elim logfile [
    | none ↦ pure false
    | some log ↦ do
      sockfd ← connect_to_server host port
      elim sockfd [
        | none ↦ release (resource file log) >> pure false
        | some fd ↦ do
          exchange fd lines
          cleanup_socket (some fd)
          release (resource file log)
          pure true
      ]
  ]

exchange-Keeps :
    (fd : ℕ) (lines : List Line) (rs : List Resource) → Keeps rs (exchange fd lines) (λ _. rs)
unfolding exchange
exchange-Keeps fd [] rs = pure-Keeps tt (λ _. rs)
exchange-Keeps fd (skipped ∷ lines) rs = exchange-Keeps fd lines rs
exchange-Keeps fd (sends command true ∷ lines) rs =
    let ends = pure-Keeps tt (λ _. rs) in ask-then (send fd) (ask-then (recv fd) ends ends) ends
exchange-Keeps fd (sends command false ∷ lines) rs =
    let ends = pure-Keeps tt (λ _. rs) in
    ask-then (send fd) (ask-then (recv fd) (exchange-Keeps fd lines rs) ends) ends

pub console_main-Keeps :
    (path host : Bytes) (port : ℤ) (lines : List Line) (rs : List Resource)
    → Keeps rs (console_main path host port lines) (λ _. rs)
unfolding console_main cleanup_socket
console_main-Keeps path host port lines rs =
    acquire-then (fopen path) file (pure-Keeps false (λ _. rs)) (λ log.
      let logs = resource file log ∷ rs in
      let closes =
        λ (b : Bool). >>-Keeps rs (release-Keeps (resource file log) rs) (pure-Keeps b (λ _. rs)) in
      opened-then (λ n. resource socket n ∷ []) (connect_to_server-Keeps host port logs)
        (closes false)
        (λ fd.
          let both = resource socket fd ∷ logs in
          >>-Keeps both (exchange-Keeps fd lines both)
            (>>-Keeps logs (release-Keeps (resource socket fd) logs) (closes true))))
