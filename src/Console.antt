-- ===== src/Console.antt =====
-- nfs_console.c: the commands of the user, and the loop of `main` behind its set-up. A line is what
-- `fgets` delivers. Prints and the console's log are not modelled.
pub mod Laws
pub mod Shutdown
pub mod Bounds
pub mod Main
use nfs_system.Base.{
  ℕ, ◌*◌, List, [], ◌∷◌, ◌++◌, Option, none, some, Bool, true, false, ◌==◌, leb, if◌then◌else◌,
  length, Exec, done, overrun, ◌>>=◌,
}
use nfs_system.Text.{Bytes, codes, str_eq}
use nfs_system.Text.Search.{strchr}
use nfs_system.Text.Words.{scan_words}
use nfs_system.Net.{first_line, bounded, strip_prefix}
use nfs_system.Spec.{max_path}
use nfs_system.Transfer.{max_command_size}
use nfs_system.Manager.{is_empty}
use nfs_system.Manager.Console.{command_size}

-- `strcpy(array, s)` into an array of `n` bytes.
unfoldable pub strcpy : ℕ → Bytes → Exec Bytes
strcpy n s = if leb n (length s) then overrun else done s

-- The command and its arguments, as the two arrays of `main` take them.
unfoldable pub split_command : Bytes → Exec (Bytes × Bytes)
split_command line = elim (strchr 32 line) [
  | some (command, args) ↦ do
    c ← strcpy command_size command
    a ← strcpy (max_path * 2) args
    done (c, a)
  | none ↦ do c ← strcpy command_size line; done (c, [])
]

unfoldable pub has_two : List Bytes → Bool
has_two (source ∷ target ∷ []) = true
has_two _ = false

-- The tests on the command; `none` is the result -1.
unfoldable pub validate : Bytes → Bytes → Exec (Option (Bytes × Bytes))
unfolding has_two
validate command args =
    if str_eq command (codes "add")
    then (do
      words ← scan_words (max_path ∷ max_path ∷ []) args
      done (if has_two words then some (command, args) else none))
    else if str_eq command (codes "cancel")
    then done (if is_empty args then none else some (command, args))
    else if str_eq command (codes "shutdown")
    then done (some (command, args))
    else done none

unfoldable pub process_user_command : Bytes → Exec (Option (Bytes × Bytes))
process_user_command input = do
  (command, args) ← split_command (first_line input)
  validate command args

-- What is sent to the manager.
unfoldable pub full_command : Bytes → Bytes → Bytes
full_command command args =
    if is_empty args then command else bounded max_command_size (command ++ 32 ∷ args)

unfoldable pub is_newline : Bytes → Bool
is_newline [] = false
is_newline (c ∷ rest) = c == 10

unfoldable pub is_help : Bytes → Bool
is_help input = elim (strip_prefix (codes "help") input) [ none ↦ false | some rest ↦ true ]

-- What one line makes the loop send: nothing, or a command, which is the last if it is shutdown.
pub data Line : Type 0 where
  skipped : Line
  sends : Bytes → Bool → Line

unfoldable pub line_of : Option (Bytes × Bytes) → Line
line_of none = skipped
line_of (some (command, args)) =
    sends (full_command command args) (str_eq command (codes "shutdown"))

unfoldable pub console_line : Bytes → Exec Line
unfolding is_newline is_help line_of
console_line input =
    if is_newline input
    then done skipped
    else if is_help input
    then done skipped
    else do r ← process_user_command input; done (line_of r)

-- The loop, over the lines and whether the exchange with the manager succeeds: the commands sent.
unfoldable pub run_console : List (Bytes × Bool) → Exec (List Bytes)
run_console [] = done []
run_console ((input, succeeds) ∷ inputs) =
    let rest = run_console inputs in
    do
      line ← console_line input
      elim line [
        | skipped ↦ rest
        | sends command last ↦ elim succeeds [
          | false ↦ done (command ∷ [])
          | true ↦ elim last [
            | true ↦ done (command ∷ [])
            | false ↦ do more ← rest; done (command ∷ more)
          ]
        ]
      ]
