-- ===== src/Client/Serve.antt =====
-- nfs_client_logic.c: `handle_client_connection`, the command loop of the file server.
use nfs_system.Base.{
  ℕ, zero, suc, ◌-◌, List, [], ◌++◌, Option, none, some, ltb, if◌then◌else◌, length, ℤ, Exec, done,
  overrun,
}
use nfs_system.Text.{Bytes, codes}
use nfs_system.Text.Words.{scan_word}
use nfs_system.Text.Number.{scan_int}
use nfs_system.Net.{Stream, recv, c_string, first_line, strip_prefix, skip_blanks}
use nfs_system.Spec.{max_path}
pub use nfs_system.Spec.{max_command_size}
use nfs_system.Client.{
  Disk, FileServer, handle_push_command, handle_list_command, handle_pull_command,
}

-- `sscanf(buffer, "PUSH %s %d", file_path, &chunk_size) >= 2`, behind the word PUSH.
unfoldable pub scan_push : Bytes → Exec (Option (Bytes × ℤ))
scan_push args = elim (scan_word args) [
  | none ↦ done none
  | some (path, rest) ↦
      if ltb (length path) max_path
      then elim (scan_int rest) [ none ↦ done none | some n ↦ done (some (path, n)) ]
      else overrun
]

-- What is left of the connection, the server, and what was sent.
abbrev pub Served : Type 0
Served = Stream × FileServer × List Bytes

pub data Session : Type 0 where
  closed : FileServer → List Bytes → Session
  overran unfinished : Session

module _ (disk : Disk) where
  unfoldable pub serve_push : FileServer → Bytes → Stream → Exec Served
  serve_push s args stream = elim (scan_push args) [
    | overrun ↦ overrun
    | done none ↦ done (stream, s, [])
    | done (some (path, n)) ↦
        let (rest, t) = handle_push_command disk s path n stream in done (rest, t, [])
  ]

  -- One round of the loop, from the command in the buffer on.
  unfoldable pub serve_command : FileServer → Bytes → Stream → Exec Served
  serve_command s line stream = elim (strip_prefix (codes "LIST") line) [
    | some args ↦ done (stream, s, handle_list_command disk (skip_blanks args))
    | none ↦ elim (strip_prefix (codes "PULL") line) [
      | some args ↦ done (stream, s, handle_pull_command disk s (skip_blanks args))
      | none ↦ elim (strip_prefix (codes "PUSH") line) [
        | some args ↦ serve_push s args stream
        | none ↦ done (stream, s, [])
      ]
    ]
  ]

  unfoldable pub handle_client_connection : ℕ → Stream → FileServer → List Bytes → Session
  handle_client_connection zero stream s out = unfinished
  handle_client_connection (suc fuel) stream s out = elim (recv (max_command_size - 1) stream) [
    | none ↦ closed s out
    | some (b, rest) ↦ elim (serve_command s (first_line (c_string b)) rest) [
      | overrun ↦ overran
      | done (rest', t, sent) ↦ handle_client_connection fuel rest' t (out ++ sent)
    ]
  ]
