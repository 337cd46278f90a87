-- ===== src/Client.antt =====
-- nfs_client_logic.c: the file server. The file system is what the server needs of it: the content
-- of each regular file, and a disk that says which files can be created and which writes succeed.
pub mod Serve
pub mod Ends
pub mod Commands
pub mod Push
pub mod Upload
pub mod Accept
pub mod Pull
pub mod Main
pub mod Sends
use nfs_system.Base.{
  ℕ, zero, suc, ◌+◌, ◌-◌, List, [], ◌∷◌, ◌++◌, Option, none, some, Bool, true, false, ◌==◌, ltb,
  leb, not, if◌then◌else◌, length, take, drop, ℤ, pos, negsuc,
}
use nfs_system.Text.{Bytes, codes, str_eq}
use nfs_system.Text.Decimal.{print_nat}
use nfs_system.Net.{Stream, recv, bounded}
use nfs_system.Spec.{max_path}
pub use nfs_system.Spec.{max_buffer_size}
use nfs_system.Pool.{max_filename}

-- The operating system below the server. `opens` is whether `open(…, O_WRONLY | O_CREAT | O_TRUNC)`
-- succeeds, `accepts` whether `write` stores these bytes whole, `is_regular` whether `stat` succeeds
-- on a path and finds a regular file, `entries` what `opendir` and `readdir` give, and
-- `error_text` what `strerror` says of a file that cannot be opened.
pub record Disk : Type 0 where
  pub opens : Bytes → Bool
  pub accepts : Bytes → Bytes → Bool
  pub is_regular : Bytes → Bool
  pub entries : Bytes → Option (List Bytes)
  pub error_text : Bytes

-- `current_fd` is the path of the file that it is open on, which is written at its end.
pub record FileServer : Type 0 where
  pub files : Bytes → Option Bytes
  pub current_fd : Option Bytes

-- The path without its leading `/`.
unfoldable pub relative : Bytes → Bytes
relative [] = []
relative (c ∷ rest) = if c == b'/' then rest else c ∷ rest

abbrev pub store : (Bytes → Option Bytes) → Bytes → Bytes → Bytes → Option Bytes
store files path content p = if str_eq path p then some content else files p

content_of : Option Bytes → Bytes
content_of none = []
content_of (some b) = b

-- `write(current_fd, …)`, when it succeeds.
unfoldable pub append : FileServer → Bytes → Bytes → FileServer
unfolding content_of
append s path b = record s { files = store s.files path (content_of (s.files path) ++ b) }

unfoldable pub is_hidden : Bytes → Bool
is_hidden [] = false
is_hidden (c ∷ rest) = c == b'.'

-- The loop over `read`: at most `n` bytes at a time. Each round sends what it has read whole.
-- There are at most as many rounds as bytes.
unfoldable pub chunks : ℕ → ℕ → Bytes → List Bytes
chunks zero n s = []
chunks (suc fuel) n [] = []
chunks (suc fuel) n (x ∷ s) = take n (x ∷ s) ∷ chunks fuel n (drop n (x ∷ s))

-- How much one round asks for.
unfoldable pub to_receive : ℕ → ℕ
to_receive left = if ltb left max_buffer_size then left else max_buffer_size

module _ (disk : Disk) where
  -- The loop that receives a chunk, with `left` bytes still to come. A call that gets no more
  -- bytes or cannot write returns. Each round receives at least one byte: `left` rounds suffice.
  unfoldable pub receive_chunk : ℕ → ℕ → Bytes → Stream → FileServer → Stream × FileServer
  receive_chunk zero left path stream s = (stream, s)
  receive_chunk (suc fuel) left path stream s = elim (ltb 0 left) [
    | false ↦ (stream, s)
    | true ↦ elim (recv (to_receive left) stream) [
      | none ↦ (stream, s)
      | some (b, rest) ↦ elim (disk.accepts path b) [
        | false ↦ (rest, s)
        | true ↦ receive_chunk fuel (left - length b) path rest (append s path b)
      ]
    ]
  ]

  unfoldable pub open_file : FileServer → Bytes → FileServer
  open_file s path =
      if disk.opens path
      then record s { files = store s.files path []; current_fd = some path }
      else record s { current_fd = none }

  -- The part of `handle_push_command` that stores a chunk, for the open file.
  unfoldable pub write_chunk : FileServer → Option Bytes → ℤ → Stream → Stream × FileServer
  write_chunk s none chunk_size stream = (stream, s)
  write_chunk s (some path) (pos n) stream = receive_chunk n n path stream s
  write_chunk s (some path) (negsuc n) stream = (stream, s)

  -- The socket is taken as it is left by the command, and returned as the handler leaves it.
  unfoldable pub handle_push_command : FileServer → Bytes → ℤ → Stream → Stream × FileServer
  unfolding open_file
  handle_push_command s file_path (negsuc zero) stream = (stream, open_file s (relative file_path))
  handle_push_command s file_path (pos zero) stream = (stream, record s { current_fd = none })
  handle_push_command s file_path (pos (suc n)) stream =
      write_chunk s s.current_fd (pos (suc n)) stream
  handle_push_command s file_path (negsuc (suc n)) stream =
      write_chunk s s.current_fd (negsuc (suc n)) stream

  unfoldable pub list_entries : Bytes → List Bytes → List Bytes
  list_entries dir [] = codes ".\n" ∷ []
  list_entries dir (name ∷ names) =
      let rest = list_entries dir names in
      if is_hidden name
      then rest
      else if disk.is_regular (bounded max_path (dir ++ b'/' ∷ name))
      then bounded (max_filename + 2) (name ++ 10 ∷ []) ∷ rest
      else rest

  -- What the handler sends, one text for each `send`.
  unfoldable pub handle_list_command : Bytes → List Bytes
  unfolding list_entries is_hidden
  handle_list_command dir_path = elim (disk.entries (relative dir_path)) [
    | none ↦ []
    | some names ↦ list_entries (relative dir_path) names
  ]

  unfoldable pub handle_pull_command : FileServer → Bytes → List Bytes
  handle_pull_command s file_path = elim (s.files (relative file_path)) [
    | none ↦ bounded 64 (codes "-1 " ++ disk.error_text) ∷ []
    | some content ↦
        bounded 32 (print_nat (length content) ++ 32 ∷ [])
        ∷ chunks (length content) max_buffer_size content
  ]
