-- ===== src/Spec.antt =====
-- utils.c: `parse_directory_spec` and `parse_config_line`. The pointers that the functions test
-- for NULL are never NULL here. A result -1 is `none`; what a failed call leaves in its output
-- arrays is read by no caller.
pub mod Laws
pub mod Config
use nfs_system.Base.{
  ℕ, List, [], ◌∷◌, ◌++◌, Option, none, some, length, leb, if◌then◌else◌, ℤ, is_positive, Exec,
  done, ◌>>=◌,
}
use nfs_system.Text.{Bytes}
use nfs_system.Text.Search.{strchr}
use nfs_system.Text.Words.{scan_words}
use nfs_system.Text.Decimal.{print_int}
use nfs_system.Text.Number.{atoi}

-- include/common.h
abbrev pub max_path : ℕ
max_path = 1024

abbrev pub max_host_size : ℕ
max_host_size = 256

abbrev pub max_buffer_size : ℕ
max_buffer_size = 8192

abbrev pub max_command_size : ℕ
max_command_size = 4096

pub record DirectorySpec : Type 0 where
  pub host : Bytes
  pub port : ℤ
  pub dir : Bytes

-- From the text behind the `@` on.
unfoldable pub parse_host_port : Bytes → Bytes → Option DirectorySpec
parse_host_port dir rest = elim (strchr b':' rest) [
  | none ↦ none
  | some (host, digits) ↦
      let port = atoi digits in
      if leb max_host_size (length host)
      then none
      else if is_positive port
      then some (record { host = host; port = port; dir = dir })
      else none
]

unfoldable pub parse_directory_spec : Bytes → Option DirectorySpec
unfolding parse_host_port
parse_directory_spec spec = elim (strchr b'@' spec) [
  | none ↦ none
  | some (dir, rest) ↦ if leb max_path (length dir) then none else parse_host_port dir rest
]

parse_pair : List Bytes → Option (DirectorySpec × DirectorySpec)
parse_pair (source ∷ target ∷ []) = elim (parse_directory_spec source) [
  | none ↦ none
  | some s ↦ elim (parse_directory_spec target) [ none ↦ none | some t ↦ some (s, t) ]
]
parse_pair _ = none

pub parse_config_line : Bytes → Exec (Option (DirectorySpec × DirectorySpec))
parse_config_line line = do
  words ← scan_words (max_path ∷ max_path ∷ []) line
  done (parse_pair words)

-- The format `%s@%s:%d` that the manager's messages write a directory in.
unfoldable pub print_spec : DirectorySpec → Bytes
print_spec s = s.dir ++ b'@' ∷ (s.host ++ b':' ∷ print_int s.port)
