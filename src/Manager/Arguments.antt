-- ===== src/Manager/Arguments.antt =====
-- nfs_manager_logic.c: `parse_arguments`. The messages to `stderr` are not modelled.
pub mod Accepted
use nfs_system.Base.{
  ℕ, zero, suc, ◌<◌, ◌^◌, ◌-◌, List, [], ◌∷◌, Option, none, some, Bool, true, false, if◌then◌else◌,
  ℤ, pos, negsuc, is_positive, is_negative, int_eq, Option-cases, inl, inr, subst, ◌≡◌, ◌≢◌, refl,
  ap, arith, sym, ◌∙◌, append-nil,
}
use nfs_system.Text.{Bytes, codes, str_eq}
use nfs_system.Text.Number.{atoi}
use nfs_system.Text.Decimal.{print_nat}
use nfs_system.Text.RoundTrip.{atoi-print_nat}

-- The fields of `nfs_manager_t` that the arguments set. A path that is NULL is `none`.
pub record Settings : Type 0 where
  pub logfile_path : Option Bytes
  pub config_file_path : Option Bytes
  pub worker_limit : ℤ
  pub port : ℤ
  pub buffer_size : ℤ

abbrev default_workers : ℕ
default_workers = 5

unfoldable pub default_settings : Settings
default_settings = record {
  logfile_path = none;
  config_file_path = none;
  worker_limit = pos default_workers;
  port = pos 0;
  buffer_size = pos 0;
}

-- One round of the loop: an option and its argument.
unfoldable pub set_option : Settings → Bytes → Bytes → Option Settings
set_option m option value =
    if str_eq option (codes "-l")
    then some (record m { logfile_path = some value })
    else if str_eq option (codes "-c")
    then some (record m { config_file_path = some value })
    else if str_eq option (codes "-n")
    then (if is_positive (atoi value) then some (record m { worker_limit = atoi value }) else none)
    else if str_eq option (codes "-p")
    then (if is_positive (atoi value) then some (record m { port = atoi value }) else none)
    else if str_eq option (codes "-b")
    then (if is_positive (atoi value) then some (record m { buffer_size = atoi value }) else none)
    else none

-- The loop over `argv` behind the program's name.
unfoldable pub set_options : Settings → List Bytes → Option Settings
set_options m [] = some m
set_options m (option ∷ []) = none
set_options m (option ∷ value ∷ rest) = elim (set_option m option value) [
  | none ↦ none
  | some m1 ↦ set_options m1 rest
]

is_set : Option Bytes → Bool
is_set none = false
is_set (some path) = true

-- The test behind the loop.
unfoldable pub check_settings : Settings → Option Settings
unfolding is_set
check_settings m =
    if is_set m.logfile_path
    then if is_set m.config_file_path
      then if int_eq m.port (pos 0)
        then none
        else if int_eq m.buffer_size (pos 0)
        then none
        else some m
      else none
    else none

unfoldable pub parse_arguments : List Bytes → Option Settings
parse_arguments arguments = elim (set_options default_settings arguments) [
  | none ↦ none
  | some m ↦ check_settings m
]
