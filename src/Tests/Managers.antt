-- ===== src/Tests/Managers.antt =====
-- The manager with one directory pair.
use nfs_system.Base.{
  ℕ, ◌<◌, List, [], ◌∷◌, ◌++◌, none, some, true, false, pos, length, ◌≡◌, ◌≢◌, refl, arith, to_int,
  to_long,
}
use nfs_system.Text.{Bytes, codes, str_eq}
use nfs_system.Text.Words.{skip_spaces, is_space, scan_words, scan_word, take_word}
use nfs_system.Text.Decimal.{is_digit}
use nfs_system.Text.Number.{atoi, atol, signed, scan_digits}
use nfs_system.Net.{Stream, flatten, bounded, c_string}
use nfs_system.Spec.{DirectorySpec, parse_directory_spec}
use nfs_system.Spec.Laws.{Spells, parse_directory_spec_iff}
use nfs_system.Store.{SyncInfo, find_sync_info, find_first, same_directory}
use nfs_system.Client.{handle_list_command, list_entries, is_hidden, relative}
use nfs_system.Manager.{
  World, Manager, handle_add_command, handle_cancel_command, start_directory_sync, has_empty_field,
  is_empty,
}
use nfs_system.Manager.Signals.{flagged, signal_stops}
use nfs_system.Manager.Console.{
  handle_command, connected, main_signalled, arrived, timed_out, run_manager, Event, dispatch,
  respond, invalid_response, is_serving, signalled, over, still_open, stopped,
  handle_console_connection, serve_consoles,
}
use nfs_system.Manager.Runs.{SoundRan, run_manager-SoundRan}
use nfs_system.Manager.Listing.{IsFilename, visible}
use nfs_system.Manager.Start.{Started, start_directory_sync-Started, start_directory_sync_first}
use nfs_system.Manager.Commands.{
  FailsForGood, CancelledForGood, handle_add_command-FailsForGood,
  handle_cancel_command-CancelledForGood,
}
use nfs_system.Tests.Server.{disk}

abbrev source : DirectorySpec
source = record { host = codes "h"; port = pos 80; dir = codes "/a" }

abbrev target : DirectorySpec
target = record { host = codes "h"; port = pos 81; dir = codes "/b" }

abbrev pub world : Stream → World
world answer = record { connects = λ d. true; list_sent = λ d. true; answer = λ d. answer; now = 5 }

abbrev dead_world : World
dead_world = record (world []) { connects = λ d. false }

abbrev pub idle : Manager
idle = record {
  sync_store = record { entries = []; count = 0 };
  offered = [];
  pool_shutdown = false;
  shutdown_requested = false;
  shutdown_flag = false;
  log = [];
}

abbrev pub info : SyncInfo
info = record {
  source = source;
  target = target;
  active = true;
  last_sync_time = 5;
  error_count = 0;
}

abbrev with_pair : Manager
with_pair = record idle { sync_store = record { entries = info ∷ []; count = 1 } }

run_manager-SoundRan_example : SoundRan (
    run_manager ((world [], codes "/a@h:80 /b@h:81\n") ∷ []) (
      connected [] (arrived (world []) (codes "add /c@h:82 /b@h:81") ∷ timed_out ∷ [])
      ∷ main_signalled
      ∷ []))
run_manager-SoundRan_example = run_manager-SoundRan ((world [], codes "/a@h:80 /b@h:81\n") ∷ []) (
    connected [] (arrived (world []) (codes "add /c@h:82 /b@h:81") ∷ timed_out ∷ [])
    ∷ main_signalled
    ∷ [])

pub one_letter : (c : ℕ) → c ≢ 10 → c ≢ 0 → IsFilename (c ∷ [])
one_letter c ne nz = record {
  some_bytes = λ e. cc;
  one_line = (ne, tt);
  no_nul = (nz, tt);
  fits = omega arith;
}

abbrev two_letters : Bytes
two_letters = codes ".g"

pub hidden_name : IsFilename two_letters
hidden_name = record {
  some_bytes = λ e. cc;
  one_line = ((λ e. cc), ((λ e. cc), tt));
  no_nul = ((λ e. cc), ((λ e. cc), tt));
  fits = omega arith;
}

abbrev pub names : List Bytes
names = codes "f" ∷ codes ".g" ∷ codes "h" ∷ []

pub full : has_empty_field info ≡ false
unfolding has_empty_field is_empty
full = refl

pub short : length (flatten (handle_list_command disk (codes "/a"))) < 8192
unfolding handle_list_command list_entries is_hidden bounded
short = omega arith

start_directory_sync-Started_example :
    Started idle info (visible disk (relative (codes "/a")) names) (
      start_directory_sync (world (flatten (handle_list_command disk (codes "/a")) ∷ [])) idle info)
start_directory_sync-Started_example =
    start_directory_sync-Started (world (flatten (handle_list_command disk (codes "/a")) ∷ [])) idle
      info disk names full refl refl refl
      (
        one_letter b'f' (λ e. cc) (λ e. cc),
        (hidden_name, (one_letter b'h' (λ e. cc) (λ e. cc), tt)),
      )
      refl short refl

found : visible disk (relative (codes "/a")) names ≡ codes "f" ∷ codes "h" ∷ []
unfolding is_hidden
found = refl

start_directory_sync_first_example :
    Started idle info
      (codes "f" ∷ [])
      (start_directory_sync (world (handle_list_command disk (codes "/a"))) idle info)
start_directory_sync_first_example =
    start_directory_sync_first (world (handle_list_command disk (codes "/a"))) idle info disk names
      (codes "h" ∷ []) (codes "f") full refl refl refl
      (
        one_letter b'f' (λ e. cc) (λ e. cc),
        (hidden_name, (one_letter b'h' (λ e. cc) (λ e. cc), tt)),
      )
      found refl refl

spelled :
    (name : ℕ)
    → name ≢ b'@'
    → Spells (47 ∷ name ∷ codes "@h:80") (record source { dir = 47 ∷ name ∷ [] })
unfolding atoi atol skip_spaces is_space signed scan_digits is_digit to_long to_int
spelled name plain = record {
  digits = codes "80";
  cut = refl;
  dir_plain = ((λ e. cc), (plain, tt));
  host_plain = ((λ e. cc), tt);
  dir_fits = omega arith;
  host_fits = omega arith;
  port_read = refl;
  port_positive = refl;
}

parse_source : parse_directory_spec (codes "/a@h:80") ≡ some source
parse_source = (parse_directory_spec_iff (codes "/a@h:80") source).1 (spelled b'a' (λ e. cc))

parse_target : parse_directory_spec (codes "/b@h:80") ≡ some (record source { dir = codes "/b" })
parse_target =
    (parse_directory_spec_iff (codes "/b@h:80") (record source { dir = codes "/b" })).1
      (spelled b'b' (λ e. cc))

abbrev text : Bytes
text = codes "/a@h:80"

abbrev other_text : Bytes
other_text = codes "/b@h:80"

handle_add_command-FailsForGood_example :
    FailsForGood idle source
      (handle_add_command dead_world idle text other_text)
      (world [])
      text
      other_text
unfolding find_sync_info find_first
handle_add_command-FailsForGood_example =
    handle_add_command-FailsForGood dead_world (world []) idle text other_text other_text source
      (record source { dir = codes "/b" }) (record source { dir = codes "/b" }) parse_source
      parse_target parse_target refl refl

in_store : find_sync_info with_pair.sync_store source ≢ none
unfolding find_sync_info find_first same_directory str_eq
in_store e = cc

handle_cancel_command-CancelledForGood_example :
    CancelledForGood with_pair source
      (handle_cancel_command with_pair text)
      (world [])
      text
      other_text
handle_cancel_command-CancelledForGood_example =
    handle_cancel_command-CancelledForGood (world []) with_pair text other_text source
      (record source { dir = codes "/b" }) parse_source parse_target in_store

-- A console sends a word that is no command, and then a signal comes.
abbrev one_word : List Event
one_word = timed_out ∷ arrived dead_world (codes "list") ∷ []

one_word_open :
    handle_console_connection one_word idle [] []
    ≡ still_open idle (codes "list") (codes "Invalid command: list\n" ∷ [])
unfolding handle_console_connection handle_command dispatch c_string scan_words scan_word
    skip_spaces take_word is_space str_eq respond invalid_response bounded is_serving
one_word_open = refl

idle_serves : is_serving idle ≡ true
unfolding is_serving
idle_serves = refl

abbrev more_words : List Event
more_words = arrived dead_world (codes "add /a@h:80 /b@h:81") ∷ []

signal_stops_example :
    (handle_console_connection (one_word ++ signalled ∷ more_words) idle [] []
      ≡ over (flagged idle) (codes "Invalid command: list\n" ∷ []))
    × (serve_consoles
          (connected [] (one_word ++ signalled ∷ more_words) ∷ connected [] more_words ∷ [])
          idle
        ≡ stopped (flagged idle))
    × (serve_consoles (main_signalled ∷ connected [] more_words ∷ []) idle ≡ stopped (flagged idle))
signal_stops_example =
    signal_stops one_word more_words (connected [] more_words ∷ []) idle idle [] (codes "list")
      (codes "Invalid command: list\n" ∷ []) idle_serves one_word_open
