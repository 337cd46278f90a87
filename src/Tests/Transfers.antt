-- ===== src/Tests/Transfers.antt =====
-- `sync_single_file` between two servers.
use nfs_system.Base.{
  ◌<◌, ◌≤◌, [], ◌∷◌, ◌++◌, none, some, true, pos, to_long, length, ◌≡◌, refl, arith,
}
use nfs_system.Text.{Bytes, codes}
use nfs_system.Text.Words.{is_space, skip_spaces}
use nfs_system.Text.Decimal.{print_nat, digits, is_digit}
use nfs_system.Net.{flatten, bounded, recv, c_string}
use nfs_system.Protocol.{pull_line, push_start, push_end}
use nfs_system.Spec.{DirectorySpec, max_command_size}
use nfs_system.Pool.{SyncJob}
use nfs_system.Client.{handle_pull_command, chunks}
use nfs_system.Client.Commands.{IsPath}
use nfs_system.Transfer.{
  Peers, join_path, sync_single_file, Transfer, succeeded, send_chunk, transfer_file, transfer_data,
  split_header, relay,
}
use nfs_system.Transfer.Sent.{AllUp}
use nfs_system.Transfer.EndToEnd.{Copied, sync_single_file_passes_on, sync_single_file-Copied}
use nfs_system.Transfer.Failures.{Returned, sync_single_file-Returned}
use nfs_system.Transfer.Wire.{Wire, forward_single_file, send}
use nfs_system.Transfer.Wire.Refine.{on_wire, start_goes, forward_single_file-refines}
use nfs_system.Transfer.Wire.Broken.{breaks_behind, broken_behind, forward_single_file-lost}
use nfs_system.Net.Sockets.{send_command}
use nfs_system.Text.Number.{atol, signed, scan_digits}
use nfs_system.Store.{success}
use mathlib.Core.Option
use nfs_system.Tests.Server.{disk, empty, with_file}

abbrev directory : Bytes → DirectorySpec
directory dir = record { host = codes "h"; port = pos 80; dir = dir }

abbrev job : SyncJob
job = record {
  source = directory (codes "/a");
  target = directory (codes "/b");
  filename = codes "f";
}

abbrev pub peers : Peers
peers = record {
  source_connects = true;
  target_connects = true;
  pull_sent = true;
  start_sent = true;
}

pub peers-AllUp : AllUp peers
peers-AllUp = record {
  source_connects = refl;
  target_connects = refl;
  pull_sent = refl;
  start_sent = refl;
}

pub target-IsPath : IsPath (join_path (codes "/b") (codes "f"))
unfolding is_space join_path bounded
target-IsPath = record {
  word = ((λ e. cc), (refl, (refl, (refl, (refl, tt)))));
  no_nul = ((λ e. cc), ((λ e. cc), ((λ e. cc), ((λ e. cc), tt))));
  fits = omega arith;
}

-- The server's two sends, joined differently.
answer :
    flatten ((print_nat 5 ++ 32 ∷ codes "he") ∷ codes "llo" ∷ [])
    ≡ flatten (handle_pull_command disk with_file (join_path (codes "/a") (codes "f")))
unfolding handle_pull_command chunks print_nat digits bounded
answer = refl

pub header_fits : (first : Bytes) → length first ≤ 5 → length (print_nat 5 ++ 32 ∷ first) < 8192
unfolding print_nat digits
header_fits first h = omega arith

sync_single_file-Copied_example :
    Copied 0 disk empty
      (join_path (codes "/b") (codes "f"))
      (codes "hello")
      (sync_single_file 4 peers job ((print_nat 5 ++ 32 ∷ codes "he") ∷ codes "llo" ∷ []))
sync_single_file-Copied_example =
    sync_single_file-Copied 4 0 peers job disk empty (codes "he") (codes "llo" ∷ []) peers-AllUp
      ((λ e. cc), tt) (omega arith) target-IsPath refl (λ c. refl) disk with_file (codes "hello")
      refl (omega arith) answer (header_fits (codes "he") (omega arith))

-- Five bytes are announced and two come.
sync_single_file_passes_on_example :
    Copied 0 disk empty
      (join_path (codes "/b") (codes "f"))
      (codes "he")
      (sync_single_file 1 peers job ((print_nat 5 ++ 32 ∷ codes "he") ∷ []))
sync_single_file_passes_on_example =
    sync_single_file_passes_on 1 0 peers job disk empty (codes "he") [] peers-AllUp tt (omega arith)
      target-IsPath refl (λ c. refl) 5 (omega arith) (omega arith)
      (header_fits (codes "he") (omega arith))

sync_single_file-Returned_example :
    Returned (codes "12 abc" ∷ []) (sync_single_file 9 peers job (codes "12 abc" ∷ []))
sync_single_file-Returned_example =
    sync_single_file-Returned 9 peers job (codes "12 abc" ∷ []) (omega arith)

abbrev target_path : Bytes
target_path = join_path (codes "/b") (codes "f")

-- The calls take the start, the half of the first header, nothing, and the rest.
abbrev wire : Wire
wire = record { results = some 13 ∷ some 6 ∷ none ∷ some 99 ∷ []; taken = [] }

wire_goes : true ≡ start_goes wire target_path
unfolding join_path bounded send_command push_start send
wire_goes = refl

forward_single_file-refines_example :
    forward_single_file 9 peers job (codes "5 he" ∷ codes "llo" ∷ []) wire
    ≡ Option.map (on_wire wire) (sync_single_file 9 peers job (codes "5 he" ∷ codes "llo" ∷ []))
forward_single_file-refines_example =
    forward_single_file-refines 9 peers job (codes "5 he" ∷ codes "llo" ∷ []) wire wire_goes

abbrev copied_two : Transfer
copied_two =
    succeeded (bounded max_command_size (pull_line (join_path (codes "/a") (codes "f"))) ∷ [])
      (bounded max_command_size (push_start target_path)
        ∷ (send_chunk target_path (codes "he")
            ++ ([] ++ bounded max_command_size (push_end target_path) ∷ [])))
      2

copied_two_lem : sync_single_file 9 peers job (codes "2 he" ∷ []) ≡ some copied_two
unfolding sync_single_file transfer_file transfer_data split_header recv relay atol c_string
    skip_spaces is_space signed scan_digits is_digit to_long
copied_two_lem = refl

forward_single_file-lost_example :
    forward_single_file 9 peers job
      (codes "2 he" ∷ [])
      (breaks_behind (bounded max_command_size (push_start target_path)))
    ≡ some (record {
      status = success;
      wire = broken_behind (bounded max_command_size (push_start target_path));
      transferred = 2;
    })
forward_single_file-lost_example =
    forward_single_file-lost 9 peers job (codes "2 he" ∷ []) copied_two refl copied_two_lem refl
