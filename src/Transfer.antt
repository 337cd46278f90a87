-- ===== src/Transfer.antt =====
-- thread_pool.c: `sync_single_file`, by which a worker copies one file from the source's server to
-- the target's. `Peers` says which calls on the two connections succeed; the bytes that arrive from
-- the source are a stream. The sends behind the first command to the target are not checked by the
-- code, and go through here; Transfer.Wire has their results. The log lines are not modelled.
pub mod Relay
pub mod Sent
pub mod EndToEnd
pub mod Failures
pub mod Life
pub mod Wire
pub mod Directory
use nfs_system.Base.{
  ℕ, zero, suc, ◌+◌, ◌-◌, ◌*◌, List, [], ◌∷◌, ◌++◌, Option, none, some, Bool, true, false, ◌==◌,
  ltb, not, if◌then◌else◌, length, ℤ, pos, negsuc,
}
use nfs_system.Text.{Bytes}
use nfs_system.Text.Number.{atol}
use nfs_system.Net.{Stream, recv, c_string, bounded}
use nfs_system.Protocol.{pull_line, push_start, push_chunk, push_end}
use nfs_system.Spec.{max_path}
pub use nfs_system.Spec.{max_buffer_size, max_command_size}
use nfs_system.Store.{Status, success, failure}
use nfs_system.Pool.{SyncJob}

pub record Peers : Type 0 where
  pub source_connects : Bool
  pub target_connects : Bool
  pub pull_sent : Bool
  pub start_sent : Bool

-- The result 0 or -1, what was sent on each connection, one text for each `send`, and
-- `total_transferred`.
pub record Transfer : Type 0 where
  pub status : Status
  pub to_source : List Bytes
  pub to_target : List Bytes
  pub transferred : ℕ

abbrev pub failed : List Bytes → List Bytes → Transfer
failed source target = record {
  status = failure;
  to_source = source;
  to_target = target;
  transferred = 0;
}

abbrev pub succeeded : List Bytes → List Bytes → ℕ → Transfer
succeeded source target n = record {
  status = success;
  to_source = source;
  to_target = target;
  transferred = n;
}

-- `snprintf(path, MAX_PATH * 2, "%s/%s", dir, filename)`
unfoldable pub join_path : Bytes → Bytes → Bytes
join_path dir filename = bounded (max_path * 2) (dir ++ b'/' ∷ filename)

-- `strchr(response, ' ')`, and the bytes behind it, which may hold NULs.
unfoldable pub split_header : Bytes → Option (Bytes × Bytes)
split_header [] = none
split_header (x ∷ s) =
    let rest = split_header s in
    if x == 0
    then none
    else if x == 32
    then some ([], s)
    else elim rest [ none ↦ none | some (head, tail) ↦ some (x ∷ head, tail) ]

-- Two sends: the header of a chunk and its bytes.
unfoldable pub send_chunk : Bytes → Bytes → List Bytes
send_chunk path b = bounded max_command_size (push_chunk path (length b)) ∷ b ∷ []

-- The loop that passes the file on. Each round receives at least one byte.
unfoldable pub relay : ℕ → Bytes → ℕ → ℕ → Stream → Option (List Bytes × ℕ)
relay zero path total size stream = none
relay (suc fuel) path total size stream = elim (ltb total size) [
  | false ↦ some ([], total)
  | true ↦ elim (recv max_buffer_size stream) [
    | none ↦ some ([], total)
    | some (b, rest) ↦ elim (relay fuel path (total + length b) size rest) [
      | none ↦ none
      | some (sends, n) ↦ some (send_chunk path b ++ sends, n)
    ]
  ]
]

-- From the first data on: `header` is the size's text, `first` what came behind its blank.
unfoldable pub transfer_data : ℕ → List Bytes → Bytes → ℕ → Bytes → Stream → Option Transfer
transfer_data fuel asked path size first stream =
    let start = if ltb 0 (length first) then send_chunk path first else [] in
    elim (relay fuel path (length first) size stream) [
      | none ↦ none
      | some (sends, n) ↦ some (
          succeeded asked
            (bounded max_command_size (push_start path)
              ∷ (start ++ (sends ++ bounded max_command_size (push_end path) ∷ [])))
            n)
    ]

-- From the answer to PULL on.
unfoldable pub transfer_file : ℕ → Peers → List Bytes → Bytes → Bytes → Stream → Option Transfer
transfer_file fuel peers asked path response stream = elim (split_header response) [
  | none ↦ some (failed asked [])
  | some (head, first) ↦ elim (atol (c_string response)) [
    | negsuc n ↦ some (failed asked [])
    | pos size ↦
        if peers.start_sent
        then transfer_data fuel asked path size first stream
        else some (failed asked (bounded max_command_size (push_start path) ∷ []))
  ]
]

unfoldable pub sync_single_file : ℕ → Peers → SyncJob → Stream → Option Transfer
sync_single_file fuel peers job stream =
    let source_path = join_path job.source.dir job.filename in
    let target_path = join_path job.target.dir job.filename in
    let asked = bounded max_command_size (pull_line source_path) ∷ [] in
    if not peers.source_connects
    then some (failed [] [])
    else if not peers.target_connects
    then some (failed [] [])
    else if not peers.pull_sent
    then some (failed asked [])
    else elim (recv (max_buffer_size - 1) stream) [
      | none ↦ some (failed asked [])
      | some (response, rest) ↦ transfer_file fuel peers asked target_path response rest
    ]
